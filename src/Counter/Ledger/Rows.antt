-- ===== src/Counter/Ledger/Rows.antt =====
-- The steps in `counter_batch` keep the invariant of the ledger.
use comment_project.Common.{
  ℕ, ◌≡◌, ◌≢◌, ◌⊎◌, inl, inr, true, false, none, some, arith, Bool-cases, Option-cases, ap, ◌∙◌,
}
use comment_project.Common.Int.{ℤ}
use comment_project.Common.Dict.{text_eq, text_beq, text_beq_iff, lookup}
use comment_project.Common.Table.{
  add, lookup-add_absent, add_present, add-Distinct, adjust-Distinct, adjust_cases,
}
use comment_project.Common.Text.{Text, format_int}
use comment_project.Counter.State.{Kind, is_kind, Store, BatchRow}
use comment_project.Counter.Flush.{new_row, Outcome, answers, fails, unheard}
use comment_project.Counter.Batches.{booked, mark_failed, mark_success}
use comment_project.Counter.Ledger.{Inv, Holds, is_success}

insert_new-unfinished :
    (kind : Kind) (s : Store) (p d : ℤ) (batch : Text) (now : ℕ)
    → Inv kind s
    → Holds s.redis batch p d
    → lookup batch s.db.counter_batch ≡ none
    → (b : Text) (row : BatchRow)
    → lookup b (add batch (new_row kind p d now) s.db.counter_batch) ≡ some row
    → is_kind row.counter_type kind ≡ true
    → is_success (some row) ≡ false
    → Holds s.redis b row.post_id row.delta
insert_new-unfinished kind s p d batch now v h new b row found k o =
    let rows = s.db.counter_batch in
    let at = lookup-add_absent b batch (new_row kind p d now) rows new in
    elim (Bool-cases (text_beq batch b)) [
      | inl same ↦
          let e : new_row kind p d now ≡ row = ground (arith, at, same, found) in
          let eb = (text_beq_iff batch b).0 same in
          record { raw = h.raw; found = rw (← eb) h.found; reads = rw (← e) h.reads }
      | inr other ↦ v.unfinished b row (ground (arith, at, other, found)) k o
    ]

pub insert-Inv :
    (kind : Kind) (s : Store) (p d : ℤ) (batch : Text) (now : ℕ)
    → Inv kind s
    → (Holds s.redis batch p d) ⊎ (lookup batch s.db.counter_batch ≢ none)
    → Inv kind (record s {
      db = record (s.db) { counter_batch = add batch (new_row kind p d now) s.db.counter_batch };
    })
insert-Inv kind s p d batch now v g = elim (Option-cases (lookup batch s.db.counter_batch)) [
  | inr (row, old) ↦ rw (add_present batch (new_row kind p d now) row s.db.counter_batch old) v
  | inl new ↦ elim g [
    | inr known ↦ absurd (known new)
    | inl h ↦ record {
      batches_distinct = v.batches_distinct;
      rows_distinct = add-Distinct batch (new_row kind p d now) s.db.counter_batch v.rows_distinct;
      unfinished = insert_new-unfinished kind s p d batch now v h new;
      written = v.written;
      summed = v.summed;
    }
  ]
]

pub apply-Inv :
    (kind : Kind) (s : Store) (batch : Text) (p d : ℤ)
    → Inv kind s
    → Inv kind (record s { db = booked kind batch p d s.db })
unfolding booked
apply-Inv kind s batch p d v = record {
  batches_distinct = v.batches_distinct;
  rows_distinct = adjust-Distinct batch mark_success s.db.counter_batch v.rows_distinct;
  unfinished = λ b row found k o.
      elim (adjust_cases batch b mark_success s.db.counter_batch found) [
        | inl (old, same, there, new) ↦
            absurd (cc (o, ap (λ (r : BatchRow). is_success (some r)) new))
        | inr (ne, there) ↦ v.unfinished b row there k o
      ];
  written = v.written;
  summed = v.summed;
}

mark_answers-Inv :
    (kind : Kind) (s : Store) (batch cause : Text) (now : ℕ)
    → Inv kind s
    → is_success (lookup batch s.db.counter_batch) ≡ false
    → Inv kind (record s { db = mark_failed answers batch cause now s.db })
unfolding mark_failed
mark_answers-Inv kind s batch cause now v h = record {
  batches_distinct = v.batches_distinct;
  rows_distinct = adjust-Distinct batch _ s.db.counter_batch v.rows_distinct;
  unfinished = λ b row found k o. elim (adjust_cases batch b _ s.db.counter_batch found) [
    | inl (old, same, there, new) ↦
        let k' : is_kind old.counter_type kind ≡ true =
          ap (λ (r : BatchRow). is_kind r.counter_type kind) new ∙ k in
        let o' : is_success (some old) ≡ false = cc (
          h,
          ap is_success there,
          ap (λ (x : Text). is_success (lookup x s.db.counter_batch)) same,
        ) in
        let h' = v.unfinished b old there k' o' in
        record {
          raw = h'.raw;
          found = h'.found;
          reads = h'.reads ∙ ap (λ (r : BatchRow). some (format_int r.post_id, r.delta)) new;
        }
    | inr (ne, there) ↦ v.unfinished b row there k o
  ];
  written = v.written;
  summed = v.summed;
}

pub mark-Inv :
    (kind : Kind) (s : Store) (o : Outcome) (batch cause : Text) (now : ℕ)
    → Inv kind s
    → is_success (lookup batch s.db.counter_batch) ≡ false
    → Inv kind (record s { db = mark_failed o batch cause now s.db })
mark-Inv kind s answers batch cause now v h = mark_answers-Inv kind s batch cause now v h
mark-Inv kind s fails batch cause now v h = unfold mark_failed in v
mark-Inv kind s unheard batch cause now v h =
    unfold mark_failed in mark_answers-Inv kind s batch cause now v h
