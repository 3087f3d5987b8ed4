-- ===== src/Counter/Ledger/Invariant.antt =====
-- The steps in Redis keep the invariant of the ledger.
use comment_project.Common.{
  ℕ, ◌≡◌, ◌≢◌, refl, inl, inr, true, false, none, some, arith, if◌then◌else◌, Bool-cases,
  Option-cases, ap, ◌∙◌,
}
use comment_project.Common.Int.{ℤ, pos, ◌-ℤ◌, int_laws}
use comment_project.Common.Dict.{
  Dict, text_eq, text_beq, lookup, insert, erase, lookup-insert, erase_absent, insert-Distinct,
  erase-Distinct, lookup-insert_ne, lookup-erase_ne, missing-ne-found, erase-found,
}
use comment_project.Common.Sum.{sum_by, sum_by-erase}
use comment_project.Common.Text.{Text, format_int, cut}
use comment_project.Counter.State.{
  Kind, Redis, Store, BatchRow, or_zero, clear_dirty, quiet_period, max_delay,
}
use comment_project.Counter.Scripts.{
  enqueue_script, claim_script, take_delta, not_ready_until, batch_value, clear_script,
  number_or_zero,
}
use comment_project.Counter.Batches.{typed_row}
use comment_project.Counter.Ledger.{Inv, value_share, is_success, content}
use comment_project.Counter.Ledger.Content.{
  content-batch_value, or_zero-hincrby, or_zero-lowered, value_share-cut,
}
use comment_project.Counter.Ledger.Upkeep.{clear_script-processing_batch}

value_share_new :
    (batch post : Text) (p d : ℤ)
    → value_share post batch (batch_value (format_int p) d)
      ≡ (if text_beq (format_int p) post then d else pos 0)
unfolding value_share
value_share_new batch post p d = rw content-batch_value refl

take_delta-some-Inv :
    (kind : Kind) (s : Store) (p d : ℤ) (batch : Text)
    → Inv kind s
    → lookup batch s.redis.processing_batch ≡ none
    → lookup batch s.db.counter_batch ≡ none
    → lookup (format_int p) s.redis.delta ≡ some d
    → Inv kind (record s { redis = (take_delta (format_int p) batch s.redis).1 })
unfolding take_delta clear_dirty
take_delta-some-Inv kind s p d batch v unclaimed unknown e =
    let m = s.redis.processing_batch in
    let raw = batch_value (format_int p) d in
    rw (e, take_delta)
      (record {
        batches_distinct = insert-Distinct batch raw m v.batches_distinct;
        rows_distinct = v.rows_distinct;
        unfinished = λ b row found k o.
            let h = v.unfinished b row found k o in
            record {
              raw = h.raw;
              found =
                  lookup-insert_ne b batch raw m
                    (missing-ne-found batch b s.db.counter_batch unknown found)
                  ∙ h.found;
              reads = h.reads;
            };
        written = λ b raw' found. elim (Bool-cases (text_beq batch b)) [
          | inl same ↦ record {
            post = p;
            delta = d;
            text = ground (arith, lookup-insert b batch raw m, same, found);
          }
          | inr other ↦ v.written b raw' (ground (arith, lookup-insert b batch raw m, other, found))
        ];
        summed = λ post.
            unfold insert sum_by in
            grind (
              int_laws,
              v.summed post,
              or_zero-hincrby post (format_int p) d s.redis.processing_sum,
              value_share_new batch post p d,
              erase_absent batch m unclaimed,
            );
      })

-- A change of the other keys of Redis keeps the invariant.
pub upkeep-Inv :
    (kind : Kind) (s : Store) (r : Redis)
    → Inv kind s
    → r.processing_batch ≡ s.redis.processing_batch
    → r.processing_sum ≡ s.redis.processing_sum
    → Inv kind (record s { redis = r })
upkeep-Inv kind s r v b p = record {
  batches_distinct = rw b v.batches_distinct;
  rows_distinct = v.rows_distinct;
  unfinished = λ batch row found k o.
      let h = v.unfinished batch row found k o in
      record { raw = h.raw; found = rw b h.found; reads = h.reads };
  written = λ batch raw found. v.written batch raw (rw b at found);
  summed = λ post. rw (b, p) (v.summed post);
}

pub enqueue-Inv :
    (kind : Kind) (s : Store) (post : Text) (d : ℤ) (now : ℕ)
    → Inv kind s
    → Inv kind (record s { redis = (enqueue_script post d now s.redis).1 })
unfolding enqueue_script
enqueue-Inv kind s post d now v = upkeep-Inv kind s _ v refl refl

pub claim-Inv :
    (kind : Kind) (s : Store) (p : ℤ) (now : ℕ) (batch : Text)
    → Inv kind s
    → lookup batch s.redis.processing_batch ≡ none
    → lookup batch s.db.counter_batch ≡ none
    → Inv kind (record s {
      redis = (claim_script (format_int p) quiet_period max_delay now batch s.redis).1;
    })
unfolding claim_script
claim-Inv kind s p now batch v unclaimed unknown =
    elim (Option-cases (not_ready_until (format_int p) quiet_period max_delay now s.redis)) [
      | inr (next, e) ↦ rw (e, claim_script) (upkeep-Inv kind s _ v refl refl)
      | inl e ↦
          rw (e, claim_script)
            (elim (Option-cases (lookup (format_int p) s.redis.delta)) [
              | inl none_pending ↦
                  unfold take_delta clear_dirty in
                  rw (none_pending, take_delta) (upkeep-Inv kind s _ v refl refl)
              | inr (d, some_pending) ↦
                  take_delta-some-Inv kind s p d batch v unclaimed unknown some_pending
            ])
    ]

clear-summed :
    (kind : Kind) (s : Store) (batch post : Text)
    → Inv kind s
    → or_zero (lookup post (clear_script batch s.redis).1.processing_sum)
      ≡ sum_by (value_share post) (erase batch s.redis.processing_batch)
unfolding clear_script
clear-summed kind s batch post v =
    let shares =
      sum_by-erase (value_share post) batch s.redis.processing_batch v.batches_distinct in
    elim (Option-cases (lookup batch s.redis.processing_batch)) [
      | inl e ↦ rw (e, clear_script) (grind (int_laws, shares, v.summed post, e))
      | inr (raw, e) ↦ elim (Option-cases (cut b':' raw)) [
        | inl c ↦
            rw (e, clear_script)
              (rw (c, clear_script)
                (unfold value_share content in grind (int_laws, shares, v.summed post, e, c)))
        | inr ((q, t), c) ↦
            rw (e, clear_script)
              (rw (c, clear_script)
                (grind (
                  int_laws,
                  shares,
                  v.summed post,
                  e,
                  value_share-cut post batch raw q t c,
                  or_zero-lowered post q (pos 0 -ℤ number_or_zero t) s.redis.processing_sum,
                )))
      ]
    ]

success-unfinished :
    (kind : Kind) (batch b : Text) (rows : Dict Text BatchRow) (row : BatchRow)
    → is_success (typed_row kind (lookup batch rows)) ≡ true
    → lookup b rows ≡ some row
    → is_success (some row) ≡ false
    → batch ≢ b
unfolding typed_row
success-unfinished kind batch b rows row h found o same =
    let there : lookup batch rows ≡ some row = ap (λ (x : Text). lookup x rows) same ∙ found in
    ground (arith, h, there, o)

pub clear-Inv :
    (kind : Kind) (s : Store) (batch : Text)
    → Inv kind s
    → is_success (typed_row kind (lookup batch s.db.counter_batch)) ≡ true
    → Inv kind (record s { redis = (clear_script batch s.redis).1 })
clear-Inv kind s batch v h = record {
  batches_distinct =
      rw clear_script-processing_batch
        (erase-Distinct batch s.redis.processing_batch v.batches_distinct);
  rows_distinct = v.rows_distinct;
  unfinished = λ b row found k o.
      let h' = v.unfinished b row found k o in
      record {
        raw = h'.raw;
        found = rw clear_script-processing_batch (
            lookup-erase_ne b batch s.redis.processing_batch
              (success-unfinished kind batch b s.db.counter_batch row h found o)
            ∙ h'.found);
        reads = h'.reads;
      };
  written = λ b raw found.
      v.written b raw
        (erase-found b batch s.redis.processing_batch (rw clear_script-processing_batch at found));
  summed = λ post. rw clear_script-processing_batch (clear-summed kind s batch post v);
}
