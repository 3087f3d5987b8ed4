-- ===== src/Counter/Ledger/Upkeep.antt =====
-- Inserting a batch, marking one as failed and clearing a booked one change no account.
use comment_project.Common.{
  ℕ, ◌+◌, take, ◌≡◌, refl, inl, inr, true, false, none, arith, Bool-cases, Option-cases,
}
use comment_project.Common.Int.{ℤ, pos, int_laws}
use comment_project.Common.Dict.{Dict, text_eq, text_beq, text_beq_iff, lookup, erase, erase_absent}
use comment_project.Common.Table.{
  add, adjust, lookup-add_absent, add_present, lookup-adjust_self, lookup-adjust_ne, adjust_absent,
}
use comment_project.Common.Sum.{sum_by-erase, sum_by_equal}
use comment_project.Common.Text.{Text, format_int}
use comment_project.Counter.State.{Kind, Redis, Store, BatchRow, failed, batch_retry_delay}
use comment_project.Counter.Scripts.{clear_script}
use comment_project.Counter.Flush.{new_row, Outcome, answers, fails, unheard}
use comment_project.Counter.Batches.{typed_row, mark_failed}
use comment_project.Counter.Ledger.{Inv, account, open_sum, open_share, is_success}

-- A new row is not booked, so that no entry's share changes.
open_share_added :
    (kind : Kind) (post : Text) (p d : ℤ) (batch : Text) (now : ℕ) (rows : Dict Text BatchRow)
    (j raw : Text)
    → lookup batch rows ≡ none
    → open_share kind post (add batch (new_row kind p d now) rows) j raw
      ≡ open_share kind post rows j raw
unfolding open_share typed_row
open_share_added kind post p d batch now rows j raw h =
    ground (arith, h, lookup-add_absent j batch (new_row kind p d now) rows h, text_beq_iff batch j)

pub insert-account :
    (kind : Kind) (s : Store) (p d q : ℤ) (batch : Text) (now : ℕ)
    → account kind q (record s {
      db = record (s.db) { counter_batch = add batch (new_row kind p d now) s.db.counter_batch };
    })
      ≡ account kind q s
unfolding account open_sum
insert-account kind s p d q batch now =
    let rows = s.db.counter_batch in
    elim (Option-cases (lookup batch rows)) [
      | inl new ↦ grind (
        int_laws,
        sum_by_equal (open_share kind (format_int q) (add batch (new_row kind p d now) rows))
            (open_share kind (format_int q) rows) s.redis.processing_batch
            (λ j raw. open_share_added kind (format_int q) p d batch now rows j raw new),
      )
      | inr (row, old) ↦ rw (add_present batch (new_row kind p d now) row rows old) refl
    ]

abbrev marked : Text → ℕ → BatchRow → BatchRow
marked cause now row = record row {
  status = failed;
  retry_count = row.retry_count + 1;
  next_retry_at = now + batch_retry_delay;
  last_error = take 512 cause;
}

open_share-marked :
    (kind : Kind) (post : Text) (batch cause : Text) (now : ℕ) (rows : Dict Text BatchRow)
    (j raw : Text)
    → is_success (lookup batch rows) ≡ false
    → open_share kind post (adjust batch (marked cause now) rows) j raw
      ≡ open_share kind post rows j raw
unfolding open_share
open_share-marked kind post batch cause now rows j raw h = elim (Bool-cases (text_beq batch j)) [
  | inl same ↦ rw (← (text_beq_iff batch j).0 same) (elim (Option-cases (lookup batch rows)) [
    | inl e ↦ rw (adjust_absent batch (marked cause now) rows e) refl
    | inr (row, e) ↦
        rw (lookup-adjust_self batch (marked cause now) row rows e, e)
          (unfold typed_row in ground (arith, h, e))
  ])
  | inr other ↦
      rw
        (lookup-adjust_ne j batch (marked cause now) rows
          (λ e. ground (arith, other, (text_beq_iff batch j).1 e)))
        refl
]

mark_answers-account :
    (kind : Kind) (s : Store) (q : ℤ) (batch cause : Text) (now : ℕ)
    → Inv kind s
    → is_success (lookup batch s.db.counter_batch) ≡ false
    → account kind q (record s { db = mark_failed answers batch cause now s.db }) ≡ account kind q s
unfolding account open_sum mark_failed
mark_answers-account kind s q batch cause now v h =
    let rows = s.db.counter_batch in
    grind (
      int_laws,
      sum_by_equal (open_share kind (format_int q) (adjust batch (marked cause now) rows))
          (open_share kind (format_int q) rows) s.redis.processing_batch
          (λ j raw. open_share-marked kind (format_int q) batch cause now rows j raw h),
    )

pub mark-account :
    (kind : Kind) (s : Store) (q : ℤ) (o : Outcome) (batch cause : Text) (now : ℕ)
    → Inv kind s
    → is_success (lookup batch s.db.counter_batch) ≡ false
    → account kind q (record s { db = mark_failed o batch cause now s.db }) ≡ account kind q s
mark-account kind s q answers batch cause now v h =
    mark_answers-account kind s q batch cause now v h
mark-account kind s q fails batch cause now v h = unfold mark_failed in refl
mark-account kind s q unheard batch cause now v h =
    unfold mark_failed in mark_answers-account kind s q batch cause now v h

pub clear_script-processing_batch :
    (batch : Text) (r : Redis)
    → (clear_script batch r).1.processing_batch ≡ erase batch r.processing_batch
unfolding clear_script
clear_script-processing_batch batch r = ground (arith, erase_absent batch r.processing_batch)

pub clear_script-delta : (batch : Text) (r : Redis) → (clear_script batch r).1.delta ≡ r.delta
unfolding clear_script
clear_script-delta batch r = ground arith

open_share_success :
    (kind : Kind) (post batch raw : Text) (rows : Dict Text BatchRow)
    → is_success (typed_row kind (lookup batch rows)) ≡ true
    → open_share kind post rows batch raw ≡ pos 0
unfolding open_share
open_share_success kind post batch raw rows h = rw h refl

-- The entry of a booked batch has no share, so clearing it changes nothing.
pub clear-account :
    (kind : Kind) (s : Store) (q : ℤ) (batch : Text)
    → Inv kind s
    → is_success (typed_row kind (lookup batch s.db.counter_batch)) ≡ true
    → account kind q (record s { redis = (clear_script batch s.redis).1 }) ≡ account kind q s
unfolding account open_sum
clear-account kind s q batch v h =
    let f = open_share kind (format_int q) s.db.counter_batch in
    let shares = sum_by-erase f batch s.redis.processing_batch v.batches_distinct in
    rw (clear_script-processing_batch, clear_script-delta)
      (elim (Option-cases (lookup batch s.redis.processing_batch)) [
        | inl e ↦ grind (int_laws, shares, e)
        | inr (raw, e) ↦ grind (
          int_laws,
          shares,
          e,
          open_share_success kind (format_int q) batch raw s.db.counter_batch h,
        )
      ])
