-- ===== src/Counter/Ledger/Bookings.antt =====
-- The steps of the booking side keep the account of every post.
use comment_project.Common.{
  ℕ, ◌≡◌, ◌≢◌, ◌∙◌, inl, inr, Bool-cases, refl, true, false, some, arith, if◌then◌else◌, ap,
}
use comment_project.Common.Int.{ℤ, pos, ◌+ℤ◌, int_laws, int_beq, int_beq_iff, at_least_zero}
use comment_project.Common.Dict.{Dict, text_eq, lookup}
use comment_project.Common.Table.{adjust, lookup-adjust_self, lookup-adjust_ne}
use comment_project.Common.Sum.{sum_by, sum_by-erase, sum_by_agree, value_or_zero}
use comment_project.Common.Text.{Text, format_int}
use comment_project.Counter.State.{Kind, is_kind, Store, BatchRow, column}
use comment_project.Counter.Batches.{
  typed_row, claims_row, booked, mark_success, is_due, book_delta,
}
use comment_project.Counter.Read.{stored_counts}
use comment_project.Counter.Stored.{count_of, book_delta-count_of}
use comment_project.Counter.Ledger.{
  Inv, Holds, account, open_sum, open_share, value_share, is_success, excess,
}
use comment_project.Counter.Ledger.Content.{text_beq-format_int}

-- Where a table changes at one batch only, the other entries keep their shares.
open_share_elsewhere :
    (kind : Kind) (post : Text) (batch : Text) (f : BatchRow → BatchRow) (rows : Dict Text BatchRow)
    (j raw : Text)
    → batch ≢ j
    → open_share kind post (adjust batch f rows) j raw ≡ open_share kind post rows j raw
unfolding open_share
open_share_elsewhere kind post batch f rows j raw h = rw (lookup-adjust_ne j batch f rows h)

-- A booked batch is in no open sum.
open_share_booked :
    (kind : Kind) (post batch raw : Text) (row : BatchRow) (rows : Dict Text BatchRow)
    → lookup batch rows ≡ some row
    → is_kind row.counter_type kind ≡ true
    → open_share kind post (adjust batch mark_success rows) batch raw ≡ pos 0
unfolding open_share typed_row
open_share_booked kind post batch raw row rows found k =
    rw (lookup-adjust_self batch mark_success row rows found) (rw k refl)

-- An unfinished batch is in the open sum of its post.
open_share_unfinished :
    (kind : Kind) (s : Store) (q : ℤ) (batch : Text) (row : BatchRow)
    (h : Holds s.redis batch row.post_id row.delta)
    → lookup batch s.db.counter_batch ≡ some row
    → is_success (some row) ≡ false
    → open_share kind (format_int q) s.db.counter_batch batch h.raw
      ≡ (if int_beq row.post_id q then row.delta else pos 0)
unfolding open_share typed_row value_share
open_share_unfinished kind s q batch row h found unbooked =
    ground (arith, found, h.reads, unbooked, text_beq-format_int row.post_id q)

-- `claims_row` finds a row of the kind that is not booked.
claims_row_kind :
    (kind : Kind) (now : ℕ) (row : BatchRow)
    → claims_row kind now (some row) ≡ true
    → (is_kind row.counter_type kind ≡ true) × (is_success (some row) ≡ false)
unfolding claims_row is_due
claims_row_kind kind now row h = ground arith

apply_open_sum :
    (kind : Kind) (s : Store) (q : ℤ) (batch : Text) (row : BatchRow)
    → Inv kind s
    → lookup batch s.db.counter_batch ≡ some row
    → is_kind row.counter_type kind ≡ true
    → is_success (some row) ≡ false
    → sum_by
          (open_share kind (format_int q) (adjust batch mark_success s.db.counter_batch))
          s.redis.processing_batch
        +ℤ (if int_beq row.post_id q then row.delta else pos 0)
      ≡ open_sum kind q s
unfolding open_sum
apply_open_sum kind s q batch row v found k unbooked =
    let h = v.unfinished batch row found k unbooked in
    let rows = s.db.counter_batch in
    let f = open_share kind (format_int q) rows in
    let g = open_share kind (format_int q) (adjust batch mark_success rows) in
    grind (
      int_laws,
      sum_by-erase f batch s.redis.processing_batch v.batches_distinct,
      sum_by-erase g batch s.redis.processing_batch v.batches_distinct,
      sum_by_agree g f batch s.redis.processing_batch
          (λ j raw ne. open_share_elsewhere kind (format_int q) batch mark_success rows j raw ne),
      ap (value_or_zero (f batch)) h.found,
      ap (value_or_zero (g batch)) h.found,
      open_share_unfinished kind s q batch row h found unbooked,
      open_share_booked kind (format_int q) batch h.raw row rows found k,
    )

count_excess : (n d : ℤ) → at_least_zero (n +ℤ d) ≡ n +ℤ d +ℤ excess n d
count_excess n d = grind int_laws

apply_count :
    (kind : Kind) (s : Store) (q : ℤ) (row : BatchRow)
    → count_of kind q (book_delta kind row.post_id row.delta s.db.post_counter)
      ≡ count_of kind q s.db.post_counter
        +ℤ (if int_beq row.post_id q then row.delta else pos 0)
        +ℤ (if int_beq row.post_id q
            then excess (count_of kind q s.db.post_counter) row.delta
            else pos 0)
apply_count kind s q row =
    let (same, _, others) = book_delta-count_of kind row.post_id row.delta s.db.post_counter in
    elim (Bool-cases (int_beq row.post_id q)) [
      | inl here ↦
          rw (here, ← (int_beq_iff row.post_id q).0 here, same)
            (count_excess (count_of kind row.post_id s.db.post_counter) row.delta)
      | inr there ↦ rw there (
          ap (λ o. column kind (stored_counts o))
            (others q (λ h. cc ((int_beq_iff row.post_id q).1 h, there)))
          ∙ grind int_laws)
    ]

-- Booking a batch moves its delta from the open sum to the count of its post.
pub apply-account :
    (kind : Kind) (s : Store) (q : ℤ) (batch : Text) (row : BatchRow) (now : ℕ)
    → Inv kind s
    → lookup batch s.db.counter_batch ≡ some row
    → claims_row kind now (some row) ≡ true
    → account kind q (record s { db = booked kind batch row.post_id row.delta s.db })
      ≡ account kind q s
        +ℤ (if int_beq row.post_id q
            then excess (count_of kind q s.db.post_counter) row.delta
            else pos 0)
unfolding account booked
apply-account kind s q batch row now v found claims =
    let (k, unbooked) = claims_row_kind kind now row claims in
    let o = apply_open_sum kind s q batch row v found k unbooked in
    let c = apply_count kind s q row in unfold open_sum in grind (int_laws, o, c)
