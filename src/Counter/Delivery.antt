-- ===== src/Counter/Delivery.antt =====
-- The way of one delta from Redis to `post_counter`, and how long it can be put off.
use comment_project.Common.{
  ℕ, ◌+◌, ◌≤◌, ◌≡◌, ◌⊎◌, refl, ap, inl, inr, none, some, true, false, arith, Option-cases,
  Bool-cases, not, ◌||◌,
}
use comment_project.Common.Int.{ℤ, is_zero, is_positive}
use comment_project.Common.Dict.{
  text_eq, lookup, text_beq, text_beq_iff, lookup-insert_self, lookup-erase_self,
}
use comment_project.Common.Table.{lookup-adjust_self, lookup-add_absent}
use comment_project.Common.Text.{
  Text, codes, format_int, cut, in_int64, parse_int-format_int, decimal, decimal-format_int,
  magnitude,
}
use comment_project.Common.Trim.{is_empty}
use comment_project.Counter.State.{
  Kind, Redis, Store, Db, BatchRow, next_flush_millis, quiet_period, max_delay, clear_dirty,
}
use comment_project.Counter.Scripts.{
  claim_script, take_delta, not_ready_until, batch_value, clear_script,
}
use comment_project.Counter.Flush.{
  answers, claimed, claim_delta, read_claim, parse_claim, recheck_ready, ready, claim_and_book,
  book_claim, finish_flush, insert_batch, new_row, flush_post, flushed,
}
use comment_project.Counter.Batches.{
  apply_due, apply_batch, settle, DueRow, no_fault, claims_row, booked, book_delta, mark_success,
  clear_batch, is_due,
}

-- The next flush of a dirty post comes at the end of its quiet period or of its longest delay,
-- whichever is first.
pub next_flush_millis-bounds :
    (dirty_at dirty_since : ℕ)
    → (next_flush_millis dirty_at dirty_since ≤ dirty_at + quiet_period)
      × (next_flush_millis dirty_at dirty_since ≤ dirty_since + max_delay)
      × ((next_flush_millis dirty_at dirty_since ≡ dirty_at + quiet_period)
          ⊎ (next_flush_millis dirty_at dirty_since ≡ dirty_since + max_delay))
unfolding next_flush_millis
next_flush_millis-bounds dirty_at dirty_since = ground arith

-- A post is due: it is marked, and its longest delay or its quiet period is over.
pub record IsDue (post : Text) (now : ℕ) (r : Redis) : Type 0 where
  pub dirty_at : ℕ
  pub dirty_since : ℕ
  pub at : lookup post r.dirty_at ≡ some dirty_at
  pub since : lookup post r.dirty_since ≡ some dirty_since
  pub over : (dirty_at + quiet_period ≤ now) ⊎ (dirty_since + max_delay ≤ now)

recheck-ready :
    (post : Text) (now : ℕ) (r : Redis) → IsDue post now r → recheck_ready post now r ≡ (ready, r)
unfolding recheck_ready
recheck-ready post now r due =
    let (a, b, c) = next_flush_millis-bounds due.dirty_at due.dirty_since in
    rw (due.at, recheck_ready) (rw due.since (ground (arith, due.over, a, b)))

due-not_ready_until :
    (post : Text) (now : ℕ) (r : Redis)
    → IsDue post now r
    → not_ready_until post quiet_period max_delay now r ≡ none
unfolding not_ready_until
due-not_ready_until post now r due =
    rw (due.at, not_ready_until) (rw due.since (ground (arith, due.over)))

no_marker : decimal (codes "__not_ready__") ≡ none
unfolding decimal magnitude
no_marker = refl

format_int-not_marker : (d : ℤ) → text_beq (format_int d) (codes "__not_ready__") ≡ false
format_int-not_marker d = elim (Bool-cases (text_beq (format_int d) (codes "__not_ready__"))) [
  | inr other ↦ other
  | inl same ↦
      let e = ap decimal ((text_beq_iff (format_int d) (codes "__not_ready__")).0 same) in
      absurd (cc (e, decimal-format_int d, no_marker))
]

parse_claim-format_int :
    (d : ℤ) → in_int64 d ≡ some d → is_zero d ≡ false → parse_claim (format_int d) ≡ claimed d
unfolding parse_claim
parse_claim-format_int d h nz = rw (format_int-not_marker d, parse_int-format_int d h) (rw nz refl)

-- What the claim of a due post leaves.
due_claim :
    (p d : ℤ) (batch : Text) (now : ℕ) (r : Redis)
    → IsDue (format_int p) now r
    → lookup (format_int p) r.delta ≡ some d
    → in_int64 d ≡ some d
    → is_zero d ≡ false
    → let (claim, r') = claim_delta answers (format_int p) now batch r in
      (claim ≡ claimed d)
      × (lookup (format_int p) r'.delta ≡ none)
      × (lookup batch r'.processing_batch ≡ some (batch_value (format_int p) d))
unfolding claim_delta claim_script take_delta read_claim clear_dirty
due_claim p d batch now r due pending fits nz =
    rw (due-not_ready_until (format_int p) now r due, claim_script)
      (rw (pending, take_delta)
        (
          parse_claim-format_int d fits nz,
          lookup-erase_self (format_int p) r.delta,
          lookup-insert_self batch _ r.processing_batch,
        ))

flushed-row :
    (kind : Kind) (p d : ℤ) (batch : Text) (now : ℕ) (r : Redis) (db : Db)
    → lookup batch db.counter_batch ≡ none
    → is_zero d ≡ false
    → let (result, t) = book_claim answers kind (format_int p) p batch now (claimed d) r db in
      (result ≡ flushed)
      × (t.redis ≡ r)
      × (lookup batch t.db.counter_batch ≡ some (new_row kind p d now))
unfolding book_claim insert_batch finish_flush
flushed-row kind p d batch now r db f nz = rw nz (
  refl,
  refl,
  rw (lookup-add_absent batch batch (new_row kind p d now) db.counter_batch f)
      (rw (((text_eq).beq_iff batch batch).1 refl) refl),
)

-- A flush of a due post whose pending delta is an int64 other than zero, under a batch id that MySQL
-- does not have, and with calls that answer, moves the whole delta into a pending batch that is due
-- at once: Redis holds it open under the same id and has no pending delta left.
pub flush_post-new_row :
    (kind : Kind) (p d : ℤ) (batch : Text) (now : ℕ) (s : Store)
    → IsDue (format_int p) now s.redis
    → lookup (format_int p) s.redis.delta ≡ some d
    → in_int64 d ≡ some d
    → is_zero d ≡ false
    → lookup batch s.db.counter_batch ≡ none
    → let (result, t) = flush_post answers answers kind (format_int p) p batch now s in
      (result ≡ flushed)
      × (lookup batch t.db.counter_batch ≡ some (new_row kind p d now))
      × (lookup batch t.redis.processing_batch ≡ some (batch_value (format_int p) d))
      × (lookup (format_int p) t.redis.delta ≡ none)
unfolding flush_post claim_and_book
flush_post-new_row kind p d batch now s due pending fits nz f =
    let (c, gone, held) = due_claim p d batch now s.redis due pending fits nz in
    let r = (claim_delta answers (format_int p) now batch s.redis).1 in
    let (result, redis, row) = flushed-row kind p d batch now r s.db f nz in
    rw (recheck-ready (format_int p) now s.redis due)
      (rw c (result, row, rw redis held, rw redis gone))

clear_script-processing_batch :
    (batch : Text) (r : Redis) → lookup batch (clear_script batch r).1.processing_batch ≡ none
unfolding clear_script
clear_script-processing_batch batch r = elim (Option-cases (lookup batch r.processing_batch)) [
  | inl e ↦ rw (e, clear_script) e
  | inr (raw, e) ↦ elim (Option-cases (cut b':' raw)) [
    | inl f ↦
        rw (e, clear_script) (rw (f, clear_script) (lookup-erase_self batch r.processing_batch))
    | inr ((post, d), f) ↦
        rw (e, clear_script) (rw (f, clear_script) (lookup-erase_self batch r.processing_batch))
  ]
]

mark_success-claims_row :
    (kind : Kind) (now : ℕ) (row : BatchRow) → claims_row kind now (some (mark_success row)) ≡ false
unfolding claims_row is_due
mark_success-claims_row kind now row = ground arith

-- A round of the booking loop over a row that is due, without a fault and with a clearing that
-- answers, books its delta once, marks the row as booked, so that it is not due any more, and
-- takes its batch out of Redis.
pub apply_due-books :
    (kind : Kind) (row : BatchRow) (due : DueRow) (now : ℕ) (s : Store)
    → lookup due.batch_id s.db.counter_batch ≡ some row
    → claims_row kind now (some row) ≡ true
    → (is_empty due.batch_id || not (is_positive due.post_id) || is_zero due.delta) ≡ false
    → due.fault ≡ no_fault
    → due.clear_outcome ≡ answers
    → let t = apply_due kind now due s in
      (t.db.post_counter ≡ book_delta kind due.post_id due.delta s.db.post_counter)
      × (lookup due.batch_id t.db.counter_batch ≡ some (mark_success row))
      × (lookup due.batch_id t.redis.processing_batch ≡ none)
      × (claims_row kind now (lookup due.batch_id t.db.counter_batch) ≡ false)
unfolding apply_due settle apply_batch booked claims_row clear_batch
apply_due-books kind row due now s found claims go fault clears =
    let marked = lookup-adjust_self due.batch_id mark_success row s.db.counter_batch found in
    let found_due : claims_row kind now (lookup due.batch_id s.db.counter_batch) ≡ true =
      rw found claims in
    rw (go, fault, clears)
      (rw (found_due, apply_batch)
        (
          refl,
          marked,
          clear_script-processing_batch due.batch_id s.redis,
          rw marked (mark_success-claims_row kind now row),
        ))
