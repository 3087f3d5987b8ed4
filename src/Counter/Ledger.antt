-- ===== src/Counter/Ledger.antt =====
-- What became of every delta of a post: it is pending in Redis, in an open batch, or in `post_counter`.
-- The steps are the atomic ones, a script or a statement each, in any order; a batch that is booked is
-- not marked as failed.
pub mod Content
pub mod Steps
pub mod Bookings
pub mod Upkeep
pub mod Invariant
pub mod Rows
use comment_project.Common.{
  ℕ, ◌≡◌, ◌≢◌, ◌⊎◌, Bool, true, false, ◌&&◌, Option, none, some, List, [], ◌∷◌, if◌then◌else◌,
}
use comment_project.Common.Int.{ℤ, pos, ◌+ℤ◌, ◌-ℤ◌, int_beq, int_eq, is_zero, at_least_zero}
use comment_project.Common.Dict.{Dict, text_eq, text_beq, lookup, Distinct}
use comment_project.Common.Table.{add}
use comment_project.Common.Sum.{sum_by}
use comment_project.Common.Text.{Text, decimal, format_int, cut}
use comment_project.Counter.State.{
  Kind, is_kind, Redis, Db, Store, BatchRow, Status, success, Counts, column, or_zero, quiet_period,
  max_delay,
}
use comment_project.Counter.Scripts.{enqueue_script, claim_script, clear_script, batch_value}
use comment_project.Counter.Flush.{new_row, Outcome}
use comment_project.Counter.Stored.{count_of}
use comment_project.Counter.Batches.{typed_row, claims_row, booked, mark_failed}

-- The post and the delta that a value of `processing_batch` stands for.
unfoldable pub content : Text → Option (Text × ℤ)
content raw = elim (cut b':' raw) [
  | none ↦ none
  | some (post, delta_text) ↦ elim (decimal delta_text) [ none ↦ none | some d ↦ some (post, d) ]
]

abbrev pub share_of : Text → Option (Text × ℤ) → ℤ
share_of post none = pos 0
share_of post (some (q, d)) = if text_beq q post then d else pos 0

abbrev pub is_success : Option BatchRow → Bool
is_success none = false
is_success (some row) = elim row.status [ success ↦ true | _ ↦ false ]

unfoldable pub value_share : Text → Text → Text → ℤ
value_share post batch raw = share_of post (content raw)

-- The share of an entry of `processing_batch` that MySQL has not booked.
unfoldable pub open_share : Kind → Text → Dict Text BatchRow → Text → Text → ℤ
unfolding typed_row value_share
open_share kind post rows batch raw =
    if is_success (typed_row kind (lookup batch rows)) then pos 0 else value_share post batch raw

unfoldable pub open_sum : Kind → ℤ → Store → ℤ
open_sum kind p s =
    sum_by (open_share kind (format_int p) s.db.counter_batch) s.redis.processing_batch

-- What is pending in Redis, what is in an open batch, and what `post_counter` holds.
unfoldable pub account : Kind → ℤ → Store → ℤ
unfolding open_sum
account kind p s =
    or_zero (lookup (format_int p) s.redis.delta)
    +ℤ open_sum kind p s
    +ℤ count_of kind p s.db.post_counter

-- What `GREATEST(c + ?, 0)` makes of a count more than the sum would be.
abbrev pub excess : ℤ → ℤ → ℤ
excess n d = at_least_zero (n +ℤ d) -ℤ (n +ℤ d)

-- An entry of `processing_batch` for the post and the delta.
pub record Holds (r : Redis) (batch : Text) (p d : ℤ) : Type 0 where
  pub raw : Text
  pub found : lookup batch r.processing_batch ≡ some raw
  pub reads : content raw ≡ some (format_int p, d)

-- A value of `processing_batch` as the claim script writes it.
pub record Written (raw : Text) : Type 0 where
  pub post : ℤ
  pub delta : ℤ
  pub text : raw ≡ batch_value (format_int post) delta

pub record Inv (kind : Kind) (s : Store) : Type 0 where
  pub batches_distinct : Distinct s.redis.processing_batch
  pub rows_distinct : Distinct s.db.counter_batch
  -- an unfinished row has an entry with its post and delta
  pub unfinished :
      (batch : Text) (row : BatchRow)
      → lookup batch s.db.counter_batch ≡ some row
      → is_kind row.counter_type kind ≡ true
      → is_success (some row) ≡ false
      → Holds s.redis batch row.post_id row.delta
  pub written : (batch raw : Text) → lookup batch s.redis.processing_batch ≡ some raw → Written raw
  -- `processing_sum` adds up the entries
  pub summed :
      (post : Text)
      → or_zero (lookup post s.redis.processing_sum)
        ≡ sum_by (value_share post) s.redis.processing_batch

pub data Step (kind : Kind) (s : Store) : Store → Type 0 where
  enqueue :
      (p d : ℤ) (now : ℕ)
      → Step kind s (record s { redis = (enqueue_script (format_int p) d now s.redis).1 })
  claim :
      (p : ℤ) (now : ℕ) (batch : Text)
      → lookup batch s.redis.processing_batch ≡ none
      → lookup batch s.db.counter_batch ≡ none
      → Step kind s (record s {
        redis = (claim_script (format_int p) quiet_period max_delay now batch s.redis).1;
      })
  insert :
      (p d : ℤ) (batch : Text) (now : ℕ)
      → (Holds s.redis batch p d) ⊎ (lookup batch s.db.counter_batch ≢ none)
      → Step kind s (record s {
        db = record (s.db) { counter_batch = add batch (new_row kind p d now) s.db.counter_batch };
      })
  apply :
      (batch : Text) (row : BatchRow) (now : ℕ)
      → lookup batch s.db.counter_batch ≡ some row
      → claims_row kind now (some row) ≡ true
      → Step kind s (record s { db = booked kind batch row.post_id row.delta s.db })
  mark :
      (o : Outcome) (batch cause : Text) (now : ℕ)
      → is_success (lookup batch s.db.counter_batch) ≡ false
      → Step kind s (record s { db = mark_failed o batch cause now s.db })
  clear :
      (batch : Text)
      → is_success (typed_row kind (lookup batch s.db.counter_batch)) ≡ true
      → Step kind s (record s { redis = (clear_script batch s.redis).1 })
  -- a change of the dirty marks, of the schedule or of the set of batch ids
  upkeep :
      (r : Redis)
      → r.delta ≡ s.redis.delta
      → r.processing_batch ≡ s.redis.processing_batch
      → r.processing_sum ≡ s.redis.processing_sum
      → Step kind s (record s { redis = r })

-- What a step adds to the deltas of a post.
unfoldable pub added : {kind : Kind} {s t : Store} → Step kind s t → ℤ → ℤ
added (enqueue p d now) q = if int_beq p q then d else pos 0
added _ q = pos 0

-- What a step adds to the count of a post beyond its delta, as a count is never booked below zero.
unfoldable pub clamped : {kind : Kind} {s t : Store} → Step kind s t → ℤ → ℤ
clamped {kind} {s} (apply batch row now f c) q =
    if int_beq row.post_id q then excess (count_of kind q s.db.post_counter) row.delta else pos 0
clamped _ q = pos 0
