-- ===== src/Counter/Tests.antt =====
-- Runs of the counters at concrete inputs.
use comment_project.Common.{
  subst, inr, Bool-cases, ◌+◌, ◌≡◌, ◌≢◌, arith, refl, inl, true, false, none, some, [], ◌∷◌,
}
use comment_project.Common.Int.{ℤ, pos, negsuc, ◌+ℤ◌, at_least_zero, int_eq}
use comment_project.Common.Dict.{text_eq, lookup, insert, erase, text_beq, text_beq_iff, Dict}
use comment_project.Common.Text.{parse_int, magnitude, Text, codes, format_int, in_int64}
use comment_project.Common.Trim.{is_blank}
use comment_project.Common.Outcome.{answers, unheard}
use comment_project.Counter.State.{
  Kind, post_like, Db, Store, BatchRow, quiet_period, max_delay, batch_retry_delay, hincrby, Counts,
}
use comment_project.Counter.Scripts.{enqueue_script, not_ready_until, batch_value}
use comment_project.Counter.Flush.{
  flush_post, empty, claim_delta, new_row, flushed, schedule_dirty, invalid_batch,
}
use comment_project.Counter.Batches.{
  no_fault, commit, claim_fails, DueRow, apply_due, book_delta, claims_row, mark_success,
  recover_batch, recover_batches,
}
use comment_project.Counter.Ledger.{Inv, enqueue, account}
use comment_project.Counter.Conservation.{
  Run, here, next, total, run-account, step-Inv, fresh, fresh-Inv, total_clamped, run-Inv,
  IsSettled, unbooked_account,
}
use comment_project.Counter.Handlers.{flush_post-Run}
use comment_project.Counter.Recovery.{
  run_trans, recover_batch-Run, apply_due-Run, booked_twice, Scanned,
}
use comment_project.Counter.Reconcile.{verdict, can_reconcile, reconcile_single, unchanged}
use comment_project.Counter.Read.{counter_delta}
use comment_project.Counter.Stored.{count_of, book_delta-count_of}
use comment_project.Counter.Counts.{reconcile_single-count_of, reconciled}
use comment_project.Counter.Stuck.{zero_claim-recover_batches}
use comment_project.Counter.Marks.{
  is_some, enqueue-IsMarked, IsMarked, IsNumbered, schedule_dirty-IsMarked,
}
use comment_project.Counter.Delivery.{IsDue, flush_post-new_row, apply_due-books}

abbrev no_rows : Db
no_rows = record { counter_batch = []; post_counter = []; counter_reconcile_log = [] }

abbrev post : Text
post = format_int (pos 7)

abbrev batch : Text
batch = codes "b1"

-- a post that was liked twice at 1000
abbrev liked : Store
liked = record (fresh no_rows) {
  redis = (enqueue_script post (pos 2) 1000 (fresh no_rows).redis).1;
}

abbrev liked_run : Run post_like (fresh no_rows) liked
liked_run = next here (enqueue (pos 7) (pos 2) 1000)

-- the same, flushed at 100000
abbrev flushed_store : Store
flushed_store = (flush_post answers answers post_like post (pos 7) batch 100000 liked).1

no_open_batch : lookup batch liked.redis.processing_batch ≡ none
unfolding enqueue_script lookup
no_open_batch = refl

no_batch_row : lookup batch liked.db.counter_batch ≡ none
unfolding lookup
no_batch_row = refl

flush_post-Run_example : Run post_like liked flushed_store
flush_post-Run_example =
    flush_post-Run answers answers liked (pos 7) batch 100000 no_open_batch no_batch_row

abbrev flushed_run : Run post_like (fresh no_rows) flushed_store
flushed_run =
    run_trans liked_run
      (flush_post-Run answers answers liked (pos 7) batch 100000 no_open_batch no_batch_row)

run-account_example :
    account post_like (pos 7) flushed_store
    ≡ account post_like (pos 7) (fresh no_rows)
      +ℤ total flushed_run (pos 7)
      +ℤ total_clamped flushed_run (pos 7)
run-account_example = run-account flushed_run (pos 7) (fresh-Inv post_like no_rows)

step-Inv_example : Inv post_like liked
step-Inv_example = step-Inv (enqueue (pos 7) (pos 2) 1000) (fresh-Inv post_like no_rows)

flushed-Inv : Inv post_like flushed_store
flushed-Inv = run-Inv flushed_run (fresh-Inv post_like no_rows)

recover_batch-Run_example :
    Run post_like flushed_store
      (recover_batch answers unheard post_like batch 200000 flushed_store).1
recover_batch-Run_example = recover_batch-Run answers unheard flushed_store batch 200000 flushed-Inv

liked-Inv : Inv post_like liked
liked-Inv = step-Inv (enqueue (pos 7) (pos 2) 1000) (fresh-Inv post_like no_rows)

liked-IsSettled : IsSettled post_like liked
unfolding enqueue_script lookup
liked-IsSettled b h = refl

unbooked_account_example :
    counter_delta (pos 7) liked.redis +ℤ count_of post_like (pos 7) liked.db.post_counter
    ≡ account post_like (pos 7) liked
unbooked_account_example = unbooked_account post_like liked (pos 7) liked-Inv liked-IsSettled

no_delta : verdict post_like (pos 7) (fresh no_rows) ≡ can_reconcile
unfolding verdict lookup
no_delta = refl

fresh-IsSettled : IsSettled post_like (fresh no_rows)
unfolding lookup
fresh-IsSettled b h = refl

-- a row of the table that is due at 5000
abbrev due_row : BatchRow
due_row = new_row post_like (pos 7) (pos 2) 1000

abbrev with_row : Store
with_row = record liked { db = record no_rows { counter_batch = (batch, due_row) ∷ [] } }

abbrev scanned_row : DueRow
scanned_row = record {
  batch_id = batch;
  post_id = pos 7;
  delta = pos 2;
  fault = no_fault;
  mark_outcome = answers;
  clear_outcome = answers;
  cause = [];
}

scanned : Scanned post_like scanned_row with_row
unfolding lookup text_beq
scanned = record {
  row = due_row;
  found = refl;
  typed = refl;
  same_post = refl;
  same_delta = refl;
  unfinished = refl;
}

heard : no_fault ≢ commit unheard
heard h = cc h

apply_due-Run_example : Run post_like with_row (apply_due post_like 5000 scanned_row with_row)
apply_due-Run_example = apply_due-Run scanned_row with_row 5000 scanned heard

abbrev booked_row : BatchRow
booked_row = mark_success due_row

abbrev with_booked : Store
with_booked = record liked { db = record no_rows { counter_batch = (batch, booked_row) ∷ [] } }

found_booked : lookup batch with_booked.db.counter_batch ≡ some booked_row
unfolding lookup text_beq
found_booked = refl

booked_twice_example :
    (apply_due post_like
      (5000 + batch_retry_delay)
      (record scanned_row { fault = no_fault })
      (apply_due post_like 5000
        (record scanned_row { fault = claim_fails })
        with_booked)).db.post_counter
    ≡ book_delta post_like (pos 7) (pos 2) with_booked.db.post_counter
booked_twice_example =
    booked_twice post_like scanned_row 5000 with_booked booked_row found_booked refl refl refl

found_due : lookup batch with_row.db.counter_batch ≡ some due_row
unfolding lookup text_beq
found_due = refl

claims_due : claims_row post_like 5000 (some due_row) ≡ true
unfolding claims_row
claims_due = refl

apply_due-books_example :
    let t = apply_due post_like 5000 scanned_row with_row in
    (t.db.post_counter ≡ book_delta post_like (pos 7) (pos 2) with_row.db.post_counter)
    × (lookup batch t.db.counter_batch ≡ some (mark_success due_row))
    × (lookup batch t.redis.processing_batch ≡ none)
    × (claims_row post_like 5000 (lookup batch t.db.counter_batch) ≡ false)
apply_due-books_example =
    apply_due-books post_like due_row scanned_row 5000 with_row found_due claims_due refl refl refl

abbrev counted : Dict ℤ Counts
counted = (pos 7, record { like_count = pos 1; comment_count = pos 4 }) ∷ []

book_delta-count_of_example :
    (count_of post_like (pos 7) (book_delta post_like (pos 7) (negsuc 2) counted)
      ≡ at_least_zero (count_of post_like (pos 7) counted +ℤ negsuc 2))
    × ((other : Kind)
        → other ≢ post_like
        → count_of other (pos 7) (book_delta post_like (pos 7) (negsuc 2) counted)
          ≡ count_of other (pos 7) counted)
    × ((q : ℤ)
        → pos 7 ≢ q
        → lookup q (book_delta post_like (pos 7) (negsuc 2) counted) ≡ lookup q counted)
book_delta-count_of_example = book_delta-count_of post_like (pos 7) (negsuc 2) counted

abbrev counted_db : Db
counted_db = record no_rows { post_counter = counted }

reconcile_single-count_of_example :
    (count_of post_like (pos 7) (reconciled post_like (pos 7) (pos 3) counted_db).post_counter
      ≡ pos 3)
    × ((other : Kind)
        → other ≢ post_like
        → count_of other (pos 7) (reconciled post_like (pos 7) (pos 3) counted_db).post_counter
          ≡ count_of other (pos 7) counted_db.post_counter)
    × ((q : ℤ)
        → pos 7 ≢ q
        → lookup q (reconciled post_like (pos 7) (pos 3) counted_db).post_counter
          ≡ lookup q counted_db.post_counter)
    × (reconcile_single answers post_like
          (pos 7)
          (pos 3)
          (reconciled post_like (pos 7) (pos 3) counted_db)
        ≡ (unchanged, reconciled post_like (pos 7) (pos 3) counted_db))
reconcile_single-count_of_example = reconcile_single-count_of post_like (pos 7) (pos 3) counted_db

-- a like and an unlike that cancel out
abbrev cancelled_out : Store
cancelled_out = record liked { redis = (enqueue_script post (negsuc 1) 2000 liked.redis).1 }

zero_pending : lookup post cancelled_out.redis.delta ≡ some (pos 0)
unfolding enqueue_script hincrby lookup insert erase ◌+ℤ◌ text_beq format_int
zero_pending = refl

zero_ready : not_ready_until post quiet_period max_delay 100000 cancelled_out.redis ≡ none
unfolding not_ready_until enqueue_script lookup insert erase text_beq format_int
zero_ready = refl

named : is_blank batch ≡ false
unfolding is_blank
named = refl

zero_claim-recover_batches_example :
    let (claim, r) = claim_delta answers post 100000 batch cancelled_out.redis in
    (claim ≡ empty)
    × (recover_batches post_like 200000
          (batch ∷ codes "b2" ∷ [])
          (0, 0)
          (record cancelled_out { redis = r })
        ≡ (some invalid_batch, (0, 0), record cancelled_out { redis = r }))
zero_claim-recover_batches_example =
    zero_claim-recover_batches post_like (pos 7) 100000 200000 batch (codes "b2" ∷ []) (0, 0)
      cancelled_out zero_pending zero_ready named

liked-IsMarked : IsMarked liked.redis
unfolding lookup
liked-IsMarked = enqueue-IsMarked post (pos 2) 1000 (fresh no_rows).redis (λ p h. absurd (cc h))

liked-IsNumbered : IsNumbered liked.redis
unfolding enqueue_script lookup insert erase hincrby parse_int magnitude format_int
liked-IsNumbered p h = elim (Bool-cases (text_beq post p)) [
  | inl same ↦ subst (λ t. is_some (parse_int t) ≡ true) ((text_beq_iff post p).0 same) refl
  | inr other ↦ absurd (cc (rw other at h))
]

-- the post that was liked, an id that is no number, and a post without marks
schedule_dirty-IsMarked_example :
    IsMarked (schedule_dirty (post ∷ codes "x" ∷ codes "8" ∷ []) liked.redis)
schedule_dirty-IsMarked_example =
    schedule_dirty-IsMarked (post ∷ codes "x" ∷ codes "8" ∷ []) liked.redis liked-IsNumbered
      liked-IsMarked

liked-IsDue : IsDue post 100000 liked.redis
unfolding enqueue_script lookup insert erase text_beq format_int
liked-IsDue = record {
  dirty_at = 1000;
  dirty_since = 1000;
  at = refl;
  since = refl;
  over = inl (omega arith);
}

two_pending : lookup post liked.redis.delta ≡ some (pos 2)
unfolding enqueue_script hincrby lookup insert erase text_beq format_int ◌+ℤ◌
two_pending = refl

two_fits : in_int64 (pos 2) ≡ some (pos 2)
unfolding in_int64
two_fits = refl

flush_post-new_row_example :
    let (result, t) = flush_post answers answers post_like post (pos 7) batch 100000 liked in
    (result ≡ flushed)
    × (lookup batch t.db.counter_batch ≡ some (new_row post_like (pos 7) (pos 2) 100000))
    × (lookup batch t.redis.processing_batch ≡ some (batch_value post (pos 2)))
    × (lookup post t.redis.delta ≡ none)
flush_post-new_row_example =
    flush_post-new_row post_like (pos 7) (pos 2) batch 100000 liked liked-IsDue two_pending two_fits
      refl no_batch_row
