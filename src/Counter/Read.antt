-- ===== src/Counter/Read.antt =====
-- post_counter_delta.go, post_like_counter.go and post_comment_counter.go of the service: the
-- enqueue of a delta and the counts that a reader sees.
use comment_project.Common.{ℕ, Option, none, some, if◌then◌else◌}
use comment_project.Common.Int.{ℤ, ◌+ℤ◌, int_eq, is_zero, at_least_zero}
use comment_project.Common.Dict.{text_eq, lookup}
use comment_project.Common.Text.{format_int}
use comment_project.Counter.State.{
  Kind, post_like, post_comment, Redis, Counts, zero_counts, set_column, or_zero,
}
use comment_project.Counter.Scripts.{Reply, integer, bulk, enqueue_script}
use comment_project.Counter.Flush.{Outcome, answers, fails, unheard, Error, redis_error}

-- The outcome of `enqueuePostLikeCountDelta` and `enqueuePostCommentCountDelta`: nothing to add, a
-- delta added with or without a dirty notice in the outbox, or a failed script call.
pub data Enqueued : Type 0 where
  skipped added notified : Enqueued
  enqueue_error : Error → Enqueued

abbrev pub read_added : Reply → Enqueued
read_added (integer n) = if is_zero n then added else notified
read_added (bulk t) = added

unfoldable pub enqueue_delta : Outcome → ℤ → ℤ → ℕ → Redis → Enqueued × Redis
unfolding enqueue_script
enqueue_delta outcome post d now r =
    let (reply, r') = enqueue_script (format_int post) d now r in
    if is_zero d then (skipped, r) else elim outcome [
      | answers ↦ (read_added reply, r')
      | fails ↦ (enqueue_error redis_error, r)
      | unheard ↦ (enqueue_error redis_error, r')
    ]

-- `counterDelta`, where the pipeline answers.
unfoldable pub counter_delta : ℤ → Redis → ℤ
counter_delta post r =
    or_zero (lookup (format_int post) r.delta)
    +ℤ or_zero (lookup (format_int post) r.processing_sum)

-- `queryPostCounterByID`: a post without a row has zero counts.
unfoldable pub stored_counts : Option Counts → Counts
stored_counts none = zero_counts
stored_counts (some c) = c

-- `applyPendingPostLikeCountDelta` and `applyPendingPostCommentCountDelta`: the stored count and the
-- delta that is not booked yet, never below zero. The first one leaves a post alone when its delta
-- is zero.
unfoldable pub apply_pending : Kind → ℤ → Redis → Counts → Counts
unfolding counter_delta
apply_pending post_like post r c =
    let d = counter_delta post r in
    if is_zero d then c else set_column post_like (at_least_zero (c.like_count +ℤ d)) c
apply_pending post_comment post r c =
    set_column post_comment (at_least_zero (c.comment_count +ℤ counter_delta post r)) c
