-- ===== src/Counter/Reconcile.antt =====
-- `reconcilePostCounters`: the count of the facts overwrites a counter that nothing is under way for.
use comment_project.Common.{
  ℕ, ◌+◌, Bool, true, false, ◌&&◌, Option, none, some, List, [], ◌∷◌, ◌++◌, ltb, if◌then◌else◌,
}
use comment_project.Common.Int.{ℤ, pos, ◌-ℤ◌, int_beq, int_eq, is_zero}
use comment_project.Common.Dict.{Dict, text_eq, lookup, insert}
use comment_project.Common.Text.{Text, format_int}
use comment_project.Counter.State.{
  Kind, is_kind, Db, Store, BatchRow, success, Counts, zero_counts, column, set_column, or_zero,
  LogRow, LogStatus, fixed, skipped,
}
use comment_project.Counter.Flush.{Outcome, answers, fails, unheard, Error, db_error}
use comment_project.Counter.Read.{stored_counts}

abbrev is_unfinished : Kind → ℤ → BatchRow → Bool
is_unfinished kind post row =
    int_beq row.post_id post
    && (is_kind row.counter_type kind && elim row.status [ success ↦ false | _ ↦ true ])

-- The number of batches of the post with status pending, failed or processing.
unfoldable pub unfinished_count : Kind → ℤ → Dict Text BatchRow → ℕ
unfinished_count kind post [] = 0
unfinished_count kind post ((batch, row) ∷ rows) =
    (if is_unfinished kind post row then 1 else 0) + unfinished_count kind post rows

pub data Verdict : Type 0 where
  can_reconcile has_pending_delta has_processing_sum has_unfinished_batch : Verdict

-- `canReconcilePostCounter`, where its reads answer.
unfoldable pub verdict : Kind → ℤ → Store → Verdict
unfolding unfinished_count
verdict kind post s =
    if is_zero (or_zero (lookup (format_int post) s.redis.delta))
    then (if is_zero (or_zero (lookup (format_int post) s.redis.processing_sum))
        then (if ltb 0 (unfinished_count kind post s.db.counter_batch)
            then has_unfinished_batch
            else can_reconcile)
        else has_processing_sum)
    else has_pending_delta

abbrev log_row : Kind → ℤ → ℤ → ℤ → LogStatus → LogRow
log_row kind post old fact status = record {
  post_id = post;
  counter_type = kind;
  old_count = old;
  fact_count = fact;
  diff = fact -ℤ old;
  status = status;
}

-- `recordCounterReconcileLog`
unfoldable pub record_log : LogRow → Db → Db
record_log row db = record db { counter_reconcile_log = db.counter_reconcile_log ++ row ∷ [] }

-- `INSERT INTO post_counter … ON DUPLICATE KEY UPDATE c = ?`
unfoldable pub overwrite : Kind → ℤ → ℤ → Dict ℤ Counts → Dict ℤ Counts
overwrite kind post fact counters = elim (lookup post counters) [
  | none ↦ insert post (set_column kind fact zero_counts) counters
  | some c ↦ insert post (set_column kind fact c) counters
]

pub data Reconciled : Type 0 where
  unchanged changed : Reconciled
  reconcile_error : Error → Reconciled

-- `reconcileSinglePostCounter`, for the count of the facts and the outcome of its write.
unfoldable pub reconcile_single : Outcome → Kind → ℤ → ℤ → Db → Reconciled × Db
unfolding stored_counts overwrite record_log
reconcile_single outcome kind post fact db =
    let old = column kind (stored_counts (lookup post db.post_counter)) in
    let written = record db { post_counter = overwrite kind post fact db.post_counter } in
    if int_beq old fact then (unchanged, db) else elim outcome [
      | answers ↦ (changed, record_log (log_row kind post old fact fixed) written)
      | fails ↦ (reconcile_error db_error, db)
      | unheard ↦ (reconcile_error db_error, written)
    ]

-- One round of the loop of `reconcilePostCounters`.
unfoldable pub reconcile_post : Outcome → Kind → ℤ → ℤ → Store → Reconciled × Store
unfolding verdict reconcile_single record_log
reconcile_post outcome kind post fact s = elim (verdict kind post s) [
  | can_reconcile ↦
      let (result, db) = reconcile_single outcome kind post fact s.db in
      (result, record s { db = db })
  | _ ↦ (unchanged, record s { db = record_log (log_row kind post (pos 0) (pos 0) skipped) s.db })
]

-- The loop over a page of post ids, with the facts' count of each; the first error ends it. The
-- result counts the fixed posts.
unfoldable pub reconcile_posts :
    Kind → (ℤ → ℤ) → List (ℤ × Outcome) → ℕ → Store → Option Error × ℕ × Store
unfolding reconcile_post
reconcile_posts kind facts [] n s = (none, n, s)
reconcile_posts kind facts ((post, outcome) ∷ posts) n s =
    let (result, s') = reconcile_post outcome kind post (facts post) s in
    elim result [
      | reconcile_error e ↦ (some e, n, s')
      | changed ↦ reconcile_posts kind facts posts (n + 1) s'
      | unchanged ↦ reconcile_posts kind facts posts n s'
    ]
