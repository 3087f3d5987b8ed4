-- ===== src/Counter/State.antt =====
-- The state that the counters live in: the Redis keys of one counter kind, and the MySQL tables
-- `counter_batch`, `post_counter` and `counter_reconcile_log`. Times are Unix milliseconds; the
-- integers of Redis hashes and SQL columns are unbounded.
use comment_project.Common.{
  ℕ, Bool, true, false, Option, none, some, List, [], ltb, if◌then◌else◌, ◌+◌,
}
use comment_project.Common.Int.{ℤ, pos, ◌+ℤ◌}
use comment_project.Common.Dict.{Dict, text_eq, lookup, insert, erase}
use comment_project.Common.Text.{Text}

-- `postLikeCounterKind` and `postCommentCounterKind`. Every kind has Redis keys of its own, so a
-- kind comes with one `Redis` record; in MySQL it has its `name` and its `dbColumn`.
pub data Kind : Type 0 where
  post_like post_comment : Kind

abbrev pub is_kind : Kind → Kind → Bool
is_kind post_like post_like = true
is_kind post_comment post_comment = true
is_kind _ _ = false

-- The eight keys of a kind.
pub record Redis : Type 0 where
  pub delta : Dict Text ℤ
  pub dirty : Dict Text (Unit {0})
  pub dirty_at : Dict Text ℕ
  pub dirty_since : Dict Text ℕ
  pub schedule : Dict Text ℕ
  pub processing_batch : Dict Text Text
  pub processing_sum : Dict Text ℤ
  pub processing_batches : Dict Text (Unit {0})

abbrev pub empty_redis : Redis
empty_redis = record {
  delta = [];
  dirty = [];
  dirty_at = [];
  dirty_since = [];
  schedule = [];
  processing_batch = [];
  processing_sum = [];
  processing_batches = [];
}

abbrev pub or_zero : Option ℤ → ℤ
or_zero none = pos 0
or_zero (some n) = n

-- `HINCRBY`: the field's new value, and the hash that has it.
unfoldable pub hincrby : Text → ℤ → Dict Text ℤ → ℤ × Dict Text ℤ
hincrby k d h = let n = or_zero (lookup k h) +ℤ d in (n, insert k n h)

-- `SREM` of the dirty set and `ZREM` of the three sorted sets.
unfoldable pub clear_dirty : Text → Redis → Redis
clear_dirty post r = record r {
  dirty = erase post r.dirty;
  dirty_at = erase post r.dirty_at;
  dirty_since = erase post r.dirty_since;
  schedule = erase post r.schedule;
}

pub data Status : Type 0 where
  pending processing success failed : Status

-- A row of `counter_batch`, without its id, its timestamps and its unique `batch_id`, which is the
-- key of the table.
pub record BatchRow : Type 0 where
  pub counter_type : Kind
  pub post_id : ℤ
  pub delta : ℤ
  pub status : Status
  pub retry_count : ℕ
  pub next_retry_at : ℕ
  pub last_error : Text

-- A row of `post_counter`, without its unique `post_id`.
pub record Counts : Type 0 where
  pub like_count : ℤ
  pub comment_count : ℤ

abbrev pub zero_counts : Counts
zero_counts = record { like_count = pos 0; comment_count = pos 0 }

-- The column `dbColumn` of a kind.
abbrev pub column : Kind → Counts → ℤ
column post_like c = c.like_count
column post_comment c = c.comment_count

abbrev pub set_column : Kind → ℤ → Counts → Counts
set_column post_like n c = record c { like_count = n }
set_column post_comment n c = record c { comment_count = n }

pub data LogStatus : Type 0 where
  fixed skipped : LogStatus

pub record LogRow : Type 0 where
  pub post_id : ℤ
  pub counter_type : Kind
  pub old_count : ℤ
  pub fact_count : ℤ
  pub diff : ℤ
  pub status : LogStatus

pub record Db : Type 0 where
  pub counter_batch : Dict Text BatchRow
  pub post_counter : Dict ℤ Counts
  pub counter_reconcile_log : List LogRow

pub record Store : Type 0 where
  pub redis : Redis
  pub db : Db

abbrev pub quiet_period : ℕ
quiet_period = 5000

abbrev pub max_delay : ℕ
max_delay = 60000

abbrev pub processing_retry_delay : ℕ
processing_retry_delay = 3000

abbrev pub batch_retry_delay : ℕ
batch_retry_delay = 30000

-- `nextPostCounterFlushMillis`
unfoldable pub next_flush_millis : ℕ → ℕ → ℕ
next_flush_millis dirty_at dirty_since =
    let quiet_flush = dirty_at + quiet_period in
    let max_flush = dirty_since + max_delay in
    if ltb max_flush quiet_flush then max_flush else quiet_flush
