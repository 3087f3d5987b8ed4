-- ===== src/Counter/Flush.antt =====
-- post_like_counter.go, the flush side: dirty notices, the schedule, the claim of a post's pending
-- delta and the insertion of its batch into `counter_batch`.
use comment_project.Common.{ℕ, ◌+◌, not, Option, none, some, List, [], ◌∷◌, leb, if◌then◌else◌}
use comment_project.Common.Int.{ℤ, is_zero, is_positive}
use comment_project.Common.Dict.{text_eq, lookup, insert, erase, text_beq}
pub use comment_project.Common.Outcome.{Outcome, answers, fails, unheard}
use comment_project.Common.Table.{add}
use comment_project.Common.Text.{Text, codes, parse_int}
use comment_project.Counter.State.{
  Kind, post_like, post_comment, Redis, Db, Store, BatchRow, pending, quiet_period, max_delay,
  processing_retry_delay, next_flush_millis, clear_dirty,
}
use comment_project.Counter.Scripts.{Reply, integer, bulk, claim_script, since_or}

pub data Error : Type 0 where
  redis_error db_error invalid_post_id unsupported_event invalid_delta invalid_batch : Error

-- `schedulePostCounterFlush`, with the outcome of its two reads.
unfoldable pub schedule_flush : Outcome → Outcome → Text → Redis → Option Error × Redis
schedule_flush answers since post r = elim (lookup post r.dirty_at) [
  | none ↦ (
    none,
    record r {
      dirty = erase post r.dirty;
      dirty_since = erase post r.dirty_since;
      schedule = erase post r.schedule;
    },
  )
  | some dirty_at ↦ elim (lookup post r.dirty_since) [
    | none ↦ elim since [
      | answers ↦ (
        none,
        record r {
          dirty_since = insert post dirty_at r.dirty_since;
          schedule = insert post (next_flush_millis dirty_at dirty_at) r.schedule;
        },
      )
      | _ ↦ (some redis_error, r)
    ]
    | some dirty_since ↦ elim since [
      | answers ↦ (
        none,
        record r { schedule = insert post (next_flush_millis dirty_at dirty_since) r.schedule },
      )
      | _ ↦ (some redis_error, r)
    ]
  ]
]
schedule_flush _ since post r = (some redis_error, r)

-- A dirty notice, as `json.Unmarshal` decodes it.
pub record DirtyMessage : Type 0 where
  pub type : Text
  pub post_id : Text

-- What `handlePostLikeCountDirtyMessage` does with a decoded notice: the kind and the post that it
-- schedules, or an error.
pub data Notice : Type 0 where
  schedules : Kind → Text → Notice
  refused : Error → Notice

unfoldable pub notice : DirtyMessage → Notice
notice m = elim (parse_int m.post_id) [
  | none ↦ refused invalid_post_id
  | some id ↦
      if not (is_positive id)
      then refused invalid_post_id
      else if text_beq m.type (codes "post_like_count_dirty")
      then schedules post_like m.post_id
      else if text_beq m.type (codes "post_comment_count_dirty")
      then schedules post_comment m.post_id
      else refused unsupported_event
]

-- `scheduleDirtyPostCountersFromSet`, for the ids that `SRANDMEMBER` drew; every read answers.
unfoldable pub schedule_dirty : List Text → Redis → Redis
unfolding schedule_flush
schedule_dirty [] r = r
schedule_dirty (post ∷ posts) r = schedule_dirty posts (elim (parse_int post) [
  | none ↦ clear_dirty post r
  | some _ ↦ (schedule_flush answers answers post r).1
])

pub data Ready : Type 0 where
  ready : Ready
  later : ℕ → Ready

-- `recheckPostCounterReady`, where its reads answer.
unfoldable pub recheck_ready : Text → ℕ → Redis → Ready × Redis
recheck_ready post now r = elim (lookup post r.dirty_at) [
  | none ↦ (ready, record r { schedule = erase post r.schedule })
  | some dirty_at ↦
      let next = next_flush_millis dirty_at (since_or dirty_at (lookup post r.dirty_since)) in
      (if leb next now then ready else later next, r)
]

-- The second and third results of `claimPostCounterDelta`.
pub data Claim : Type 0 where
  not_ready empty : Claim
  claimed : ℤ → Claim
  claim_error : Error → Claim

-- `parseClaimPostCounterResult`
unfoldable pub parse_claim : Text → Claim
parse_claim t = if text_beq t (codes "__not_ready__") then not_ready else elim (parse_int t) [
  | none ↦ claim_error invalid_delta
  | some d ↦ if is_zero d then empty else claimed d
]

-- The type switch on the script's reply.
unfoldable pub read_claim : Reply → Claim
unfolding parse_claim
read_claim (integer d) = if is_zero d then empty else claimed d
read_claim (bulk t) = parse_claim t

unfoldable pub claim_delta : Outcome → Text → ℕ → Text → Redis → Claim × Redis
unfolding claim_script read_claim
claim_delta answers post now batch r =
    let (reply, r') = claim_script post quiet_period max_delay now batch r in (read_claim reply, r')
claim_delta fails post now batch r = (claim_error redis_error, r)
claim_delta unheard post now batch r =
    (claim_error redis_error, (claim_script post quiet_period max_delay now batch r).1)

-- The row that `counterBatchInsertSQL` inserts at the time `now`.
abbrev pub new_row : Kind → ℤ → ℤ → ℕ → BatchRow
new_row kind post_id d now = record {
  counter_type = kind;
  post_id = post_id;
  delta = d;
  status = pending;
  retry_count = 0;
  next_retry_at = now;
  last_error = [];
}

unfoldable pub insert_batch : Outcome → Kind → ℤ → ℤ → Text → ℕ → Db → Option Error × Db
insert_batch outcome kind post_id d batch now db =
    let inserted = record db {
      counter_batch = add batch (new_row kind post_id d now) db.counter_batch;
    } in
    if is_zero d then (none, db) else elim outcome [
      | answers ↦ (none, inserted)
      | fails ↦ (some db_error, db)
      | unheard ↦ (some db_error, inserted)
    ]

pub data Flushed : Type 0 where
  flushed postponed : Flushed
  flush_error : Error → Flushed

-- The end of `flushPostCounterByPostID`: a failed insertion reschedules the post.
unfoldable pub finish_flush : Text → ℕ → Option Error × Db → Redis → Flushed × Store
finish_flush post now (none, db) r = (flushed, record { redis = r; db = db })
finish_flush post now (some e, db) r = (
  flush_error e,
  record {
    redis = record r { schedule = insert post (now + processing_retry_delay) r.schedule };
    db = db;
  },
)

unfoldable pub book_claim :
    Outcome → Kind → Text → ℤ → Text → ℕ → Claim → Redis → Db → Flushed × Store
unfolding insert_batch finish_flush
book_claim o kind post id batch now not_ready r db = (postponed, record { redis = r; db = db })
book_claim o kind post id batch now empty r db = (postponed, record { redis = r; db = db })
book_claim o kind post id batch now (claimed d) r db =
    finish_flush post now (insert_batch o kind id d batch now db) r
book_claim o kind post id batch now (claim_error e) r db =
    (flush_error e, record { redis = r; db = db })

-- What follows the recheck.
unfoldable pub claim_and_book :
    Outcome → Outcome → Kind → Text → ℤ → Text → ℕ → Ready × Redis → Store → Flushed × Store
unfolding claim_delta book_claim
claim_and_book claim_outcome insert_outcome kind post id batch now (later next, r) s =
    (postponed, record s { redis = record r { schedule = insert post next r.schedule } })
claim_and_book claim_outcome insert_outcome kind post id batch now (ready, r) s =
    let (claim, r') = claim_delta claim_outcome post now batch r in
    book_claim insert_outcome kind post id batch now claim r' s.db

-- `flushPostCounterByPostID` at the time `now`, with the batch id that `newCounterBatchID` drew and
-- the outcomes of its script call and of its SQL statement.
unfoldable pub flush_post : Outcome → Outcome → Kind → Text → ℤ → Text → ℕ → Store → Flushed × Store
unfolding recheck_ready claim_and_book
flush_post claim_outcome insert_outcome kind post id batch now s =
    claim_and_book claim_outcome insert_outcome kind post id batch now
      (recheck_ready post now s.redis) s
