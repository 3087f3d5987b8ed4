-- ===== src/Outbox.antt =====
-- comment-service/internal/data/post_counter_dirty_outbox.go and post_like_dirty_kafka.go: the notices
-- of posts that became dirty wait in a table until they are written to Kafka.
pub mod Steps
pub mod Publish
pub mod Honest
pub mod Sending
pub mod Deliver
pub mod Tests
use comment_project.Common.{
  ℕ, ◌+◌, Bool, true, false, not, ◌&&◌, ◌||◌, ◌++◌, Option, none, some, List, [], ◌∷◌, leb, ltb,
  take, if◌then◌else◌,
}
use comment_project.Common.Int.{ℤ, is_positive}
use comment_project.Common.Dict.{Dict, nat_eq, lookup}
use comment_project.Common.Table.{add, adjust}
use comment_project.Common.Outcome.{Outcome, answers, fails, unheard}
use comment_project.Common.Text.{Text, codes, format_int}
use comment_project.Counter.Flush.{DirtyMessage}
use comment_project.Counter.Read.{Enqueued, notified}

pub data RowStatus : Type 0 where
  pending processing sent : RowStatus

-- A row of `counter_dirty_outbox`, its times in seconds.
pub record OutboxRow : Type 0 where
  pub event_type : Text
  pub post_id : ℤ
  pub status : RowStatus
  pub retry_count : ℕ
  pub next_retry_at : ℕ
  pub updated_at : ℕ
  pub last_error : Text

-- The table, in the order of its ids, and the messages in the topic of Kafka.
pub record Outbox : Type 0 where
  pub rows : Dict ℕ OutboxRow
  pub next_id : ℕ
  pub topic : List DirtyMessage

abbrev pub retry_delay : ℕ
retry_delay = 3

abbrev pub batch_size_default : ℕ
batch_size_default = 100

-- the seconds after which a row in processing is taken up again
abbrev pub stale_after : ℕ
stale_after = 60

abbrev pub new_outbox_row : Text → ℤ → ℕ → OutboxRow
new_outbox_row event_type post_id now = record {
  event_type = event_type;
  post_id = post_id;
  status = pending;
  retry_count = 0;
  next_retry_at = now;
  updated_at = now;
  last_error = [];
}

unfoldable pub insert_outbox : Text → ℤ → ℕ → Outbox → Outbox
insert_outbox event_type post_id now s = record s {
  rows = add s.next_id (new_outbox_row event_type post_id now) s.rows;
  next_id = s.next_id + 1;
}

-- How a statement ends: whether it answered, and what it leaves.
abbrev pub executed : Outcome → Outbox → Outbox → Bool × Outbox
executed answers before after = (true, after)
executed fails before after = (false, before)
executed unheard before after = (false, after)

-- `recordCounterDirtyOutbox`, if its table was made
unfoldable pub record_outbox : Bool → Outcome → Text → ℤ → ℕ → Outbox → Bool × Outbox
unfolding insert_outbox
record_outbox table_made o event_type post_id now s =
    if not (is_positive post_id)
    then (true, s)
    else if table_made
    then executed o s (insert_outbox event_type post_id now s)
    else (false, s)

abbrev pub is_stale : ℕ → OutboxRow → Bool
is_stale now row = ltb (row.updated_at + stale_after) now

-- whether the query takes up a row of the status
abbrev pub due_in : RowStatus → ℕ → OutboxRow → Bool
due_in pending now row = leb row.next_retry_at now
due_in processing now row = is_stale now row
due_in sent now row = false

-- whether the claim takes a row of the status
abbrev pub claimable_in : RowStatus → ℕ → OutboxRow → Bool
claimable_in pending now row = true
claimable_in processing now row = is_stale now row
claimable_in sent now row = false

unfoldable pub is_due : ℕ → OutboxRow → Bool
is_due now row = due_in row.status now row

unfoldable pub can_claim : ℕ → OutboxRow → Bool
can_claim now row = claimable_in row.status now row

abbrev pub as_processing : ℕ → OutboxRow → OutboxRow
as_processing now row = record row { status = processing; updated_at = now }

abbrev pub as_pending : ℕ → Text → OutboxRow → OutboxRow
as_pending now message row = record row {
  status = pending;
  retry_count = row.retry_count + 1;
  next_retry_at = now + retry_delay;
  last_error = take 512 message;
  updated_at = now;
}

abbrev pub as_sent : ℕ → OutboxRow → OutboxRow
as_sent now row = record row { status = sent; last_error = []; updated_at = now }

abbrev pub update_row : ℕ → (OutboxRow → OutboxRow) → Outbox → Outbox
update_row id f s = record s { rows = adjust id f s.rows }

abbrev pub claimable : ℕ → Option OutboxRow → Bool
claimable now none = false
claimable now (some row) = can_claim now row

pub data Claimed : Type 0 where
  claimed missed claim_error : Claimed

-- `claimCounterDirtyOutbox`
unfoldable pub claim_row : Outcome → ℕ → ℕ → Outbox → Claimed × Outbox
unfolding can_claim
claim_row o now id s =
    let taken =
      if claimable now (lookup id s.rows)
      then (claimed, update_row id (as_processing now) s)
      else (missed, s) in
    elim o [ answers ↦ taken | fails ↦ (claim_error, s) | unheard ↦ (claim_error, taken.1) ]

-- the message of an event of a post
abbrev pub message_of : Text → ℤ → DirtyMessage
message_of event_type post_id = record { type = event_type; post_id = format_int post_id }

-- `notify`, whose JSON cannot fail: it has two texts
unfoldable pub notify : Outcome → Text → ℤ → Outbox → Bool × Outbox
notify o event_type post_id s =
    executed o s (record s { topic = s.topic ++ message_of event_type post_id ∷ [] })

-- How the calls for one row end, the clock at each statement, and the text of the error.
pub record RowCalls : Type 0 where
  pub claim : Outcome
  pub notice : Outcome
  pub mark : Outcome
  pub now : ℕ
  pub message : Text

-- after a claim that took the row
unfoldable pub send_row : RowCalls → ℕ → OutboxRow → Outbox → Bool × Outbox
unfolding notify
send_row calls id row s =
    let told = notify calls.notice row.event_type row.post_id s in
    if told.0 then executed calls.mark told.1 (update_row id (as_sent calls.now) told.1) else (
      true,
      (executed calls.mark told.1 (update_row id (as_pending calls.now calls.message) told.1)).1,
    )

abbrev pub after_claim : RowCalls → ℕ → OutboxRow → Claimed × Outbox → Bool × Outbox
after_claim calls id row (claimed, s) = send_row calls id row s
after_claim calls id row (missed, s) = (true, s)
after_claim calls id row (claim_error, s) = (false, s)

-- one round of the loop; `false` ends the pass
unfoldable pub publish_row : RowCalls → ℕ → OutboxRow → Outbox → Bool × Outbox
unfolding claim_row send_row
publish_row calls id row s =
    if not (is_positive row.post_id)
    then (true, s)
    else after_claim calls id row (claim_row calls.claim calls.now id s)

unfoldable pub publish_rows : (ℕ → RowCalls) → Dict ℕ OutboxRow → Outbox → Bool × Outbox
unfolding publish_row
publish_rows calls [] s = (true, s)
publish_rows calls ((id, row) ∷ rows) s =
    let done = publish_row (calls id) id row s in
    let rest = publish_rows calls rows done.1 in if done.0 then rest else (false, done.1)

abbrev pub due_rows : ℕ → Dict ℕ OutboxRow → Dict ℕ OutboxRow
due_rows now [] = []
due_rows now ((id, row) ∷ rows) =
    let rest = due_rows now rows in if is_due now row then (id, row) ∷ rest else rest

-- `publishCounterDirtyOutbox`, if its table was made and the query answers; ids start at one
unfoldable pub publish_outbox : Bool → Bool → ℕ → ℕ → (ℕ → RowCalls) → Outbox → Bool × Outbox
unfolding publish_rows is_due
publish_outbox table_made selected batch_size now calls s =
    if table_made && selected
    then publish_rows calls
        (take (if ltb 0 batch_size then batch_size else batch_size_default) (due_rows now s.rows)) s
    else (false, s)

-- What `recordPostLikeDelta` and `recordPostCommentCountDelta` do after the enqueue; an error of the
-- outbox is only logged.
unfoldable pub after_enqueue : Bool → Outcome → Text → ℤ → ℕ → Enqueued → Outbox → Outbox
unfolding record_outbox
after_enqueue table_made o event_type post_id now notified s =
    (record_outbox table_made o event_type post_id now s).1
after_enqueue table_made o event_type post_id now _ s = s
