-- ===== src/EsSync/Passes.antt =====
-- es_sync.go: a pass of the retry worker.
use comment_project.Common.{
  ℕ, ◌+◌, ◌*◌, Bool, true, false, ◌||◌, none, some, [], ◌∷◌, leb, take, if◌then◌else◌,
}
use comment_project.Common.Int.{is_zero}
use comment_project.Common.Dict.{Dict}
use comment_project.Common.Outcome.{Outcome}
use comment_project.Common.Trim.{is_empty}
use comment_project.EsSync.{Version}
use comment_project.EsSync.Index.{
  Elastic, Event, Calls, Processed, synced, row_error, RowError, process_row,
}
use comment_project.EsSync.Retry.{
  Payload, Codec, Cause, of_row, of_payload, RetryRow, DlqRow, Tables, retry_backoff_base,
  retry_max_attempts, retry_batch_size, executed, insert_dlq, update_retry, delete_retry,
}
use comment_project.EsSync.Handlers.{Sync}

-- How the calls for one row end: those of its processing, the statement after it, and the clock.
pub record RetryCalls : Type 0 where
  pub row : Calls
  pub statement : Outcome
  pub clock : ℕ

abbrev pub dlq_row : RetryRow → Cause → DlqRow
dlq_row row cause = record {
  table_name = row.table_name;
  event_type = row.event_type;
  target = row.target;
  version = row.version;
  payload = row.payload;
  last_error = cause;
}

-- `moveESSyncRetryToDLQ`: one transaction
unfoldable pub move_to_dlq : Outcome → ℕ → RetryRow → Cause → Tables → Bool × Tables
unfolding insert_dlq delete_retry
move_to_dlq o id row cause s = executed o s (delete_retry id (insert_dlq (dlq_row row cause) s))

-- the version of the row, or that of its payload
abbrev pub retry_version : RetryRow → Payload → Version
retry_version row p =
    if is_empty row.version.file || is_zero row.version.position
    then p.event.version
    else row.version

abbrev pub retry_event : RetryRow → Payload → Event
retry_event row p = record {
  table = row.table_name;
  event_type = row.event_type;
  row = p.event.row;
  version = retry_version row p;
}

-- after an attempt that failed
unfoldable pub after_failure : RetryCalls → ℕ → RetryRow → RowError → Tables → Bool × Tables
unfolding move_to_dlq update_retry
after_failure calls id row error s =
    if leb retry_max_attempts (row.retry_count + 1)
    then move_to_dlq calls.statement id row (of_row error) s
    else executed calls.statement s (
        update_retry id (row.retry_count + 1)
          (calls.clock + retry_backoff_base * (row.retry_count + 2)) (of_row error) s)

-- the rows of the query that are due
abbrev pub due : ℕ → Dict ℕ RetryRow → Dict ℕ RetryRow
due now [] = []
due now ((id, row) ∷ rows) =
    let rest = due now rows in if leb row.next_retry_at now then (id, row) ∷ rest else rest

module _ (e : Elastic) (codec : Codec) where
  unfoldable pub after_attempt :
      RetryCalls → ℕ → RetryRow → Processed × e.State → Tables → Bool × Sync e
  unfolding after_failure delete_retry
  after_attempt calls id row (synced, docs) s =
      let done = executed calls.statement s (delete_retry id s) in
      (done.0, record { docs = docs; tables = done.1 })
  after_attempt calls id row (row_error error, docs) s =
      let done = after_failure calls id row error s in
      (done.0, record { docs = docs; tables = done.1 })

  -- `processESSyncRetryRow`
  unfoldable pub process_retry_row : RetryCalls → ℕ → RetryRow → Sync e → Bool × Sync e
  unfolding after_attempt move_to_dlq
  process_retry_row calls id row s = elim (codec.unmarshal row.payload) [
    | none ↦
        let moved = move_to_dlq calls.statement id row of_payload s.tables in
        (moved.0, record s { tables = moved.1 })
    | some p ↦
        after_attempt calls id row (process_row e calls.row (retry_event row p) s.docs) s.tables
  ]

  -- The loop of `processESSyncRetries`: it stops at the first statement that fails.
  unfoldable pub process_rows : (ℕ → RetryCalls) → Dict ℕ RetryRow → Sync e → Bool × Sync e
  unfolding process_retry_row
  process_rows calls [] s = (true, s)
  process_rows calls ((id, row) ∷ rows) s =
      let done = process_retry_row (calls id) id row s in
      let rest = process_rows calls rows done.1 in if done.0 then rest else (false, done.1)

  -- `processESSyncRetries`, if the tables were made and the rows are selected
  unfoldable pub process_retries : Bool → Bool → ℕ → (ℕ → RetryCalls) → Sync e → Bool × Sync e
  unfolding process_rows
  process_retries tables_made selected now calls s =
      if tables_made
      then if selected
        then process_rows calls (take retry_batch_size (due now s.tables.es_sync_retry)) s
        else (false, s)
      else (false, s)
