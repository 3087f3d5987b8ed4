-- ===== src/EsSync/Retry.antt =====
-- es_sync.go: the tables of rows to retry and of dead letters, and how an event is saved in them. The
-- rows of a table stand in the order of their ids.
use comment_project.Common.{
  ℕ, ◌+◌, Bool, true, false, not, ◌&&◌, ◌++◌, Option, none, some, List, [], ◌∷◌, if◌then◌else◌,
}
use comment_project.Common.Dict.{Dict, nat_eq, erase}
use comment_project.Common.Table.{add, adjust}
use comment_project.Common.Outcome.{Outcome, answers, fails, unheard}
use comment_project.Common.Text.{Text, codes}
use comment_project.EsSync.{Version}
use comment_project.EsSync.Row.{Row, string, Target, target_of}
use comment_project.EsSync.Index.{Event, RowError}
use comment_project.EsSync.Messages.{KafkaMessage, kafka_position}

-- `esSyncRetryPayload`
pub record Payload : Type 0 where
  pub event : Event
  pub target : Target
  pub received_at : Text

-- What encoding/json and encoding/base64 write and read.
pub record Codec : Type 0 where
  pub marshal : Payload → Option Text
  pub unmarshal : Text → Option Payload
  pub marshal_row : Row → Text
  pub base64 : Text → Text

pub data Cause : Type 0 where
  of_row : RowError → Cause
  of_payload of_message : Cause

-- `esSyncRetryRow`, with the time of the next attempt
pub record RetryRow : Type 0 where
  pub table_name : Text
  pub event_type : Text
  pub target : Target
  pub version : Version
  pub payload : Text
  pub retry_count : ℕ
  pub next_retry_at : ℕ
  pub last_error : Cause

pub record DlqRow : Type 0 where
  pub table_name : Text
  pub event_type : Text
  pub target : Target
  pub version : Version
  pub payload : Text
  pub last_error : Cause

pub record Tables : Type 0 where
  pub es_sync_retry : Dict ℕ RetryRow
  pub next_id : ℕ
  pub es_sync_dlq : List DlqRow

-- How the statements of a failed event end: whether there is a database, whether its tables were made,
-- how the insert ends, the clock in seconds, and the text of the present time.
pub record SaveCalls : Type 0 where
  pub db_ready : Bool
  pub tables_made : Bool
  pub insert : Outcome
  pub clock : ℕ
  pub now : Text

abbrev pub retry_backoff_base : ℕ
retry_backoff_base = 5

abbrev pub retry_max_attempts : ℕ
retry_max_attempts = 3

abbrev pub retry_batch_size : ℕ
retry_batch_size = 50

abbrev pub no_target : Target
no_target = record { index = []; doc_id = [] }

-- a statement that changes the tables; whether it answered, and the tables after it
abbrev pub executed : Outcome → Tables → Tables → Bool × Tables
executed answers before after = (true, after)
executed fails before after = (false, before)
executed unheard before after = (false, after)

unfoldable pub insert_retry : RetryRow → Tables → Tables
insert_retry row s = record s {
  es_sync_retry = add s.next_id row s.es_sync_retry;
  next_id = s.next_id + 1;
}

unfoldable pub insert_dlq : DlqRow → Tables → Tables
insert_dlq row s = record s { es_sync_dlq = s.es_sync_dlq ++ row ∷ [] }

abbrev pub with_count : ℕ → ℕ → Cause → RetryRow → RetryRow
with_count count due cause row = record row {
  retry_count = count;
  next_retry_at = due;
  last_error = cause;
}

unfoldable pub update_retry : ℕ → ℕ → ℕ → Cause → Tables → Tables
update_retry id count due cause s = record s {
  es_sync_retry = adjust id (with_count count due cause) s.es_sync_retry;
}

unfoldable pub delete_retry : ℕ → Tables → Tables
delete_retry id s = record s { es_sync_retry = erase id s.es_sync_retry }

module _ (codec : Codec) where
  abbrev pub payload_of : Event → Target → Text → Payload
  payload_of event t now = record { event = event; target = t; received_at = now }

  abbrev pub retry_row : Event → Target → Text → ℕ → Cause → RetryRow
  retry_row event t payload clock cause = record {
    table_name = event.table;
    event_type = event.event_type;
    target = t;
    version = event.version;
    payload = payload;
    retry_count = 0;
    next_retry_at = clock + retry_backoff_base;
    last_error = cause;
  }

  abbrev pub dlq_of_event : Event → Cause → DlqRow
  dlq_of_event event cause = record {
    table_name = event.table;
    event_type = event.event_type;
    target = no_target;
    version = event.version;
    payload = codec.marshal_row event.row;
    last_error = cause;
  }

  -- `savePoisonPayloadToDLQ`, of an event without a target
  unfoldable pub save_poison : SaveCalls → Event → Cause → Tables → Bool × Tables
  unfolding insert_dlq
  save_poison calls event cause s =
      if calls.tables_made
      then executed calls.insert s (insert_dlq (dlq_of_event event cause) s)
      else (false, s)

  -- `saveESSyncRetry`
  unfoldable pub save_retry : SaveCalls → Event → Cause → Tables → Bool × Tables
  unfolding insert_retry save_poison target_of
  save_retry calls event cause s =
      if not (calls.db_ready && calls.tables_made)
      then (false, s)
      else elim (target_of event.table event.row) [
        | none ↦ save_poison calls event cause s
        | some t ↦ elim (codec.marshal (payload_of event t calls.now)) [
          | none ↦ (false, s)
          | some payload ↦
              executed calls.insert s (insert_retry (retry_row event t payload calls.clock cause) s)
        ]
      ]

  -- `savePoisonESSyncMessage`
  unfoldable pub save_message : SaveCalls → KafkaMessage → Tables → Bool × Tables
  unfolding save_poison kafka_position
  save_message calls m s =
      if calls.db_ready
      then save_poison calls
          (record {
            table = codes "unknown";
            event_type = codes "POISON";
            row = (codes "raw_base64", string (codec.base64 m.value)) ∷ [];
            version = kafka_position m;
          })
          of_message s
      else (true, s)
