-- ===== src/EsSync/Handlers.antt =====
-- es_sync.go: the handler of a message.
use comment_project.Common.{ℕ, ◌+◌, Bool, true, false, none, some, List, [], ◌∷◌, if◌then◌else◌}
use comment_project.EsSync.Index.{Elastic, Event, Calls, Processed, synced, row_error, process_row}
use comment_project.EsSync.Messages.{KafkaMessage, Decoders, parse_message}
use comment_project.EsSync.Retry.{Codec, of_row, Tables, SaveCalls, save_retry, save_message}

-- The index with the tables.
pub record Sync (e : Elastic) : Type 0 where
  pub docs : e.State
  pub tables : Tables

-- How the calls for one event end.
pub record EventCalls : Type 0 where
  pub row : Calls
  pub save : SaveCalls

module _ (e : Elastic) (codec : Codec) where
  -- what follows the processing of an event: an error is saved
  unfoldable pub after_row : SaveCalls → Event → Processed × e.State → Tables → Bool × Sync e
  unfolding save_retry
  after_row calls event (synced, docs) s = (true, record { docs = docs; tables = s })
  after_row calls event (row_error cause, docs) s =
      let saved = save_retry codec calls event (of_row cause) s in
      (saved.0, record { docs = docs; tables = saved.1 })

  unfoldable pub handle_event : EventCalls → Event → Sync e → Bool × Sync e
  unfolding process_row after_row
  handle_event calls event s =
      after_row calls.save event (process_row e calls.row event s.docs) s.tables

  -- The loop of `handleCanalKafkaMessage`: it stops at an event that cannot be saved.
  unfoldable pub handle_events : (ℕ → EventCalls) → ℕ → List Event → Sync e → Bool × Sync e
  unfolding handle_event
  handle_events calls n [] s = (true, s)
  handle_events calls n (event ∷ events) s =
      let handled = handle_event (calls n) event s in
      let rest = handle_events calls (n + 1) events handled.1 in
      if handled.0 then rest else (false, handled.1)

  -- `handleCanalKafkaMessage`
  unfoldable pub handle_message :
      Decoders → SaveCalls → (ℕ → EventCalls) → KafkaMessage → Sync e → Bool × Sync e
  unfolding parse_message save_message handle_events
  handle_message decoders poison calls m s = elim (parse_message decoders m) [
    | none ↦
        let saved = save_message codec poison m s.tables in (saved.0, record s { tables = saved.1 })
    | some events ↦ handle_events calls 0 events s
  ]
