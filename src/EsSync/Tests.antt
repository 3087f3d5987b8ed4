-- ===== src/EsSync/Tests.antt =====
-- Two positions in different binlog files.
mod Mock
mod Lengths
use comment_project.Common.{
  ℕ, Bool, All, ◌+◌, ◌*◌, ◌≤◌, ◌<◌, ◌≡◌, ◌≢◌, ◌⊎◌, ◌↔◌, ◌==◌, refl, inl, inr, sym, subst, ◌∙◌, true,
  false, Option, none, some, List, [], ◌∷◌, if◌then◌else◌, arith,
}
use comment_project.Common.Dict.{text_beq, text_beq_iff, lookup, nat_eq}
use comment_project.Common.Int.{pos}
use comment_project.Common.Outcome.{answers, fails}
use comment_project.Common.Table.{add}
use comment_project.Common.Text.{Text, codes, max_int64, parse_int, magnitude, format_nat}
use comment_project.Common.Trim.{has_prefix, trim_space}
use comment_project.EsSync.{Version, binlog_file_seq, is_newer, factor, external_version}
use comment_project.EsSync.Order.{IsBinlog, external_version-is_newer}
use comment_project.EsSync.Row.{string, Target, target_of}
use comment_project.EsSync.Index.{Event, Calls, elastic_error, process_row}
use comment_project.EsSync.Newest.{IsPosition}
use comment_project.EsSync.Binlog.{Binlog, AtLeast, IsIndex}
use comment_project.EsSync.Documents.{IsChange, view}
use comment_project.EsSync.Runs.{Change, Kept, MadeBy, run, run-newest}
use comment_project.EsSync.Messages.{KafkaMessage, Msg, Decoders, parse_message}
use comment_project.EsSync.Retry.{Payload, RetryRow, SaveCalls, of_row, retry_row, payload_of}
use comment_project.EsSync.Handlers.{Sync, EventCalls, handle_message}
use comment_project.EsSync.Passes.{RetryCalls, process_retries}
use comment_project.EsSync.Saved.{RowOf}
use comment_project.EsSync.Canal.{IsCanal}
use comment_project.EsSync.Lossless.{IsSound, Landed, handle_message-lossless}
use comment_project.EsSync.NoLoss.{process_retries-lossless}
use comment_project.EsSync.Attempts.{attempts, attempts-ends}
use Mock.{mock, mock-IsElastic}
use Lengths.{lengths, lengths-IsCodec}

abbrev older : Version
older = record { file = codes "bin.000009"; position = pos 700 }

abbrev newer : Version
newer = record { file = codes "bin.000010"; position = pos 4 }

older-IsBinlog : IsBinlog older 9 700
unfolding has_prefix binlog_file_seq parse_int magnitude
older-IsBinlog = record {
  not_kafka = refl;
  sequence = refl;
  position = refl;
  in_file = omega arith;
}

newer-IsBinlog : IsBinlog newer 10 4
unfolding has_prefix binlog_file_seq parse_int magnitude
newer-IsBinlog = record {
  not_kafka = refl;
  sequence = refl;
  position = refl;
  in_file = omega arith;
}

older_version : external_version older ≡ some (9 * factor + 700)
unfolding external_version parse_int magnitude
older_version = refl

newer_version : external_version newer ≡ some (10 * factor + 4)
unfolding external_version parse_int magnitude
newer_version = refl

different : text_beq newer.file older.file ≡ false
unfolding text_beq
different = refl

other_file : newer.file ≢ older.file
other_file h = cc ((text_beq_iff newer.file older.file).1 h, different)

external_version-is_newer_example :
    ((is_newer newer older ≡ true) ↔ (9 * factor + 700 < 10 * factor + 4))
    × (10 * factor + 4 ≤ max_int64)
    × (9 * factor + 700 ≤ max_int64)
external_version-is_newer_example =
    external_version-is_newer newer older 10 9 4 700 (10 * factor + 4) (9 * factor + 700)
      newer-IsBinlog older-IsBinlog (inr (other_file, λ h. omega arith)) newer_version older_version

-- Two changes of one post, the newer one first.
abbrev files : ℕ → Text
files n = if n == 9 then codes "bin.000009" else codes "bin.000010"

abbrev change_of : Version → Text → Event
change_of v title = record {
  table = codes "post";
  event_type = codes "UPDATE";
  row = (codes "post_id", string (codes "5")) ∷ (codes "title", string title) ∷ [];
  version = v;
}

abbrev quiet : Calls
quiet = record { get = answers; put = answers; now = codes "2024-01-01 00:00:00" }

abbrev post_5 : Target
post_5 = record { index = codes "post"; doc_id = codes "5" }

older_position : IsPosition files older (9 * factor + 700)
unfolding trim_space
older_position = record {
  sequence = 9;
  offset = 700;
  binlog = older-IsBinlog;
  named = refl;
  started = omega arith;
  trimmed = refl;
  not_empty = refl;
  fits = older_version;
}

newer_position_10 : IsPosition files newer (10 * factor + 4)
unfolding trim_space
newer_position_10 = record {
  sequence = 10;
  offset = 4;
  binlog = newer-IsBinlog;
  named = refl;
  started = omega arith;
  trimmed = refl;
  not_empty = refl;
  fits = newer_version;
}

older-IsChange : IsChange files (change_of older (codes "old")) post_5 (9 * factor + 700)
unfolding target_of parse_int magnitude format_nat text_beq lookup
older-IsChange = record { target = refl; position = older_position }

newer-IsChange : IsChange files (change_of newer (codes "new")) post_5 (10 * factor + 4)
unfolding target_of parse_int magnitude format_nat text_beq lookup
newer-IsChange = record { target = refl; position = newer_position_10 }

-- a binlog with the two changes
abbrev InLog : Event → Type 0
InLog event = (event ≡ change_of newer (codes "new")) ⊎ (event ≡ change_of older (codes "old"))

version_at :
    (event other : Event) (t : Target) (x : ℕ)
    → event ≡ other
    → IsChange files event t x
    → external_version other.version ≡ some x
version_at event other t x same change =
    subst (λ (ev : Event). external_version ev.version ≡ some x) same change.position.fits

apart :
    (a b : Event) (t : Target) (x : ℕ)
    → a ≡ change_of newer (codes "new")
    → b ≡ change_of older (codes "old")
    → IsChange files a t x
    → IsChange files b t x
    → ⊥
apart a b t x h k c d =
    let first : some (10 * factor + 4) ≡ some x =
      sym newer_version ∙ version_at a (change_of newer (codes "new")) t x h c in
    let second : some (9 * factor + 700) ≡ some x =
      sym older_version ∙ version_at b (change_of older (codes "old")) t x k d in
    let equal : some (10 * factor + 4) ≡ some (9 * factor + 700) = first ∙ sym second in
    ground (arith, equal)

only_once :
    (a b : Event) (t : Target) (x : ℕ)
    → InLog a
    → InLog b
    → IsChange files a t x
    → IsChange files b t x
    → a ≡ b
only_once a b t x (inl h) (inl k) c d = h ∙ sym k
only_once a b t x (inr h) (inr k) c d = h ∙ sym k
only_once a b t x (inl h) (inr k) c d = absurd (apart a b t x h k c d)
only_once a b t x (inr h) (inl k) c d = absurd (apart b a t x k h d c)

abbrev binlog : Binlog
binlog = record { name = files; Logged = InLog; once = only_once }

abbrev changes : List (Change binlog)
changes =
    record {
      calls = quiet;
      event = change_of newer (codes "new");
      target = post_5;
      number = 10 * factor + 4;
      is = newer-IsChange;
      logged = inl refl;
    }
    ∷ record {
      calls = quiet;
      event = change_of older (codes "old");
      target = post_5;
      number = 9 * factor + 700;
      is = older-IsChange;
      logged = inr refl;
    }
    ∷ []

abbrev no_docs : mock.State
no_docs t = none

no_docs-IsIndex : IsIndex mock mock-IsElastic binlog no_docs
no_docs-IsIndex = record {
  inv = record { written = λ t d h. cc; present = λ t x h. cc };
  sourced = λ t y doc h. cc h;
}

run-newest_example :
    Kept mock binlog changes no_docs (run mock binlog changes no_docs)
    × ((u : Target)
        → (view mock (run mock binlog changes no_docs) u ≡ view mock no_docs u)
          ⊎ MadeBy mock mock-IsElastic binlog changes u
              (view mock (run mock binlog changes no_docs) u))
    × ((u : Target) (x : ℕ)
        → AtLeast mock no_docs u x
        → AtLeast mock (run mock binlog changes no_docs) u x)
run-newest_example = run-newest mock mock-IsElastic binlog changes no_docs no_docs-IsIndex

-- A message with one change, which Elasticsearch refuses.
abbrev msg : Msg
msg = record {
  type = codes "update";
  table = codes "post";
  is_ddl = false;
  rows = (change_of newer (codes "new")).row ∷ [];
  binlog_file = codes " bin.000010";
  binlog_pos = pos 4;
  binlog_file_camel = [];
  binlog_pos_camel = pos 0;
}

abbrev decoders : Decoders
decoders = record {
  flat = λ text. some msg;
  packet = λ text. none;
  entry = λ text. none;
  row_change = λ text. none;
}

abbrev message : KafkaMessage
message = record { topic = codes "canal"; partition = pos 0; offset = pos 12; value = codes "{}" }

abbrev saving : SaveCalls
saving = record {
  db_ready = true;
  tables_made = true;
  insert = answers;
  clock = 100;
  now = codes "2024-01-01T00:00:00Z";
}

abbrev refused : Calls
refused = record { get = answers; put = fails; now = codes "2024-01-01 00:00:00" }

abbrev refusing : ℕ → EventCalls
refusing n = record { row = refused; save = saving }

abbrev no_rows : Sync mock
no_rows = record {
  docs = no_docs;
  tables = record { es_sync_retry = []; next_id = 7; es_sync_dlq = [] };
}

abbrev new_title : Event
new_title = change_of newer (codes "new")

no_rows-IsSound : IsSound mock mock-IsElastic binlog lengths no_rows
unfolding lookup
no_rows-IsSound = record {
  inv = no_docs-IsIndex;
  tables = record { free = λ id h. refl; distinct = tt; rows = λ id row h. cc h };
}

message_events : parse_message decoders message ≡ some (new_title ∷ [])
unfolding parse_message
message_events = refl

new_title-IsCanal : IsCanal binlog new_title
unfolding target_of
new_title-IsCanal = record {
  positioned = λ t h. (10 * factor + 4, newer_position_10);
  textual = (tt, (tt, tt));
  logged = inl refl;
}

abbrev refused_message : Bool × Sync mock
refused_message = handle_message mock lengths decoders saving refusing message no_rows

handle_message-lossless_example :
    IsSound mock mock-IsElastic binlog lengths refused_message.1
    × ((other : Event)
        → Landed mock mock-IsElastic binlog lengths other no_rows
        → Landed mock mock-IsElastic binlog lengths other refused_message.1)
    × (refused_message.0 ≡ true
        → All
            (λ event. Landed mock mock-IsElastic binlog lengths event refused_message.1)
            (new_title ∷ []))
handle_message-lossless_example =
    handle_message-lossless mock mock-IsElastic binlog lengths decoders saving refusing message
      (new_title ∷ []) no_rows message_events no_rows-IsSound (new_title-IsCanal, tt)

-- The row that is saved, with id 7.
abbrev saved_state : Sync mock
saved_state = refused_message.1

saved_state-IsSound : IsSound mock mock-IsElastic binlog lengths saved_state
saved_state-IsSound =
    (handle_message-lossless mock mock-IsElastic binlog lengths decoders saving refusing message
      (new_title ∷ []) no_rows message_events no_rows-IsSound (new_title-IsCanal, tt)).0

abbrev write_payload : Payload → Text
write_payload p = elim (lengths.marshal p) [ none ↦ [] | some t ↦ t ]

abbrev saved_row : RetryRow
saved_row =
    retry_row lengths new_title post_5
      (write_payload (payload_of lengths new_title post_5 saving.now)) 100 (of_row elastic_error)

saved_lookup : lookup 7 saved_state.tables.es_sync_retry ≡ some saved_row
unfolding handle_message parse_message parse_int magnitude format_nat process_row add text_beq
    lookup
saved_lookup = refl

saved_row-RowOf : RowOf lengths new_title saved_row
unfolding target_of parse_int magnitude format_nat text_beq lookup
saved_row-RowOf = record {
  table = refl;
  kind = refl;
  at = refl;
  target = refl;
  payload = payload_of lengths new_title post_5 saving.now;
  of_event = refl;
  written = refl;
}

abbrev retrying : ℕ → RetryCalls
retrying id = record { row = quiet; statement = answers; clock = 110 }

process_retries-lossless_example :
    IsSound mock mock-IsElastic binlog lengths
      (process_retries mock lengths true true 110 retrying saved_state).1
    × ((event : Event)
        → IsCanal binlog event
        → Landed mock mock-IsElastic binlog lengths event saved_state
        → Landed mock mock-IsElastic binlog lengths event
            (process_retries mock lengths true true 110 retrying saved_state).1)
process_retries-lossless_example =
    process_retries-lossless mock mock-IsElastic binlog lengths lengths-IsCodec true true 110
      retrying saved_state saved_state-IsSound

abbrev failing : RetryCalls
failing = record { row = refused; statement = answers; clock = 110 }

attempts-ends_example :
    (lookup 7
        (attempts mock lengths
          (failing ∷ failing ∷ failing ∷ [])
          7
          saved_state).tables.es_sync_retry
      ≡ none)
    × Landed mock mock-IsElastic binlog lengths new_title
        (attempts mock lengths (failing ∷ failing ∷ failing ∷ []) 7 saved_state)
attempts-ends_example =
    attempts-ends mock mock-IsElastic binlog lengths lengths-IsCodec failing
      (failing ∷ failing ∷ []) 7 saved_row new_title saved_state (omega arith) refl
      (refl, (refl, tt)) saved_state-IsSound saved_lookup saved_row-RowOf new_title-IsCanal
