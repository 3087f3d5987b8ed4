-- ===== src/EsSync/Messages.antt =====
-- es_sync.go: the events of a message of Kafka, which Canal writes as JSON or as protobuf entries.
use comment_project.Common.{
  Bool, not, ◌&&◌, ◌++◌, Option, none, some, List, [], ◌∷◌, map, if◌then◌else◌,
}
use comment_project.Common.Int.{ℤ, is_positive}
use comment_project.Common.Dict.{text_eq, insert}
use comment_project.Common.Text.{Text, codes, format_int}
use comment_project.Common.Trim.{trim_space, to_upper, is_empty, has_prefix}
use comment_project.EsSync.{Version}
use comment_project.EsSync.Row.{Value, null, string, Row, is_delete}
use comment_project.EsSync.Index.{Event}

pub record KafkaMessage : Type 0 where
  pub topic : Text
  pub partition : ℤ
  pub offset : ℤ
  pub value : Text

-- `Msg`, without the database and the times, which the task does not read
pub record Msg : Type 0 where
  pub type : Text
  pub table : Text
  pub is_ddl : Bool
  pub rows : List Row
  pub binlog_file : Text
  pub binlog_pos : ℤ
  pub binlog_file_camel : Text
  pub binlog_pos_camel : ℤ

pub record Header : Type 0 where
  pub table_name : Text
  pub logfile_name : Text
  pub logfile_offset : ℤ

pub record Column : Type 0 where
  pub name : Text
  pub is_null : Bool
  pub value : Text

-- A pointer that is nil is `none`.
pub record RowData : Type 0 where
  pub before : List (Option Column)
  pub after : List (Option Column)

pub record RowChange : Type 0 where
  pub is_ddl : Bool
  pub event_type : Text
  pub row_datas : List (Option RowData)

pub record Entry : Type 0 where
  pub is_row_data : Bool
  pub header : Option Header
  pub store_value : Text

-- The decoders of encoding/json, of the canal client and of protobuf.
pub record Decoders : Type 0 where
  pub flat : Text → Option Msg
  pub packet : Text → Option (List Entry)
  pub entry : Text → Option Entry
  pub row_change : Text → Option RowChange

-- the version of the offset in Kafka
unfoldable pub kafka_position : KafkaMessage → Version
unfolding format_int
kafka_position m = record {
  file = codes "kafka:" ++ (m.topic ++ (b':' ∷ format_int m.partition));
  position = m.offset;
}

abbrev pub position_or : Text → ℤ → Version → Version
position_or file position otherwise =
    if not (is_empty (trim_space file)) && is_positive position
    then record { file = trim_space file; position = position }
    else otherwise

-- `versionFromCanalMessage`
unfoldable pub version_from_message : Msg → KafkaMessage → Version
unfolding kafka_position trim_space
version_from_message msg m =
    position_or msg.binlog_file msg.binlog_pos
      (position_or msg.binlog_file_camel msg.binlog_pos_camel (kafka_position m))

-- `versionFromEntryHeader`
unfoldable pub version_from_header : Header → KafkaMessage → Version
unfolding kafka_position trim_space
version_from_header header m =
    position_or header.logfile_name header.logfile_offset (kafka_position m)

-- `looksLikeJSON`
unfoldable pub looks_like_json : Text → Bool
unfolding has_prefix trim_space
looks_like_json value = has_prefix (codes "{") (trim_space value)

-- the events of a decoded flat message
unfoldable pub flat_events : Msg → KafkaMessage → List Event
unfolding version_from_message to_upper
flat_events msg m =
    if msg.is_ddl
    then []
    else map
        (λ row. record {
          table = msg.table;
          event_type = to_upper msg.type;
          row = row;
          version = version_from_message msg m;
        })
        msg.rows

abbrev pub column_value : Column → Value
column_value c = if c.is_null then null else string c.value

-- `columnsToMap`, from the columns that it has seen
unfoldable pub columns_from : Row → List (Option Column) → Row
columns_from row [] = row
columns_from row (none ∷ cs) = columns_from row cs
columns_from row (some c ∷ cs) = columns_from (insert c.name (column_value c) row) cs

-- `rowDataColumns`
unfoldable pub row_data_columns : Option RowData → Text → Row
unfolding columns_from to_upper
row_data_columns none event_type = []
row_data_columns (some d) event_type =
    if is_delete event_type
    then columns_from [] d.before
    else elim d.after [ [] ↦ columns_from [] d.before | c ∷ cs ↦ columns_from [] (c ∷ cs) ]

-- the events of a change of rows
unfoldable pub change_events : Header → RowChange → KafkaMessage → List Event
unfolding row_data_columns version_from_header to_upper
change_events header change m =
    if change.is_ddl
    then []
    else map
        (λ d. record {
          table = header.table_name;
          event_type = to_upper change.event_type;
          row = row_data_columns d (to_upper change.event_type);
          version = version_from_header header m;
        })
        change.row_datas

module _ (decoders : Decoders) where
  -- One round of `eventsFromCanalEntries`; `none` is an error.
  unfoldable pub entry_events : Entry → KafkaMessage → Option (List Event)
  unfolding change_events
  entry_events entry m = if not entry.is_row_data then some [] else elim entry.header [
    | none ↦ none
    | some header ↦ elim (decoders.row_change entry.store_value) [
      | none ↦ none
      | some change ↦ some (change_events header change m)
    ]
  ]

  -- `eventsFromCanalEntries`
  unfoldable pub entries_events : List Entry → KafkaMessage → Option (List Event)
  unfolding entry_events
  entries_events [] m = some []
  entries_events (entry ∷ entries) m = elim (entry_events entry m) [
    | none ↦ none
    | some events ↦ elim (entries_events entries m) [
      | none ↦ none
      | some more ↦ some (events ++ more)
    ]
  ]

  abbrev pub direct_entry : Option Entry → KafkaMessage → Option (List Event)
  direct_entry none m = none
  direct_entry (some entry) m = entries_events (entry ∷ []) m

  -- `parseCanalKafkaMessage` with `parseFlatCanalMessage` and `parseEntryCanalMessage`
  unfoldable pub parse_message : KafkaMessage → Option (List Event)
  unfolding looks_like_json flat_events entries_events
  parse_message m =
      if looks_like_json m.value
      then elim (decoders.flat m.value) [ none ↦ none | some msg ↦ some (flat_events msg m) ]
      else elim (decoders.packet m.value) [
        | none ↦ direct_entry (decoders.entry m.value) m
        | some entries ↦ entries_events entries m
      ]
