-- ===== src/EsSync/Index.antt =====
-- es_sync.go and comment.go: the write of one row into Elasticsearch, which is an interface.
use comment_project.Common.{
  ℕ, ◌<◌, ◌≡◌, ap, ◌∙◌, ◌↔◌, ◌^◌, Bool, true, false, not, ◌&&◌, ◌||◌, Option, none, some, arith,
  leb, if◌then◌else◌,
}
use comment_project.Common.Int.{pos, is_positive}
use comment_project.Common.Dict.{text_eq, text_beq, text_beq_iff, lookup}
use comment_project.Common.Outcome.{Outcome, answers, fails, unheard}
use comment_project.Common.Text.{Text, codes}
use comment_project.Common.Trim.{trim_space, is_empty}
use comment_project.EsSync.{Version, is_newer, external_version}
use comment_project.EsSync.Row.{
  Value, null, string, Field, integer, words, Doc, Row, Target, to_int64, to_string, build_doc,
  decorate, target_of,
}

abbrev pub target_beq : Target → Target → Bool
target_beq a b = text_beq a.index b.index && text_beq a.doc_id b.doc_id

pub target_beq_iff : (a b : Target) → (target_beq a b ≡ true) ↔ (a ≡ b)
target_beq_iff a b = ground (arith, text_beq_iff a.index b.index, text_beq_iff a.doc_id b.doc_id)

-- `external_gte`: a write is accepted if its version is not less than the one that is there.
abbrev pub accepts : Option ℕ → ℕ → Bool
accepts none v = true
accepts (some w) v = leb w v

-- What the task uses of Elasticsearch: the source and the version of a document, an index request,
-- with an external version or without, which answers whether it was stored, and how a field of a
-- source is decoded again.
pub record Elastic : Type 1 where
  pub State : Type 0
  pub source : State → Target → Option Doc
  pub version : State → Target → Option ℕ
  pub index : State → Target → Option ℕ → Doc → Bool × State
  pub reread : Field → Value

-- What Elasticsearch and encoding/json document of them.
pub record IsElastic (e : Elastic) : Type 0 where
  pub stored_if_accepted :
      (s : e.State) (t : Target) (v : ℕ) (d : Doc)
      → (e.index s t (some v) d).0 ≡ accepts (e.version s t) v
  pub source-index :
      (s : e.State) (t u : Target) (v : ℕ) (d : Doc)
      → e.source (e.index s t (some v) d).1 u
        ≡ (if accepts (e.version s t) v && target_beq t u then some d else e.source s u)
  pub version-index :
      (s : e.State) (t u : Target) (v : ℕ) (d : Doc)
      → e.version (e.index s t (some v) d).1 u
        ≡ (if accepts (e.version s t) v && target_beq t u then some v else e.version s u)
  pub reread_words : (w : Text) → e.reread (words w) ≡ string w
  -- a float64 holds the integers below 2 ^ 53
  pub reread_integer : (n : ℕ) → n < 2 ^ 53 → to_int64 (e.reread (integer (pos n))) ≡ pos n

pub data RowError : Type 0 where
  invalid_id unsupported_table elastic_error : RowError

pub data Processed : Type 0 where
  synced : Processed
  row_error : RowError → Processed

-- A change of a row: a `canalRowEvent` without its database.
pub record Event : Type 0 where
  pub table : Text
  pub event_type : Text
  pub row : Row
  pub version : Version

-- How the two requests of a row end, and the text of the present time.
pub record Calls : Type 0 where
  pub get : Outcome
  pub put : Outcome
  pub now : Text

-- The version of a file and a position, if it has a file and a positive position.
unfoldable pub version_of : Value → Value → Option Version
unfolding trim_space to_int64
version_of file_value position_value =
    let file = trim_space (to_string file_value) in
    let position = to_int64 position_value in
    if is_empty file || not (is_positive position)
    then none
    else some (record { file = file; position = position })

-- whether `processCanalRow` skips the event, as its document has this version
abbrev pub is_stale : Version → Option Version → Bool
is_stale version none = false
is_stale version (some old) = not (is_newer version old)

module _ (e : Elastic) where
  abbrev reread_value : Option Field → Value
  reread_value none = null
  reread_value (some f) = e.reread f

  -- The version in a source
  unfoldable pub version_in : Doc → Option Version
  version_in doc =
      version_of (reread_value (lookup (codes "sync_binlog_file") doc))
        (reread_value (lookup (codes "sync_binlog_pos") doc))

  pub version_in-fields :
      (doc : Doc) (f g : Field)
      → lookup (codes "sync_binlog_file") doc ≡ some f
      → lookup (codes "sync_binlog_pos") doc ≡ some g
      → version_in doc ≡ version_of (e.reread f) (e.reread g)
  unfolding version_in
  version_in-fields doc f g h k =
      ap (λ i. version_of (reread_value i) (reread_value (lookup (codes "sync_binlog_pos") doc))) h
      ∙ ap (λ i. version_of (e.reread f) (reread_value i)) k

  -- `currentESSyncVersion`, where its request answers
  unfoldable pub current_version : e.State → Target → Option Version
  unfolding version_in
  current_version s t = elim (e.source s t) [ none ↦ none | some doc ↦ version_in doc ]

  -- `indexDocument`: a version conflict is no error.
  unfoldable pub index_document : Outcome → Target → Doc → Version → e.State → Processed × e.State
  unfolding external_version
  index_document answers t doc version s = (synced, (e.index s t (external_version version) doc).1)
  index_document fails t doc version s = (row_error elastic_error, s)
  index_document unheard t doc version s =
      (row_error elastic_error, (e.index s t (external_version version) doc).1)

  unfoldable pub write_row : Calls → Event → Target → e.State → Processed × e.State
  unfolding build_doc decorate index_document
  write_row calls event t s = elim (build_doc event.table event.event_type event.row calls.now) [
    | none ↦ (row_error unsupported_table, s)
    | some doc ↦
        index_document calls.put t (decorate event.event_type event.version calls.now doc)
          event.version s
  ]

  unfoldable pub compare_and_write : Calls → Event → Target → e.State → Processed × e.State
  unfolding current_version write_row is_newer
  compare_and_write calls event t s =
      if is_stale event.version (current_version s t)
      then (synced, s)
      else write_row calls event t s

  abbrev pub if_answered : Outcome → e.State → Processed × e.State → Processed × e.State
  if_answered answers s done = done
  if_answered fails s done = (row_error elastic_error, s)
  if_answered unheard s done = (row_error elastic_error, s)

  -- `processCanalRow`
  unfoldable pub process_row : Calls → Event → e.State → Processed × e.State
  unfolding target_of compare_and_write
  process_row calls event s = elim (target_of event.table event.row) [
    | none ↦ (row_error invalid_id, s)
    | some t ↦ if_answered calls.get s (compare_and_write calls event t s)
  ]
