-- ===== src/EsSync/Row.antt =====
-- es_sync.go and comment.go: the rows that Canal delivers, and the documents made of them.
use comment_project.Common.{Bool, Option, none, some, [], ◌∷◌, if◌then◌else◌}
use comment_project.Common.Int.{ℤ, pos, is_positive}
use comment_project.Common.Dict.{Dict, text_eq, text_beq, lookup, insert}
use comment_project.Common.Text.{Text, codes, format_int, parse_int}
use comment_project.Common.Trim.{trim_space, to_upper, is_empty}
use comment_project.Counter.State.{or_zero}
use comment_project.EsSync.{Version}

-- A value of a decoded message: null, a string, a `json.Number` with its text, a float64 with its
-- truncation to an int64 and what `fmt.Sprint` gives for it, or another value with what it gives.
pub data Value : Type 0 where
  null : Value
  string number other : Text → Value
  float : ℤ → Text → Value

abbrev pub Row : Type 0
Row = Dict Text Value

-- `row[name]`, which is nil for a missing name.
abbrev pub column : Text → Row → Value
column name row = elim (lookup name row) [ none ↦ null | some v ↦ v ]

-- `strings.EqualFold`
abbrev pub equal_fold : Text → Text → Bool
equal_fold s t = text_beq (to_upper s) (to_upper t)

abbrev pub int_of_text : Text → ℤ
int_of_text s =
    if is_empty s
    then pos 0
    else if equal_fold s (codes "null")
    then pos 0
    else or_zero (parse_int s)

-- `toInt64`; the other integer types do not come from a decoder.
unfoldable pub to_int64 : Value → ℤ
unfolding trim_space to_upper
to_int64 null = pos 0
to_int64 (string t) = int_of_text (trim_space t)
to_int64 (number t) = or_zero (parse_int t)
to_int64 (float n t) = n
to_int64 (other t) = int_of_text (trim_space t)

-- `toString`
abbrev pub to_string : Value → Text
to_string null = []
to_string (string t) = t
to_string (number t) = t
to_string (float n t) = t
to_string (other t) = t

-- A value of a document.
pub data Field : Type 0 where
  nil : Field
  integer : ℤ → Field
  words : Text → Field

abbrev pub Doc : Type 0
Doc = Dict Text Field

-- `nullableCanalString`, and `nullableCanalTime`, which is the same.
unfoldable pub nullable_string : Value → Field
unfolding trim_space to_upper
nullable_string null = nil
nullable_string v =
    let s = trim_space (to_string v) in
    if is_empty s then nil else if equal_fold s (codes "null") then nil else words s

abbrev pub int_field : Text → Row → Text × Field
int_field name row = (name, integer (to_int64 (column name row)))

abbrev pub text_field : Text → Row → Text × Field
text_field name row = (name, nullable_string (column name row))

abbrev pub is_delete : Text → Bool
is_delete event_type = equal_fold event_type (codes "DELETE")

-- `buildPostESDocFromCanalRow`, with the text of the present time.
unfoldable pub post_doc : Row → Text → Text → Doc
unfolding to_int64 nullable_string
post_doc row event_type now =
    let doc =
      int_field (codes "id") row
      ∷ int_field (codes "post_id") row
      ∷ int_field (codes "author_id") row
      ∷ text_field (codes "title") row
      ∷ text_field (codes "content") row
      ∷ int_field (codes "status") row
      ∷ text_field (codes "created_at") row
      ∷ text_field (codes "updated_at") row
      ∷ text_field (codes "deleted_at") row
      ∷ [] in
    if is_delete event_type
    then insert (codes "deleted_at") (words now) (insert (codes "status") (integer (pos 2)) doc)
    else doc

-- `buildStudyCommentESDocFromCanalRow`
unfoldable pub comment_doc : Row → Text → Text → Doc
unfolding to_int64 nullable_string
comment_doc row event_type now =
    let doc =
      int_field (codes "id") row
      ∷ int_field (codes "comment_id") row
      ∷ int_field (codes "post_id") row
      ∷ int_field (codes "student_id") row
      ∷ text_field (codes "content") row
      ∷ int_field (codes "visible_status") row
      ∷ int_field (codes "audit_status") row
      ∷ int_field (codes "manual_operator_id") row
      ∷ text_field (codes "manual_review_reason") row
      ∷ int_field (codes "reply_id") row
      ∷ int_field (codes "reply_tutor_id") row
      ∷ text_field (codes "reply_content") row
      ∷ int_field (codes "reply_status") row
      ∷ text_field (codes "replied_at") row
      ∷ text_field (codes "created_at") row
      ∷ text_field (codes "updated_at") row
      ∷ text_field (codes "deleted_at") row
      ∷ [] in
    if is_delete event_type
    then insert (codes "deleted_at") (words now) (
        insert (codes "audit_status") (integer (pos 2))
          (insert (codes "visible_status") (integer (pos 2)) doc))
    else doc

-- `buildESDocFromCanalRow`
unfoldable pub build_doc : Text → Text → Row → Text → Option Doc
unfolding post_doc comment_doc
build_doc table event_type row now =
    if text_beq table (codes "post")
    then some (post_doc row event_type now)
    else if text_beq table (codes "study_comment")
    then some (comment_doc row event_type now)
    else none

-- `decorateESSyncDoc`
unfoldable pub decorate : Text → Version → Text → Doc → Doc
decorate event_type version now doc = insert (codes "sync_at") (words now) (
    insert (codes "sync_event_type") (words (to_upper event_type)) (
      insert (codes "sync_binlog_pos") (integer version.position)
        (insert (codes "sync_binlog_file") (words version.file) doc)))

-- An index and an id of a document in it.
pub record Target : Type 0 where
  pub index : Text
  pub doc_id : Text

abbrev pub positive_id : Text → ℤ → Option Target
positive_id index id =
    if is_positive id then some (record { index = index; doc_id = format_int id }) else none

-- `getDocIDAndIndex`
unfoldable pub target_of : Text → Row → Option Target
unfolding to_int64 format_int
target_of table row =
    if text_beq table (codes "post")
    then positive_id (codes "post") (to_int64 (column (codes "post_id") row))
    else if text_beq table (codes "study_comment")
    then positive_id (codes "study_comment") (to_int64 (column (codes "comment_id") row))
    else none
