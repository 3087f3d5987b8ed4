-- ===== src/Facts/Comments.antt =====
-- The comments: `CreateComment` and `DeleteComment` (data/student.go, data/tutor.go), `ApproveComment`
-- and `RejectComment` (data/operator.go), and the use cases that guard them.
use comment_project.Common.{
  ℕ, Bool, true, false, not, ◌||◌, Option, none, some, [], ◌==◌, if◌then◌else◌,
}
use comment_project.Common.Int.{ℤ, pos, negsuc, int_beq, int_eq}
use comment_project.Common.Dict.{Dict, lookup}
use comment_project.Common.Table.{add, adjust}
use comment_project.Common.Outcome.{Outcome, answers, fails, unheard}
use comment_project.Common.Text.{Text}
use comment_project.Common.Trim.{is_empty}

pub data Audit : Type 0 where
  unaudited approved rejected : Audit

-- A row of `study_comment`, without its unique `comment_id` and its content.
pub record Comment : Type 0 where
  pub post_id : ℤ
  pub student_id : ℤ
  pub visible : Bool
  pub audit_status : Audit
  pub operator_id : ℤ
  pub review_reason : Text
  pub deleted : Bool

abbrev pub Comments : Type 0
Comments = Dict ℤ Comment

pub data CommentError : Type 0 where
  no_post no_comment already_audited not_owner invalid_action no_reason store_error : CommentError

pub data Commented : Type 0 where
  done : Commented
  comment_error : CommentError → Commented

-- The result of a write, with the delta that it records and the post that it records it for.
pub record Effect : Type 0 where
  pub result : Commented
  pub post : ℤ
  pub delta : ℤ
  pub comments : Comments

abbrev pub refuse : CommentError → Comments → Effect
refuse e comments = record {
  result = comment_error e;
  post = pos 0;
  delta = pos 0;
  comments = comments;
}

-- The row that is there and not deleted.
abbrev pub live : Option Comment → Option Comment
live none = none
live (some c) = if c.deleted then none else some c

abbrev pub new_comment : ℤ → ℤ → Comment
new_comment post student = record {
  post_id = post;
  student_id = student;
  visible = true;
  audit_status = unaudited;
  operator_id = pos 0;
  review_reason = [];
  deleted = false;
}

-- `CreateComment` of the use case and the repository, for the drawn id; `has_post` says whether the
-- post is there with status 1. A duplicate id is refused by the unique key.
unfoldable pub create_comment : Bool → ℤ → ℤ → ℤ → Comments → Effect
create_comment has_post id post student comments =
    if not has_post then refuse no_post comments else elim (lookup id comments) [
      | some c ↦ refuse store_error comments
      | none ↦ record {
        result = done;
        post = post;
        delta = pos 1;
        comments = add id (new_comment post student) comments;
      }
    ]

abbrev pub hide_deleted : Comment → Comment
hide_deleted c = record c { visible = false; deleted = true }

-- The update of a deletion, of a row that is not deleted: the recorded delta goes by the row `c` that
-- the transaction has read before.
unfoldable pub delete_row : ℤ → Comment → Comments → ℤ × Comments
delete_row id c comments = elim (live (lookup id comments)) [
  | none ↦ (pos 0, comments)
  | some now ↦ (if c.visible then negsuc 0 else pos 0, adjust id hide_deleted comments)
]

-- `DeleteComment` of the student and of the tutor repository, with how its transaction ends and the row
-- that the transaction has read, which another statement may have changed before the update. A missing
-- comment is no error.
unfoldable pub delete_comment : Outcome → Option Comment → ℤ → Comments → Effect
unfolding delete_row
delete_comment fails seen id comments = refuse store_error comments
delete_comment answers none id comments = record {
  result = done;
  post = pos 0;
  delta = pos 0;
  comments = comments;
}
delete_comment unheard none id comments = refuse store_error comments
delete_comment answers (some c) id comments = record {
  result = done;
  post = c.post_id;
  delta = (delete_row id c comments).0;
  comments = (delete_row id c comments).1;
}
delete_comment unheard (some c) id comments = refuse store_error (delete_row id c comments).1

abbrev pub is_unaudited : Comment → Bool
is_unaudited c = elim c.audit_status [ unaudited ↦ true | _ ↦ false ]

abbrev pub approve : ℤ → Comment → Comment
approve operator c = record c { audit_status = approved; operator_id = operator }

-- `ApproveComment`
unfoldable pub approve_comment : ℤ → ℤ → Comments → Effect
approve_comment id operator comments = elim (live (lookup id comments)) [
  | none ↦ refuse already_audited comments
  | some c ↦
      if is_unaudited c
      then record {
        result = done;
        post = c.post_id;
        delta = pos 0;
        comments = adjust id (approve operator) comments;
      }
      else refuse already_audited comments
]

abbrev pub reject : ℤ → Text → Comment → Comment
reject operator reason c = record c {
  audit_status = rejected;
  visible = false;
  review_reason = reason;
  operator_id = operator;
}

-- `RejectComment`
unfoldable pub reject_comment : ℤ → ℤ → Text → Comments → Effect
reject_comment id operator reason comments = elim (live (lookup id comments)) [
  | none ↦ refuse no_comment comments
  | some c ↦
      if is_unaudited c
      then record {
        result = done;
        post = c.post_id;
        delta = if c.visible then negsuc 0 else pos 0;
        comments = adjust id (reject operator reason) comments;
      }
      else refuse already_audited comments
]

-- `AuditComment` of the operator's use case, with the comment that it has read before, which may be
-- out of date.
unfoldable pub audit_comment : Option Comment → ℤ → ℤ → ℕ → Text → Comments → Effect
unfolding approve_comment reject_comment
audit_comment seen operator id action reason comments =
    if not (action == 1 || action == 2) then refuse invalid_action comments else elim seen [
      | none ↦ refuse no_comment comments
      | some c ↦
          if not (is_unaudited c)
          then refuse already_audited comments
          else if action == 1
          then approve_comment id operator comments
          else if is_empty reason
          then refuse no_reason comments
          else reject_comment id operator reason comments
    ]

-- `DeleteMyComment` of the student's use case; `row` is what the transaction reads.
unfoldable pub delete_my_comment :
    Option Comment → ℤ → Outcome → Option Comment → ℤ → Comments → Effect
unfolding delete_comment
delete_my_comment none student o row id comments = refuse no_comment comments
delete_my_comment (some c) student o row id comments =
    if int_beq c.student_id student
    then delete_comment o row id comments
    else refuse not_owner comments

-- `DeleteCommentTutor` of the tutor's use case, with the author of the comment's post, if it is there
unfoldable pub delete_comment_tutor :
    Option Comment → (ℤ → Option ℤ) → ℤ → Outcome → Option Comment → ℤ → Comments → Effect
unfolding delete_comment
delete_comment_tutor none author tutor o row id comments = refuse no_comment comments
delete_comment_tutor (some c) author tutor o row id comments = elim (author c.post_id) [
  | none ↦ refuse no_post comments
  | some a ↦ if int_beq a tutor then delete_comment o row id comments else refuse not_owner comments
]
