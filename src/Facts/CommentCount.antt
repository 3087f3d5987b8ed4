-- ===== src/Facts/CommentCount.antt =====
-- The delta that a write of comments records is the change of the number of visible comments.
use comment_project.Common.{
  ℕ, ◌≢◌, ◌⊎◌, ◌≡◌, refl, ap, inl, inr, Bool, true, false, not, ◌&&◌, ◌||◌, ◌==◌, Option, none,
  some, arith, Option-cases, Bool-cases, if◌then◌else◌,
}
use comment_project.Common.Int.{ℤ, pos, negsuc, ◌+ℤ◌, int_laws, int_beq, int_eq}
use comment_project.Common.Dict.{lookup, Distinct}
use comment_project.Common.Table.{adjust, add-Distinct, adjust-Distinct}
use comment_project.Common.Sum.{sum_by, sum_by-add, sum_by-adjust}
use comment_project.Common.Text.{Text}
use comment_project.Common.Trim.{is_empty}
use comment_project.Common.Outcome.{Outcome, answers, fails, unheard}
use comment_project.Facts.Comments.{
  delete_row, refuse, CommentError, Comment, Comments, Effect, done, live, new_comment,
  create_comment, hide_deleted, delete_comment, is_unaudited, approve, approve_comment, reject,
  reject_comment, audit_comment,
}

-- `SELECT COUNT(*) FROM study_comment WHERE post_id = ? AND visible_status = 1 AND deleted_at IS
-- NULL`, one row of it
abbrev pub comment_share : ℤ → ℤ → Comment → ℤ
comment_share post id c =
    if int_beq c.post_id post && (c.visible && not c.deleted) then pos 1 else pos 0

unfoldable pub comment_fact : ℤ → Comments → ℤ
comment_fact post comments = sum_by (comment_share post) comments

-- The rows stay distinct, and the count of the effect's post moves by its delta, no other.
abbrev pub IsCounted : Comments → Effect → Type 0
IsCounted comments e =
    Distinct e.comments
    × ((q : ℤ)
        → comment_fact q e.comments
          ≡ comment_fact q comments +ℤ (if int_beq e.post q then e.delta else pos 0))

-- nothing changes and nothing is recorded, whatever the answer
none-IsCounted :
    (comments : Comments)
    → Distinct comments
    → IsCounted comments
        (record { result = done; post = pos 0; delta = pos 0; comments = comments })
none-IsCounted comments v = (v, λ q. grind int_laws)

-- A change of one row that is there and not deleted.
adjust-IsCounted :
    (id : ℤ) (f : Comment → Comment) (c : Comment) (comments : Comments)
    → Distinct comments
    → lookup id comments ≡ some c
    → c.deleted ≡ false
    → (f c).post_id ≡ c.post_id
    → (((f c).visible && not (f c).deleted) ≡ false)
    → IsCounted comments (record {
      result = done;
      post = c.post_id;
      delta = if c.visible then negsuc 0 else pos 0;
      comments = adjust id f comments;
    })
unfolding comment_fact
adjust-IsCounted id f c comments v e alive same hidden = (
  adjust-Distinct id f comments v,
  λ q.
      let moved = sum_by-adjust (comment_share q) id f c comments v e in
      grind (int_laws, rw (same, hidden, alive) at moved),
)

live-some :
    (o : Option Comment) (c : Comment) → live o ≡ some c → (o ≡ some c) × (c.deleted ≡ false)
live-some none c h = absurd (cc h)
live-some (some d) c h = elim (Bool-cases d.deleted) [
  | inl gone ↦ absurd (cc (rw gone at h))
  | inr alive ↦
      let same : d ≡ c = ground (arith, rw alive at h) in
      (ap (λ (x : Comment). some x) same, cc (ap (λ (x : Comment). x.deleted) same, alive))
]

-- Over a table whose keys are distinct, a creation of a comment records for its post exactly the
-- change of the number of visible comments, and leaves the number of the others, also where it is
-- refused.
pub create_comment-fact :
    (has_post : Bool) (id post student : ℤ) (comments : Comments)
    → Distinct comments
    → IsCounted comments (create_comment has_post id post student comments)
unfolding create_comment comment_fact
create_comment-fact false id post student comments v = none-IsCounted comments v
create_comment-fact true id post student comments v = elim (Option-cases (lookup id comments)) [
  | inr (c, e) ↦ rw (e, create_comment) (none-IsCounted comments v)
  | inl e ↦
      rw (e, create_comment)
        (
          add-Distinct id (new_comment post student) comments v,
          λ q.
              grind
                (int_laws, sum_by-add (comment_share q) id (new_comment post student) comments e),
        )
]

refuse-IsCounted :
    (e : CommentError) (comments : Comments)
    → Distinct comments
    → IsCounted comments (refuse e comments)
refuse-IsCounted e comments v = (v, λ q. grind int_laws)

-- Over a table whose keys are distinct, a deletion of a comment, by its student or by the post's
-- tutor, whose transaction answers or fails without an effect, and whose row is at the update still
-- as the transaction has read it, or is deleted: it records for the comment's post exactly the change
-- of the number of visible comments, and leaves the number of the others.
pub delete_comment-fact :
    (o : Outcome) (seen : Option Comment) (id : ℤ) (comments : Comments)
    → Distinct comments
    → o ≢ unheard
    → (live (lookup id comments) ≡ seen) ⊎ (live (lookup id comments) ≡ none)
    → IsCounted comments (delete_comment o seen id comments)
unfolding delete_comment delete_row
delete_comment-fact unheard seen id comments v heard h = absurd (heard refl)
delete_comment-fact fails seen id comments v heard h =
    refuse-IsCounted CommentError.store_error comments v
delete_comment-fact answers none id comments v heard h = none-IsCounted comments v
delete_comment-fact answers (some c) id comments v heard (inr gone) =
    rw (gone, delete_row) (v, λ q. grind int_laws)
delete_comment-fact answers (some c) id comments v heard (inl still) =
    let (found, alive) = live-some (lookup id comments) c still in
    rw (still, delete_row) (adjust-IsCounted id hide_deleted c comments v found alive refl refl)

-- Over a table whose keys are distinct, a deletion that has read its comment as visible and updates
-- it after it was hidden, as a rejection does, records -1 for the post, though the number of its
-- visible comments stays.
pub delete_comment-raced :
    (id : ℤ) (c now : Comment) (comments : Comments)
    → Distinct comments
    → c.visible ≡ true
    → lookup id comments ≡ some now
    → now.deleted ≡ false
    → now.visible ≡ false
    → ((delete_comment answers (some c) id comments).delta ≡ negsuc 0)
      × ((q : ℤ)
          → comment_fact q (delete_comment answers (some c) id comments).comments
            ≡ comment_fact q comments)
unfolding delete_comment delete_row comment_fact
delete_comment-raced id c now comments v visible found alive hidden =
    let standing : live (lookup id comments) ≡ some now = rw (found, alive) refl in
    rw (standing, visible, delete_row)
      (
        refl,
        λ q.
            let moved = sum_by-adjust (comment_share q) id hide_deleted now comments v found in
            grind (int_laws, rw hidden at moved),
      )

approve_comment-fact :
    (id operator : ℤ) (comments : Comments)
    → Distinct comments
    → IsCounted comments (approve_comment id operator comments)
unfolding approve_comment comment_fact
approve_comment-fact id operator comments v = elim (Option-cases (live (lookup id comments))) [
  | inl e ↦ rw (e, approve_comment) (none-IsCounted comments v)
  | inr (c, e) ↦ elim (Bool-cases (is_unaudited c)) [
    | inr audited ↦ rw (e, approve_comment) (rw audited (none-IsCounted comments v))
    | inl open_case ↦
        let (found, alive) = live-some (lookup id comments) c e in
        rw (e, approve_comment)
          (rw open_case (
            adjust-Distinct id (approve operator) comments v,
            λ q. grind (
              int_laws,
              sum_by-adjust (comment_share q) id (approve operator) c comments v found,
            ),
          ))
  ]
]

reject_comment-fact :
    (id operator : ℤ) (reason : Text) (comments : Comments)
    → Distinct comments
    → IsCounted comments (reject_comment id operator reason comments)
unfolding reject_comment
reject_comment-fact id operator reason comments v =
    elim (Option-cases (live (lookup id comments))) [
      | inl e ↦ rw (e, reject_comment) (none-IsCounted comments v)
      | inr (c, e) ↦ elim (Bool-cases (is_unaudited c)) [
        | inr audited ↦ rw (e, reject_comment) (rw audited (none-IsCounted comments v))
        | inl open_case ↦
            let (found, alive) = live-some (lookup id comments) c e in
            rw (e, reject_comment)
              (rw open_case
                (adjust-IsCounted id (reject operator reason) c comments v found alive refl refl))
      ]
    ]

-- Over a table whose keys are distinct, the operator's audit of a comment, also where the comment
-- that it has read is out of date, records for the comment's post exactly the change of the number
-- of visible comments, and leaves the number of the others.
pub audit_comment-fact :
    (seen : Option Comment) (operator id : ℤ) (action : ℕ) (reason : Text) (comments : Comments)
    → Distinct comments
    → IsCounted comments (audit_comment seen operator id action reason comments)
unfolding audit_comment
audit_comment-fact none operator id action reason comments v =
    elim (Bool-cases (action == 1 || action == 2)) [
      | inl known ↦ rw known (none-IsCounted comments v)
      | inr unknown ↦ rw unknown (none-IsCounted comments v)
    ]
audit_comment-fact (some c) operator id action reason comments v =
    elim (Bool-cases (action == 1 || action == 2)) [
      | inr unknown ↦ rw unknown (none-IsCounted comments v)
      | inl known ↦ elim (Bool-cases (is_unaudited c)) [
        | inr audited ↦ rw (known, audited) (none-IsCounted comments v)
        | inl open_case ↦ elim (Bool-cases (action == 1)) [
          | inl first ↦ rw (known, open_case, first) (approve_comment-fact id operator comments v)
          | inr second ↦ elim (Bool-cases (is_empty reason)) [
            | inl empty ↦ rw (known, open_case, second, empty) (none-IsCounted comments v)
            | inr given ↦
                rw (known, open_case, second, given)
                  (reject_comment-fact id operator reason comments v)
          ]
        ]
      ]
    ]
