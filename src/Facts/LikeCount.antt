-- ===== src/Facts/LikeCount.antt =====
-- The delta that a like or an unlike records is the change of the number of active likes.
use comment_project.Common.{◌≡◌, Bool, true, false, ◌&&◌, if◌then◌else◌}
use comment_project.Common.Int.{ℤ, pos, ◌+ℤ◌, int_beq, int_eq}
use comment_project.Common.Dict.{Distinct}
use comment_project.Common.Sum.{sum_by}
use comment_project.Facts.Likes.{
  LikeKey, like_key, like_key_eq, Likes, Written, changed, failed, unheard, broken, Liked, done,
  like_error,
}

-- `SELECT COUNT(*) FROM post_like WHERE post_id = ? AND status = 1`, one row of it
abbrev pub like_share : ℤ → LikeKey → Bool → ℤ
like_share post (like_key p s) active = if int_beq p post && active then pos 1 else pos 0

unfoldable pub like_fact : ℤ → Likes → ℤ
like_fact post likes = sum_by (like_share post) likes

-- The change of the table that a request could not record, as the answer of its statement was lost.
abbrev pub missed : ℤ → Liked → ℤ
missed d (broken true) = d
missed d (broken false) = pos 0
missed d done = pos 0
missed d (like_error e) = pos 0

-- The rows stay distinct, and the count of the post moves by the delta that the request records, and
-- by the change `d` if it is missed.
abbrev pub IsCounted : ℤ → LikeKey → Likes → Liked × ℤ × Likes → Type 0
IsCounted d (like_key p s) likes r =
    Distinct r.2
    × ((q : ℤ)
        → like_fact q r.2
          ≡ like_fact q likes +ℤ (if int_beq p q then r.1 +ℤ missed d r.0 else pos 0))

-- What a statement changes.
abbrev change_by : ℤ → Written → ℤ
change_by d (changed b) = if b then d else pos 0
change_by d (failed e) = pos 0
change_by d (unheard b) = if b then d else pos 0

abbrev IsChanged : ℤ → LikeKey → Likes → Written × Likes → Type 0
IsChanged d (like_key p s) likes r =
    Distinct r.1
    × ((q : ℤ)
        → like_fact q r.1 ≡ like_fact q likes +ℤ (if int_beq p q then change_by d r.0 else pos 0))
