-- ===== src/LikeFlow/Balance.antt =====
-- The number of likes is what is accounted for, what is under way, and what was lost.
use comment_project.Common.{◌≡◌}
use comment_project.Common.Int.{ℤ, ◌+ℤ◌, int_eq}
use comment_project.Common.Dict.{Distinct}
use comment_project.Common.Outcome.{Outcome}
use comment_project.Counter.State.{post_like}
use comment_project.Counter.Ledger.{Inv, account}
use comment_project.Facts.Likes.{Likes, like_key_eq}
use comment_project.Facts.LikeCount.{like_fact}
use comment_project.LikeFlow.{System, due}

-- The keys of the likes are distinct and the ledger's invariant holds.
pub record IsSound (s : System) : Type 0 where
  pub distinct : Distinct s.likes
  pub ledger : Inv post_like s.store

-- What is accounted for, under way or lost of a post.
abbrev pub known : ℤ → System → ℤ
known q s = account post_like q s.store +ℤ due q s.in_flight +ℤ due q s.lost

-- The likes of a post grow by as much as what is known of them, but for what is clamped.
abbrev Grows : System → System → ℤ → ℤ → Type 0
Grows s t q extra = like_fact q t.likes +ℤ known q s +ℤ extra ≡ like_fact q s.likes +ℤ known q t
