-- ===== src/LikeFlow.antt =====
-- From a like to the booked count: the requests of comment-service (internal/data/student.go and
-- post_like_counter.go) and the steps of comment-task, in any order.
pub mod Balance
pub mod Tests
use comment_project.Common.{ℕ, ◌≡◌, Bool, true, false, ◌++◌, Option, List, [], ◌∷◌, if◌then◌else◌}
use comment_project.Common.Int.{ℤ, pos, negsuc, ◌+ℤ◌, int_beq}
use comment_project.Common.Outcome.{Outcome, answers, fails, unheard}
use comment_project.Counter.State.{Kind, post_like, Store}
use comment_project.Counter.Read.{enqueue_delta}
use comment_project.Counter.Ledger
use comment_project.Counter.Ledger.{added, clamped}
use comment_project.Facts.LikeCount.{missed}
use comment_project.Facts.Likes.{LikeKey, Likes, Lock, Attempt, Liked, like_post, unlike_post}

-- A delta of a post that a request has recorded.
pub record Delta : Type 0 where
  pub post : ℤ
  pub amount : ℤ

-- The facts, the counters, the deltas of requests that have not enqueued them yet, and those that are
-- lost: their enqueue failed, or the answer of their statement was lost.
pub record System : Type 0 where
  pub likes : Likes
  pub store : Store
  pub in_flight : List Delta
  pub lost : List Delta

abbrev pub post_of : LikeKey → ℤ
post_of (LikeKey.like_key p s) = p

-- The like or the unlike of a request, with how its calls end.
pub record LikeRequest : Type 0 where
  pub is_like : Bool
  pub lock : Lock
  pub cached : Option Bool
  pub attempts : List Attempt
  pub key : LikeKey

abbrev pub written : LikeRequest → Likes → Liked × ℤ × Likes
written r likes =
    if r.is_like
    then like_post r.lock r.cached r.attempts r.key likes
    else unlike_post r.lock r.cached r.attempts r.key likes

-- the change of the likes that the request makes where it succeeds
abbrev pub sign : LikeRequest → ℤ
sign r = if r.is_like then pos 1 else negsuc 0

unfoldable pub write_request : LikeRequest → System → System
write_request r s = record s {
  likes = (written r s.likes).2;
  in_flight = record { post = post_of r.key; amount = (written r s.likes).1 } ∷ s.in_flight;
  lost = record { post = post_of r.key; amount = missed (sign r) (written r s.likes).0 } ∷ s.lost;
}

abbrev pub lost_after : Outcome → Delta → List Delta → List Delta
lost_after answers d lost = lost
lost_after fails d lost = d ∷ lost
lost_after unheard d lost = lost

unfoldable pub enqueue_one : Outcome → Delta → ℕ → List Delta → System → System
unfolding enqueue_delta
enqueue_one o d now rest s = record s {
  store = record (s.store) { redis = (enqueue_delta o d.post d.amount now s.store.redis).1 };
  in_flight = rest;
  lost = lost_after o d s.lost;
}

-- A request writes its like; a request enqueues its delta; or the task takes a step that adds none.
pub data Step (s : System) : System → Type 0 where
  write : (r : LikeRequest) → Step s (write_request r s)
  send :
      (o : Outcome) (d : Delta) (now : ℕ) (before after : List Delta)
      → s.in_flight ≡ before ++ d ∷ after
      → Step s (enqueue_one o d now (before ++ after) s)
  work :
      (t : Store) (step : Ledger.Step post_like s.store t)
      → ((q : ℤ) → added step q ≡ pos 0)
      → Step s (record s { store = t })

pub data Run (s : System) : System → Type 0 where
  here : Run s s
  next : {t u : System} → Run s t → Step t u → Run s u

-- What the deltas of a list add to a post.
unfoldable pub due : ℤ → List Delta → ℤ
due q [] = pos 0
due q (d ∷ ds) = (if int_beq d.post q then d.amount else pos 0) +ℤ due q ds

-- What the bookings of a step, and of a run, leave out below zero.
unfoldable pub step_clamped : {s t : System} → Step s t → ℤ → ℤ
unfolding clamped
step_clamped (work t step none_added) q = clamped step q
step_clamped _ q = pos 0

unfoldable pub run_clamped : {s t : System} → Run s t → ℤ → ℤ
unfolding step_clamped
run_clamped here q = pos 0
run_clamped (next r st) q = run_clamped r q +ℤ step_clamped st q
