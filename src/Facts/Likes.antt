-- ===== src/Facts/Likes.antt =====
-- data/student.go, the likes: `LikePost`, `UnlikePost` and the retries of their statement.
use comment_project.Common.{
  ℕ, zero, suc, Bool, true, false, ◌&&◌, Option, none, some, List, [], ◌∷◌, ◌≡◌, ◌↔◌, arith,
  if◌then◌else◌,
}
use comment_project.Common.Int.{ℤ, pos, negsuc, int_beq, int_beq_iff, int_eq}
use comment_project.Common.Dict.{Dict, Eq, lookup}
use comment_project.Common.Table.{add, adjust}

-- The unique key of `post_like`: the post and the student.
pub data LikeKey : Type 0 where
  like_key : ℤ → ℤ → LikeKey

abbrev pub like_key_beq : LikeKey → LikeKey → Bool
like_key_beq (like_key p s) (like_key q t) = int_beq p q && int_beq s t

pub like_key_beq_iff : (a b : LikeKey) → (like_key_beq a b ≡ true) ↔ (a ≡ b)
like_key_beq_iff (like_key p s) (like_key q t) = ground (arith, int_beq_iff p q, int_beq_iff s t)

instance abbrev pub like_key_eq : Eq LikeKey
like_key_eq = record { beq = like_key_beq; beq_iff = like_key_beq_iff }

-- Whether a row has status 1.
abbrev pub Likes : Type 0
Likes = Dict LikeKey Bool

pub data LikeError : Type 0 where
  lock_busy cancelled not_liked like_busy db_error : LikeError

-- `lockPostLike`: a lock, no lock within the time, a cancelled request, or a Redis error, after which
-- the request goes on without a lock.
pub data Lock : Type 0 where
  locked busy_lock cancelled_lock no_redis : Lock

-- How an attempt of the write ends: the statement runs; MySQL asks to try again (a duplicate entry, a
-- lock timeout or a deadlock) and the request waits, or is cancelled while it waits; another error
-- without an effect; or the statement runs and its answer is lost, which is such an error to the code.
pub data Attempt : Type 0 where
  runs again again_cancelled breaks runs_unheard : Attempt

-- The result of a statement; of one whose answer is lost, whether it changed the table, which the code
-- is not told.
pub data Written : Type 0 where
  changed : Bool → Written
  failed : LikeError → Written
  unheard : Bool → Written

abbrev pub lose_answer : Written → Written
lose_answer (changed b) = unheard b
lose_answer (failed e) = unheard false
lose_answer (unheard b) = unheard b

-- The attempts after the first; `postLikeTxnMaxAttempts` is 5.
abbrev pub retries : ℕ
retries = 4

-- `runPostLikeWriteWithRetry` with `n + 1` attempts left; the statement `write` gives its result and
-- the table after it. Without further attempts on the list the request is cancelled.
unfoldable pub write_with_retry :
    (Likes → Written × Likes) → ℕ → List Attempt → Likes → Written × Likes
write_with_retry write n [] likes = (failed cancelled, likes)
write_with_retry write n (runs ∷ attempts) likes = write likes
write_with_retry write n (breaks ∷ attempts) likes = (failed db_error, likes)
write_with_retry write n (runs_unheard ∷ attempts) likes =
    let r = write likes in (lose_answer r.0, r.1)
write_with_retry write zero (again ∷ attempts) likes = (failed like_busy, likes)
write_with_retry write (suc n) (again ∷ attempts) likes = write_with_retry write n attempts likes
write_with_retry write zero (again_cancelled ∷ attempts) likes = (failed like_busy, likes)
write_with_retry write (suc n) (again_cancelled ∷ attempts) likes = (failed cancelled, likes)

abbrev pub activate : Bool → Bool
activate active = true

abbrev pub deactivate : Bool → Bool
deactivate active = false

-- `INSERT INTO post_like … ON DUPLICATE KEY UPDATE`: a row that is active already is not affected.
unfoldable pub like_statement : LikeKey → Likes → Written × Likes
like_statement key likes = elim (lookup key likes) [
  | none ↦ (changed true, add key true likes)
  | some active ↦
      if active then (changed false, likes) else (changed true, adjust key activate likes)
]

-- `UPDATE post_like SET status = 0 … AND status = 1`
unfoldable pub unlike_statement : LikeKey → Likes → Written × Likes
unlike_statement key likes = elim (lookup key likes) [
  | none ↦ (failed not_liked, likes)
  | some active ↦
      if active then (changed true, adjust key deactivate likes) else (failed not_liked, likes)
]

-- The result of a request; `broken` is a database error after a statement whose answer was lost.
pub data Liked : Type 0 where
  done : Liked
  like_error : LikeError → Liked
  broken : Bool → Liked

-- The end of both operations: the result, the delta that is recorded for the post, and the table.
unfoldable pub record_change : ℤ → Written × Likes → Liked × ℤ × Likes
record_change d (changed b, likes) = (done, if b then d else pos 0, likes)
record_change d (failed e, likes) = (like_error e, pos 0, likes)
record_change d (unheard b, likes) = (broken b, pos 0, likes)

-- `LikePost`, with the status that the cache holds, if it answers and has one.
unfoldable pub like_post : Lock → Option Bool → List Attempt → LikeKey → Likes → Liked × ℤ × Likes
unfolding write_with_retry like_statement record_change
like_post busy_lock cached attempts key likes = (like_error lock_busy, pos 0, likes)
like_post cancelled_lock cached attempts key likes = (like_error cancelled, pos 0, likes)
like_post _ (some true) attempts key likes = (done, pos 0, likes)
like_post _ _ attempts key likes =
    record_change (pos 1) (write_with_retry (like_statement key) retries attempts likes)

-- `UnlikePost`
unfoldable pub unlike_post : Lock → Option Bool → List Attempt → LikeKey → Likes → Liked × ℤ × Likes
unfolding write_with_retry unlike_statement record_change
unlike_post busy_lock cached attempts key likes = (like_error lock_busy, pos 0, likes)
unlike_post cancelled_lock cached attempts key likes = (like_error cancelled, pos 0, likes)
unlike_post _ (some false) attempts key likes = (like_error not_liked, pos 0, likes)
unlike_post _ _ attempts key likes =
    record_change (negsuc 0) (write_with_retry (unlike_statement key) retries attempts likes)
