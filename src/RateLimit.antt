-- ===== src/RateLimit.antt =====
-- comment-student/internal/ratelimit/limiter.go: the token buckets of a request, checked and taken from
-- by one Lua script.
pub mod Keys
pub mod Script
pub mod Distinct
pub mod Requests
pub mod Bounds
pub mod Tests
use comment_project.Common.{
  ℕ, ◌+◌, ◌-◌, Bool, true, false, not, ◌&&◌, ◌||◌, Option, none, some, List, [], ◌∷◌, ltb, leb,
  get_elem?, if◌then◌else◌,
}
use comment_project.Common.Dict.{Dict, text_eq, lookup, insert}
use comment_project.Common.Outcome.{Outcome, answers, fails, unheard}
use comment_project.Common.Text.{Text, codes}

-- The numbers of Lua, which are doubles: what the script does with them. `reread` is what `tonumber`
-- gives for the text under which Redis keeps a number, and `millis` a number of milliseconds.
pub record Numbers : Type 1 where
  pub Num : Type 0
  pub zero : Num
  pub one : Num
  pub add : Num → Num → Num
  pub sub : Num → Num → Num
  pub mul : Num → Num → Num
  pub div : Num → Num → Num
  pub le : Num → Num → Bool
  pub millis : ℕ → Num
  pub ceil : Num → ℕ
  pub reread : Num → Num

module _ (n : Numbers) where
  pub record Rule : Type 0 where
    pub rate : n.Num
    pub capacity : n.Num

  pub record Bucket : Type 0 where
    pub dimension : Text
    pub key : Text
    pub rule : Rule

  -- A hash of Redis, with the life that it was given.
  pub record Saved : Type 0 where
    pub tokens : n.Num
    pub last_refill_time : ℕ
    pub ttl : ℕ

  abbrev pub Buckets : Type 0
  Buckets = Dict Text Saved

  abbrev pub lt : n.Num → n.Num → Bool
  lt a b = not (n.le b a)

  -- `math.min`
  abbrev pub min_of : n.Num → n.Num → n.Num
  min_of a b = if lt b a then b else a

  abbrev pub seconds : ℕ → n.Num
  seconds ms = n.div (n.millis ms) (n.millis 1000)

  -- the tokens of a bucket at a time, and the time that goes with them
  unfoldable pub refilled : ℕ → Rule → Option Saved → n.Num × ℕ
  refilled now rule none = (rule.capacity, now)
  refilled now rule (some s) =
      if ltb s.last_refill_time now
      then (
        min_of rule.capacity
            (n.add (n.reread s.tokens) (n.mul (seconds (now - s.last_refill_time)) rule.rate)),
        now,
      )
      else (n.reread s.tokens, s.last_refill_time)

  pub data Checked : Type 0 where
    blocked : ℕ → ℕ → n.Num → Checked
    enough : List (n.Num × ℕ) → Checked

  abbrev pub wait_ms : Rule → n.Num → ℕ
  wait_ms rule current = n.ceil (n.mul (n.div (n.sub n.one current) rule.rate) (n.millis 1000))

  abbrev pub cons_checked : n.Num × ℕ → Checked → Checked
  cons_checked x (blocked i wait current) = blocked i wait current
  cons_checked x (enough xs) = enough (x ∷ xs)

  -- the first loop of the script, from the bucket of that number on
  unfoldable pub check : ℕ → List Bucket → ℕ → Buckets → Checked
  unfolding refilled
  check i [] now s = enough []
  check i (b ∷ bs) now s =
      let x = refilled now b.rule (lookup b.key s) in
      let rest = check (i + 1) bs now s in
      if lt x.0 n.one then blocked i (wait_ms b.rule x.0) x.0 else cons_checked x rest

  abbrev pub ttl_of : Rule → ℕ
  ttl_of rule = n.ceil (n.mul (n.div rule.capacity rule.rate) (n.millis 2000))

  abbrev pub taken : Rule → n.Num × ℕ → Saved
  taken rule x = record { tokens = n.sub x.0 n.one; last_refill_time = x.1; ttl = ttl_of rule }

  -- its second loop
  unfoldable pub take_tokens : List Bucket → List (n.Num × ℕ) → Buckets → Buckets
  take_tokens (b ∷ bs) (x ∷ xs) s = take_tokens bs xs (insert b.key (taken b.rule x) s)
  take_tokens bs xs s = s

  pub data ScriptReply : Type 0 where
    refuses : ℕ → ℕ → ScriptReply
    grants : ScriptReply

  abbrev pub after_check : List Bucket → Checked → Buckets → ScriptReply × Buckets
  after_check bs (blocked i wait current) s = (refuses i wait, s)
  after_check bs (enough xs) s = (grants, take_tokens bs xs s)

  -- `luaMultiBucket`, for one token of each bucket
  unfoldable pub multi_bucket : List Bucket → ℕ → Buckets → ScriptReply × Buckets
  unfolding check take_tokens
  multi_bucket bs now s = after_check bs (check 1 bs now s) s

  pub data Decision : Type 0 where
    allowed : Decision
    limited : Text → ℕ → Decision
    invalid_rule : Text → Decision
    redis_error : Decision

  abbrev pub is_valid : Rule → Bool
  is_valid rule = lt n.zero rule.rate && lt n.zero rule.capacity

  -- the first bucket with a rule that is not valid
  abbrev pub invalid_bucket : List Bucket → Option Text
  invalid_bucket [] = none
  invalid_bucket (b ∷ bs) =
      let rest = invalid_bucket bs in if is_valid b.rule then rest else some b.dimension

  abbrev pub dimension_of : Option Bucket → Text
  dimension_of none = codes "unknown"
  dimension_of (some b) = b.dimension

  abbrev pub decision : List Bucket → ScriptReply → Decision
  decision bs grants = allowed
  decision bs (refuses i wait) =
      limited (dimension_of (get_elem? bs (i - 1))) (if ltb wait 1000 then 1000 else wait)

  abbrev pub after_eval :
      Outcome → List Bucket → ScriptReply × Buckets → Buckets → Decision × Buckets
  after_eval answers bs r s = (decision bs r.0, r.1)
  after_eval fails bs r s = (redis_error, s)
  after_eval unheard bs r s = (redis_error, r.1)

  abbrev pub if_valid : Option Text → Buckets → Decision × Buckets → Decision × Buckets
  if_valid (some dimension) s r = (invalid_rule dimension, s)
  if_valid none s r = r

  -- `Allow`, of a limiter that is enabled
  unfoldable pub allow : Outcome → List Bucket → ℕ → Buckets → Decision × Buckets
  unfolding multi_bucket
  allow o [] now s = (allowed, s)
  allow o (b ∷ bs) now s =
      if_valid (invalid_bucket (b ∷ bs)) s (after_eval o (b ∷ bs) (multi_bucket (b ∷ bs) now s) s)

  -- `filter`: only a limit refuses a request; an error lets it pass.
  unfoldable pub is_served : Decision → Bool
  is_served allowed = true
  is_served (limited dimension retry_after) = false
  is_served (invalid_rule dimension) = true
  is_served redis_error = true
