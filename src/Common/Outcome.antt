-- ===== src/Common/Outcome.antt =====
-- How a call of Redis or MySQL ends: it answers; the request fails and does nothing; or it takes
-- effect and the answer is lost.
pub data Outcome : Type 0 where
  answers fails unheard : Outcome
