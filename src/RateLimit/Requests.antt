-- ===== src/RateLimit/Requests.antt =====
-- What becomes of a request.
use comment_project.Common.{ℕ, ◌≡◌, ◌⊎◌, Bool, true, false, List, [], ◌∷◌}
use comment_project.Common.Text.{Text, codes}
use comment_project.RateLimit.{Numbers, Bucket, Buckets, is_valid, Decision, allowed}
use comment_project.RateLimit.Keys.{Request, Net, Limiter, bucket, buckets_for_request}
use comment_project.RateLimit.Script.{Granted, Refused}

module _ (n : Numbers) (l : Limiter n) (default : is_valid n l.default_rule ≡ true) where
  abbrev fixed : Text → Text → Text → List (Bucket n)
  fixed ip device api =
      bucket n l (codes "ip") ip api
      ∷ bucket n l (codes "device") device api
      ∷ bucket n l (codes "api") (codes "global") api
      ∷ []

  -- What the filter makes of a request where the script answers.
  abbrev pub Filtered : Net → Bool → Request → ℕ → Buckets n → Bool × Buckets n → Type 0
  Filtered net include_user r now s result =
      ((result.0 ≡ true)
        × Granted n now (buckets_for_request n l net include_user r) s (allowed, result.1))
      ⊎ ((d : Decision n) × (result.0 ≡ false)
          × Refused n now (buckets_for_request n l net include_user r) s (d, result.1))
