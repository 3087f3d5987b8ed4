-- ===== src/RateLimit/Distinct.antt =====
-- The keys of the buckets of a request.
use comment_project.Common.{
  ◌≡◌, ◌≢◌, ap, Bool, true, false, ◌++◌, Option, none, some, [], ◌∷◌, All, arith, Bool-cases, inl,
  inr,
}
use comment_project.Common.Int.{ℤ, is_positive}
use comment_project.Common.Text.{Text, codes, cut, cut-append, format_int}
use comment_project.Common.Trim.{trim_space, is_empty}
use comment_project.RateLimit.{Numbers}
use comment_project.RateLimit.Keys.{
  Request, Net, replace_separators, sanitize, api_name, client_ip, device_id, bucket_key, Limiter,
  bucket, user_bucket, buckets_for_request,
}
use comment_project.RateLimit.Script.{KeysDistinct}

-- No part of a key holds the colon that separates the parts.
abbrev Undivided : Text → Type 0
Undivided s = All (λ c. c ≢ b':') s

replace_separators-Undivided : (s : Text) → Undivided (replace_separators s)
unfolding replace_separators
replace_separators-Undivided [] = tt
replace_separators-Undivided (c ∷ s) = ((λ e. ground (arith, e)), replace_separators-Undivided s)

unknown-Undivided : Undivided (codes "unknown")
unknown-Undivided = (
  (λ e. omega (arith, e)),
  (
    (λ e. omega (arith, e)),
    (
      (λ e. omega (arith, e)),
      (
        (λ e. omega (arith, e)),
        ((λ e. omega (arith, e)), ((λ e. omega (arith, e)), ((λ e. omega (arith, e)), tt))),
      ),
    ),
  ),
)

pub sanitize-Undivided : (value : Text) → Undivided (sanitize value)
unfolding sanitize
sanitize-Undivided value = elim (Bool-cases (is_empty (trim_space value))) [
  | inl empty ↦ rw empty unknown-Undivided
  | inr full ↦ rw full (replace_separators-Undivided (trim_space value))
]

append-injective :
    (p q s t : Text) → Undivided p → Undivided q → p ++ b':' ∷ s ≡ q ++ b':' ∷ t → (p ≡ q) × (s ≡ t)
append-injective p q s t h k e =
    let pairs = cut-append b':' p s h in
    let other = cut-append b':' q t k in
    (cc (pairs, other, ap (cut b':') e), cc (pairs, other, ap (cut b':') e))

rate-Undivided : Undivided (codes "rate")
rate-Undivided = (
  (λ e. omega (arith, e)),
  ((λ e. omega (arith, e)), ((λ e. omega (arith, e)), ((λ e. omega (arith, e)), tt))),
)

-- Two buckets share a key only if their dimensions and the sanitized parts of their keys are the same.
pub bucket_key-injective :
    (dimension other id id' api api' : Text)
    → Undivided dimension
    → Undivided other
    → bucket_key dimension id api ≡ bucket_key other id' api'
    → (dimension ≡ other) × (sanitize id ≡ sanitize id') × (sanitize api ≡ sanitize api')
unfolding bucket_key
bucket_key-injective dimension other id id' api api' h k e =
    let (_, rest) =
      append-injective (codes "rate") (codes "rate") _ _ rate-Undivided rate-Undivided e in
    let (same, tail) = append-injective dimension other _ _ h k rest in
    let (ids, apis) =
      append-injective (sanitize id) (sanitize id') _ _ (sanitize-Undivided id)
        (sanitize-Undivided id') tail in
    (same, ids, apis)

-- Buckets of different dimensions have different keys.
dimensions-keys :
    (dimension other id id' api api' : Text)
    → Undivided dimension
    → Undivided other
    → dimension ≢ other
    → bucket_key dimension id api ≢ bucket_key other id' api'
dimensions-keys dimension other id id' api api' h k differ e =
    differ (bucket_key-injective dimension other id id' api api' h k e).0

user-Undivided : Undivided (codes "user")
user-Undivided = (
  (λ e. omega (arith, e)),
  ((λ e. omega (arith, e)), ((λ e. omega (arith, e)), ((λ e. omega (arith, e)), tt))),
)

ip-Undivided : Undivided (codes "ip")
ip-Undivided = ((λ e. omega (arith, e)), ((λ e. omega (arith, e)), tt))

device-Undivided : Undivided (codes "device")
device-Undivided = (
  (λ e. omega (arith, e)),
  (
    (λ e. omega (arith, e)),
    (
      (λ e. omega (arith, e)),
      ((λ e. omega (arith, e)), ((λ e. omega (arith, e)), ((λ e. omega (arith, e)), tt))),
    ),
  ),
)

api-Undivided : Undivided (codes "api")
api-Undivided = ((λ e. omega (arith, e)), ((λ e. omega (arith, e)), ((λ e. omega (arith, e)), tt)))

module _ (n : Numbers) where
  fixed-KeysDistinct :
      (l : Limiter n) (ip device api : Text)
      → KeysDistinct n (
          bucket n l (codes "ip") ip api
          ∷ bucket n l (codes "device") device api
          ∷ bucket n l (codes "api") (codes "global") api
          ∷ [])
  unfolding bucket
  fixed-KeysDistinct l ip device api = (
    (
      dimensions-keys (codes "ip") (codes "device") ip device api api ip-Undivided device-Undivided
          (λ e. ground (arith, e)),
      (
        dimensions-keys (codes "ip") (codes "api") ip (codes "global") api api ip-Undivided
            api-Undivided (λ e. ground (arith, e)),
        tt,
      ),
    ),
    (
      (
        dimensions-keys (codes "device") (codes "api") device (codes "global") api api
            device-Undivided api-Undivided (λ e. ground (arith, e)),
        tt,
      ),
      (tt, tt),
    ),
  )

  user-KeysDistinct :
      (l : Limiter n) (user : Option ℤ) (ip device api : Text)
      → KeysDistinct n (
          user_bucket n l user api
          ++ (bucket n l (codes "ip") ip api
              ∷ bucket n l (codes "device") device api
              ∷ bucket n l (codes "api") (codes "global") api
              ∷ []))
  unfolding bucket
  user-KeysDistinct l none ip device api = fixed-KeysDistinct l ip device api
  user-KeysDistinct l (some id) ip device api = elim (Bool-cases (is_positive id)) [
    | inr anonymous ↦ rw anonymous (fixed-KeysDistinct l ip device api)
    | inl known ↦
        let user = format_int id in
        rw known (
          (
            dimensions-keys (codes "user") (codes "ip") user ip api api user-Undivided ip-Undivided
                (λ e. ground (arith, e)),
            (
              dimensions-keys (codes "user") (codes "device") user device api api user-Undivided
                  device-Undivided (λ e. ground (arith, e)),
              (
                dimensions-keys (codes "user") (codes "api") user (codes "global") api api
                    user-Undivided api-Undivided (λ e. ground (arith, e)),
                tt,
              ),
            ),
          ),
          fixed-KeysDistinct l ip device api,
        )
  ]

  -- The buckets of a request have distinct keys.
  pub buckets_for_request-KeysDistinct :
      (l : Limiter n) (net : Net) (include_user : Bool) (r : Request)
      → KeysDistinct n (buckets_for_request n l net include_user r)
  unfolding buckets_for_request
  buckets_for_request-KeysDistinct l net false r =
      fixed-KeysDistinct l (client_ip net r) (device_id r) (api_name r)
  buckets_for_request-KeysDistinct l net true r =
      user-KeysDistinct l r.user_id (client_ip net r) (device_id r) (api_name r)
