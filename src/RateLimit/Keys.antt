-- ===== src/RateLimit/Keys.antt =====
-- limiter.go: the buckets of a request, and their keys.
use comment_project.Common.{
  ℕ, ◌+◌, Bool, true, ◌&&◌, ◌||◌, ◌++◌, ◌==◌, Option, none, some, List, [], ◌∷◌, map, leb,
  if◌then◌else◌,
}
use comment_project.Common.Int.{ℤ, is_positive}
use comment_project.Common.Text.{Text, codes, parse_int, format_int}
use comment_project.Common.Trim.{trim_space, is_empty, split}
use comment_project.RateLimit.{Numbers, Rule, Bucket, Buckets, is_valid, allow, is_served}
use comment_project.Common.Outcome.{Outcome}

-- What the limiter reads of a request; a header that is not there is empty.
pub record Request : Type 0 where
  pub method : Text
  pub path : Text
  pub header : Text → Text
  pub remote_addr : Text
  pub user_id : Option ℤ

-- The functions of the package net: an address as it prints it, and the host before a port.
pub record Net : Type 0 where
  pub parse_ip : Text → Option Text
  pub host_of : Text → Option Text

abbrev pub is_separator : ℕ → Bool
is_separator c = c == b' ' || c == 9 || c == 10 || c == 13 || c == b':'

abbrev pub replace_separator : ℕ → ℕ
replace_separator c = if is_separator c then b'_' else c

unfoldable pub replace_separators : Text → Text
replace_separators [] = []
replace_separators (c ∷ s) = replace_separator c ∷ replace_separators s

-- `sanitizeKeyPart`
unfoldable pub sanitize : Text → Text
unfolding trim_space replace_separators
sanitize value =
    if is_empty (trim_space value) then codes "unknown" else replace_separators (trim_space value)

abbrev pub strip_left : ℕ → Text → Text
strip_left c [] = []
strip_left c (d ∷ s) = let rest = strip_left c s in if d == c then rest else d ∷ s

abbrev pub cons_stripped : ℕ → ℕ → Text → Text
cons_stripped c d [] = if d == c then [] else d ∷ []
cons_stripped c d (e ∷ s) = d ∷ e ∷ s

abbrev pub strip_right : ℕ → Text → Text
strip_right c [] = []
strip_right c (d ∷ s) = cons_stripped c d (strip_right c s)

unfoldable pub to_lower : Text → Text
to_lower [] = []
to_lower (c ∷ s) = (if leb b'A' c && leb c b'Z' then c + 32 else c) ∷ to_lower s

unfoldable pub join : ℕ → List Text → Text
join sep [] = []
join sep (p ∷ []) = p
join sep (p ∷ q ∷ ps) = p ++ sep ∷ join sep (q ∷ ps)

abbrev pub api_part : Text → Text
api_part part = elim (parse_int part) [ none ↦ part | some id ↦ codes "{id}" ]

-- `apiName`
unfoldable pub api_name : Request → Text
unfolding to_lower join split parse_int
api_name r = to_lower (
    r.method
    ++ b':' ∷ join b'/' (map api_part (split b'/' (strip_right b'/' (strip_left b'/' r.path)))))

abbrev pub first_part : List Text → Text
first_part [] = []
first_part (p ∷ ps) = p

-- the address in a header
unfoldable pub header_ip : Net → Request → Text → Option Text
unfolding trim_space split
header_ip net r name =
    let value = trim_space (r.header name) in
    if is_empty value then none else net.parse_ip (trim_space (first_part (split b',' value)))

-- `clientIP`
unfoldable pub client_ip : Net → Request → Text
unfolding header_ip
client_ip net r = elim (header_ip net r (codes "X-Forwarded-For")) [
  | some ip ↦ ip
  | none ↦ elim (header_ip net r (codes "X-Real-IP")) [
    | some ip ↦ ip
    | none ↦ elim (net.host_of r.remote_addr) [
      | some host ↦ host
      | none ↦ elim (net.parse_ip r.remote_addr) [ some ip ↦ ip | none ↦ codes "unknown" ]
    ]
  ]
]

-- `deviceID`; the names of its two headers are the same to net/http.
unfoldable pub device_id : Request → Text
unfolding trim_space
device_id r =
    let value = trim_space (r.header (codes "X-Device-ID")) in
    if is_empty value then codes "unknown" else value

-- the key of a bucket
unfoldable pub bucket_key : Text → Text → Text → Text
unfolding sanitize
bucket_key dimension id api =
    codes "rate" ++ (b':' ∷ (dimension ++ (b':' ∷ (sanitize id ++ (b':' ∷ sanitize api)))))

module _ (n : Numbers) where
  -- A limiter that is enabled.
  pub record Limiter : Type 0 where
    pub rules : Text → Rule n
    pub default_rule : Rule n

  abbrev pub rule_of : Limiter → Text → Rule n
  rule_of l dimension = if is_valid n (l.rules dimension) then l.rules dimension else l.default_rule

  -- `bucket`
  unfoldable pub bucket : Limiter → Text → Text → Text → Bucket n
  unfolding bucket_key
  bucket l dimension id api = record {
    dimension = dimension;
    key = bucket_key dimension id api;
    rule = rule_of l dimension;
  }

  abbrev pub user_bucket : Limiter → Option ℤ → Text → List (Bucket n)
  user_bucket l none api = []
  user_bucket l (some id) api =
      if is_positive id then bucket l (codes "user") (format_int id) api ∷ [] else []

  -- `bucketsForRequest`
  unfoldable pub buckets_for_request : Limiter → Net → Bool → Request → List (Bucket n)
  unfolding bucket client_ip device_id api_name
  buckets_for_request l net include_user r =
      (if include_user then user_bucket l r.user_id (api_name r) else [])
      ++ (bucket l (codes "ip") (client_ip net r) (api_name r)
          ∷ bucket l (codes "device") (device_id r) (api_name r)
          ∷ bucket l (codes "api") (codes "global") (api_name r)
          ∷ [])

  -- The requests of a filter: `AuthFilter` leaves the user out, `StudentFilter` does not.
  unfoldable pub filter_request :
      Bool → Limiter → Net → Bool → Request → Outcome → ℕ → Buckets n → Bool × Buckets n
  unfolding buckets_for_request allow is_served
  filter_request enabled l net require_user r o now s =
      if enabled
      then (
        is_served n (allow n o (buckets_for_request l net require_user r) now s).0,
        (allow n o (buckets_for_request l net require_user r) now s).1,
      )
      else (true, s)
