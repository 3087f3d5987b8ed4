-- ===== src/RateLimit/Tests.antt =====
-- A limiter over whole numbers, and two requests.
use comment_project.Common.{ℕ, ◌-◌, ◌+◌, ◌*◌, ◌/◌, refl, none, some, [], ◌∷◌, arith, leb}
use comment_project.Common.Int.{pos}
use comment_project.Common.Dict.{text_eq, lookup, insert}
use comment_project.Common.Outcome.{answers}
use comment_project.Common.Text.{Text, codes}
use comment_project.RateLimit.{Numbers, Rule, Bucket, Buckets, allow}
use comment_project.RateLimit.Keys.{Request, Net, Limiter, bucket}
use comment_project.RateLimit.Bounds.{IsNumbers, IsConfigured, Within, insert-Within, allow-Within}

abbrev whole : Numbers
whole = record {
  Num = ℕ;
  zero = 0;
  one = 1;
  add = ◌+◌;
  sub = ◌-◌;
  mul = ◌*◌;
  div = ◌/◌;
  le = leb;
  millis = λ n. n;
  ceil = λ n. n;
  reread = λ n. n;
}

whole-IsNumbers : IsNumbers whole
whole-IsNumbers = record {
  le_refl = λ a. ground arith;
  le_total = λ a b h. ground (arith, h);
  le_trans = λ a b c h k. ground (arith, h, k);
  sub_one_pos = λ a h. ground arith;
  sub_one_le = λ a. ground arith;
  reread_mono = λ a b h. h;
}

abbrev five : Rule whole
five = record { rate = 1; capacity = 5 }

abbrev limiter : Limiter whole
limiter = record { rules = λ dimension. five; default_rule = five }

abbrev net : Net
net = record { parse_ip = λ t. some t; host_of = λ t. none }

abbrev request : Request
request = record {
  method = codes "GET";
  path = codes "/student/posts/17/";
  header = λ name. [];
  remote_addr = codes "10.0.0.7";
  user_id = some (pos 3);
}

abbrev user_3 : Bucket whole
user_3 = bucket whole limiter (codes "user") (codes "3") (codes "get:x")

abbrev half_full : Buckets whole
half_full = insert user_3.key (record { tokens = 2; last_refill_time = 900; ttl = 10000 }) []

abbrev all_five : Text → ℕ
all_five key = 5

none-Within : Within whole whole-IsNumbers all_five []
unfolding lookup
none-Within key saved h = cc h

half_full-Within : Within whole whole-IsNumbers all_five half_full
half_full-Within =
    insert-Within whole whole-IsNumbers all_five user_3.key
      (record { tokens = 2; last_refill_time = 900; ttl = 10000 }) [] none-Within
      (record { at_least = refl; at_most = refl })

user_3-IsConfigured : IsConfigured whole whole-IsNumbers all_five user_3
unfolding bucket
user_3-IsConfigured = record { own = refl; kept = refl }

allow-Within_example :
    Within whole whole-IsNumbers all_five (allow whole answers (user_3 ∷ []) 1000 half_full).1
allow-Within_example =
    allow-Within whole whole-IsNumbers all_five answers (user_3 ∷ []) 1000 half_full
      half_full-Within (user_3-IsConfigured, tt)
