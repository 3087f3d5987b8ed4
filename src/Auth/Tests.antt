-- ===== src/Auth/Tests.antt =====
-- Requests at concrete inputs, with codings of our own in the place of the real ones.
use comment_project.Common.{
  leb, ◌/◌, ◌+◌, ◌*◌, ◌≡◌, ◌≢◌, refl, arith, true, Option, none, some, [], ◌∷◌, ◌++◌, if◌then◌else◌,
}
use comment_project.Common.Int.{pos}
use comment_project.Common.Dict.{text_eq, text_beq, lookup}
use comment_project.Common.Table.{add}
use comment_project.Common.Text.{Text, codes}
use comment_project.Common.Trim.{trim_space}
use comment_project.Common.Outcome.{answers}
use comment_project.Auth.State.{Db, Result, ok, Claims, TokenReply}
use comment_project.Auth.Usecase.{
  Crypto, Draws, issue_and_store_tokens, refresh, logout, is_role, refresh_token_ttl, second,
  sign_access_token, signing_secret,
}
use comment_project.Auth.Verify.{verify_access_token, granted, denied, expired}
use comment_project.Auth.SingleUse.{start}
use comment_project.Auth.Spent.{refresh_once, refresh-logout}
use comment_project.Auth.Access.{IsCoding, IsDrawn, verify-sign_access_token}
use comment_project.Auth.Renewal.{IsLive, issue-IsLive, refresh-IsLive}

abbrev header : Text
header = codes "h"

abbrev encode : Claims → Text
encode c = c.role

abbrev signature : Text → Text → Text
signature secret input = codes "s"

abbrev toy : Crypto
toy = record {
  hash_token = λ t. b'#' ∷ t;
  generate_from_password = λ t. some t;
  is_password = text_beq;
  encode_claims = λ c. header ++ b'.' ∷ encode c;
  mac = signature;
}

abbrev student : Text
student = codes "student"

abbrev claims : Claims
claims = record {
  token_id = codes "a1";
  user_id = pos 5;
  role = student;
  expires_at = 900;
  issued_at = 0;
}

abbrev decode : Text → Option Claims
decode t = some (record claims { role = t })

coding : IsCoding toy header encode decode claims
coding = record {
  encodes = refl;
  header_undotted = (λ h. omega arith, tt);
  body_undotted = (
    λ h. omega arith,
    (
      λ h. omega arith,
      (
        λ h. omega arith,
        (λ h. omega arith, (λ h. omega arith, (λ h. omega arith, (λ h. omega arith, tt)))),
      ),
    ),
  );
  mac_undotted = λ secret input. (λ h. omega arith, tt);
  decodes = refl;
}

abbrev token : Text
token = (header ++ b'.' ∷ student) ++ b'.' ∷ codes "s"

signed : sign_access_token toy student claims ≡ ok token
unfolding sign_access_token signing_secret text_beq
signed = refl

verify-sign_access_token_example :
    verify_access_token decode signature (signing_secret student) (800 * second) token
    ≡ (if leb claims.expires_at ((800 * second) / second) then denied expired else granted claims)
verify-sign_access_token_example =
    verify-sign_access_token toy header encode decode student token claims (800 * second) coding
      (record { user = refl; role = refl; token_id = refl }) signed

abbrev first : Draws
first = record {
  user_id = pos 5;
  access_id = codes "a1";
  refresh_id = codes "r1";
  refresh_secret = codes "s1";
}

abbrev next_draws : Draws
next_draws = record first { refresh_id = codes "r2"; refresh_secret = codes "s2" }

abbrev no_one : Db
no_one = record { user_account = []; refresh_token_session = [] }

student-is_role : is_role student ≡ true
unfolding text_beq
student-is_role = refl

not_taken : lookup first.refresh_id no_one.refresh_token_session ≡ none
unfolding lookup
not_taken = refl

abbrev logged_in : Db
logged_in = (issue_and_store_tokens toy answers 0 first (pos 5) student no_one).1

id-IsDrawn : IsDrawn (codes "r1")
id-IsDrawn = record {
  undotted = (λ h. omega arith, (λ h. omega arith, tt));
  no_space = (refl, (refl, tt));
  not_empty = refl;
}

secret-IsDrawn : IsDrawn (codes "s1")
secret-IsDrawn = record {
  undotted = (λ h. omega arith, (λ h. omega arith, tt));
  no_space = (refl, (refl, tt));
  not_empty = refl;
}

abbrev refresh_token : Text
refresh_token = codes "r1" ++ b'.' ∷ codes "s1"

live : IsLive toy logged_in (codes "r1") (codes "s1") (pos 5) student (0 + refresh_token_ttl)
live = (issue-IsLive toy 0 first (pos 5) student no_one student-is_role not_taken).4

trimmed : trim_space student ≡ student
unfolding trim_space
trimmed = refl

next_not_taken : lookup next_draws.refresh_id logged_in.refresh_token_session ≡ none
unfolding issue_and_store_tokens sign_access_token signing_secret text_beq lookup add
next_not_taken = refl

refresh-IsLive_example :
    let (result, t) =
      refresh toy answers 10 11 next_draws refresh_token student logged_in logged_in in
    (reply : TokenReply) × (result ≡ ok reply)
    × (reply.user_id ≡ pos 5)
    × (reply.refresh_token ≡ codes "r2" ++ b'.' ∷ codes "s2")
    × IsLive toy t (codes "r2") (codes "s2") (pos 5) student (10 + refresh_token_ttl)
refresh-IsLive_example =
    refresh-IsLive toy 10 11 next_draws (codes "r1") (codes "s1") student (pos 5)
      (0 + refresh_token_ttl) logged_in student-is_role trimmed id-IsDrawn secret-IsDrawn live
      (omega arith) (omega arith) next_not_taken

abbrev refreshed : Result TokenReply × Db
refreshed = refresh toy answers 10 11 next_draws refresh_token student logged_in logged_in

answer : (reply : TokenReply) × (refreshed.0 ≡ ok reply)
answer =
    let (reply, answered, x, y, z) =
      refresh-IsLive toy 10 11 next_draws (codes "r1") (codes "s1") student (pos 5)
        (0 + refresh_token_ttl) logged_in student-is_role trimmed id-IsDrawn secret-IsDrawn live
        (omega arith) (omega arith) next_not_taken in
    (reply, answered)

abbrev some_reply : TokenReply
some_reply = record {
  user_id = pos 5;
  role = student;
  access_token = token;
  access_token_expires_at = 900;
  refresh_token = refresh_token;
  refresh_token_expires_at = 900;
}

refresh_once_example :
    (refresh toy answers 12 13 first refresh_token student logged_in refreshed.1).0 ≢ ok some_reply
refresh_once_example =
    refresh_once toy answers answers 10 11 12 13 next_draws first refresh_token student student
      logged_in logged_in logged_in refreshed.1 answer.0 some_reply answer.1 start

logged_out : (logout toy answers refresh_token student logged_in).0 ≡ ok tt
unfolding logout issue_and_store_tokens sign_access_token signing_secret text_beq lookup add
logged_out = refl

refresh-logout_example :
    (refresh toy answers 12 13 next_draws refresh_token student logged_in
      (logout toy answers refresh_token student logged_in).1).0
    ≢ ok some_reply
refresh-logout_example =
    refresh-logout toy answers answers 12 13 next_draws refresh_token student student logged_in
      logged_in (logout toy answers refresh_token student logged_in).1 some_reply logged_out start
