-- ===== src/Auth/Usecase.antt =====
-- biz/auth.go: the use cases register, login, refresh and logout. Cryptography and encoding are
-- parameters; the random draws are arguments.
use comment_project.Common.{
  ℕ, ◌+◌, ◌*◌, ◌/◌, Bool, false, not, ◌&&◌, ◌||◌, Option, none, some, List, [], ◌∷◌, ◌++◌, length,
  ltb, ◌==◌, if◌then◌else◌,
}
use comment_project.Common.Int.{ℤ}
use comment_project.Common.Dict.{text_eq, text_beq, lookup}
use comment_project.Common.Text.{Text, codes}
use comment_project.Common.Trim.{trim_space, is_empty, split}
use comment_project.Common.Outcome.{Outcome}
use comment_project.Auth.State.{
  Account, Session, Db, bad_request, unauthorized, user_exists, invalid_refresh_token, internal,
  Result, ok, error, Claims, TokenReply,
}
use comment_project.Auth.Repo.{
  find_account, create_user, create_refresh_token, rotate_refresh_token, revoke_refresh_token,
}

abbrev pub second : ℕ
second = 1000000000

abbrev pub access_token_ttl : ℕ
access_token_ttl = 15 * 60 * second

abbrev pub refresh_token_ttl : ℕ
refresh_token_ttl = 7 * 24 * 60 * 60 * second

abbrev pub is_role : Text → Bool
is_role role =
    text_beq role (codes "student")
    || text_beq role (codes "tutor")
    || text_beq role (codes "operator")

-- `signingSecrets`, where a role that is not there gives the empty text
unfoldable pub signing_secret : Text → Text
signing_secret role =
    if text_beq role (codes "student")
    then codes "comment-student-dev-secret"
    else if text_beq role (codes "tutor")
    then codes "comment-tutor-dev-secret"
    else if text_beq role (codes "operator")
    then codes "comment-operator-dev-secret"
    else []

-- `validateUserPasswordRole`
unfoldable pub is_valid_input : Text → Text → Text → Bool
is_valid_input username password role =
    not (
      is_empty username
      || ltb 64 (length username)
      || ltb (length password) 8
      || ltb 128 (length password))
    && is_role role

abbrev pub two_parts : List Text → Option (Text × Text)
two_parts (id ∷ secret ∷ []) = if is_empty id || is_empty secret then none else some (id, secret)
two_parts _ = none

-- `splitRefreshToken`
unfoldable pub split_refresh_token : Text → Option (Text × Text)
unfolding trim_space split
split_refresh_token token = two_parts (split b'.' (trim_space token))

-- What `randomHex` and snowflake draw for a request.
pub record Draws : Type 0 where
  pub user_id : ℤ
  pub access_id : Text
  pub refresh_id : Text
  pub refresh_secret : Text

-- What the use cases take from bcrypt, SHA-256, HMAC, base64 and JSON: `encode_claims` gives the
-- header and the body of a token, with the dot between, and `mac` the signature for a secret.
pub record Crypto : Type 0 where
  pub hash_token : Text → Text
  pub generate_from_password : Text → Option Text
  pub is_password : Text → Text → Bool
  pub encode_claims : Claims → Text
  pub mac : Text → Text → Text

-- What a use case returns when its last write has ended.
unfoldable pub reply_after : TokenReply → Result (Unit {0}) × Db → Result TokenReply × Db
reply_after reply (ok u, db) = (ok reply, db)
reply_after reply (error e, db) = (error e, db)

-- `ErrInvalidRefreshToken` is answered as an unauthorized request.
unfoldable pub hide_invalid {ℓ} : {A : Type ℓ} → Result A × Db → Result A × Db
hide_invalid (error invalid_refresh_token, db) = (error unauthorized, db)
hide_invalid r = r

module _ (crypto : Crypto) where
  -- `signAccessToken`
  unfoldable pub sign_access_token : Text → Claims → Result Text
  unfolding signing_secret
  sign_access_token role claims =
      if is_empty (signing_secret role)
      then error bad_request
      else ok (
          crypto.encode_claims claims
          ++ b'.' ∷ crypto.mac (signing_secret role) (crypto.encode_claims claims))

  -- `issueTokens`
  unfoldable pub issue_tokens : ℕ → Draws → ℤ → Text → Result (TokenReply × Session)
  unfolding sign_access_token
  issue_tokens now draws user_id role =
      elim (sign_access_token role (record {
        token_id = draws.access_id;
        user_id = user_id;
        role = role;
        expires_at = (now + access_token_ttl) / second;
        issued_at = now / second;
      })) [
        | error e ↦ error e
        | ok access ↦ ok (
          record {
            user_id = user_id;
            role = role;
            access_token = access;
            access_token_expires_at = (now + access_token_ttl) / second;
            refresh_token = draws.refresh_id ++ b'.' ∷ draws.refresh_secret;
            refresh_token_expires_at = (now + refresh_token_ttl) / second;
          },
          record {
            user_id = user_id;
            role = role;
            token_hash = crypto.hash_token draws.refresh_secret;
            expires_at = now + refresh_token_ttl;
            revoked = false;
            replaced_by = [];
          },
        )
      ]

  -- `issueAndStoreTokens`
  unfoldable pub issue_and_store_tokens :
      Outcome → ℕ → Draws → ℤ → Text → Db → Result TokenReply × Db
  unfolding issue_tokens reply_after create_refresh_token
  issue_and_store_tokens outcome now draws user_id role db =
      elim (issue_tokens now draws user_id role) [
        | error e ↦ (error e, db)
        | ok (reply, row) ↦ reply_after reply (create_refresh_token outcome draws.refresh_id row db)
      ]

  unfoldable pub register_created :
      Outcome → ℕ → Draws → Result Account × Db → Result TokenReply × Db
  unfolding issue_and_store_tokens
  register_created outcome now draws (error e, db) = (error e, db)
  register_created outcome now draws (ok a, db) =
      issue_and_store_tokens outcome now draws a.user_id a.role db

  -- `Register`, where its read answers
  unfoldable pub register :
      Outcome → Outcome → ℕ → Draws → Text → Text → Text → Db → Result TokenReply × Db
  unfolding register_created is_valid_input create_user find_account trim_space
  register user_outcome token_outcome now draws username password role db =
      let name = trim_space username in
      let its_role = trim_space role in
      if not (is_valid_input name password its_role)
      then (error bad_request, db)
      else elim (find_account name its_role db.user_account) [
        | some a ↦ (error user_exists, db)
        | none ↦ elim (crypto.generate_from_password password) [
          | none ↦ (error internal, db)
          | some password_hash ↦
              register_created token_outcome now draws
                (create_user user_outcome draws.user_id name its_role password_hash db)
        ]
      ]

  -- `Login`, where its read answers
  unfoldable pub login : Outcome → ℕ → Draws → Text → Text → Text → Db → Result TokenReply × Db
  unfolding issue_and_store_tokens find_account trim_space
  login outcome now draws username password role db =
      let name = trim_space username in
      let its_role = trim_space role in
      if not (is_role its_role)
      then (error bad_request, db)
      else elim (find_account name its_role db.user_account) [
        | none ↦ (error unauthorized, db)
        | some a ↦
            if not (a.status == 1) || not (crypto.is_password a.password_hash password)
            then (error unauthorized, db)
            else issue_and_store_tokens outcome now draws a.user_id a.role db
      ]

  -- The check that `Refresh` makes on the session that it has read.
  unfoldable pub can_refresh : ℕ → Text → Text → Session → Bool
  can_refresh now secret role s =
      text_beq s.role role
      && not s.revoked
      && not (ltb s.expires_at now)
      && text_beq s.token_hash (crypto.hash_token secret)

  -- `Refresh` from the session that it reads, `seen`, to the end: other requests may have run since.
  unfoldable pub refresh_seen :
      Outcome → ℕ → ℕ → Draws → Text → Text → Text → Option Session → Db → Result TokenReply × Db
  unfolding can_refresh issue_tokens rotate_refresh_token hide_invalid reply_after
  refresh_seen outcome now later draws token_id secret role none db = (error unauthorized, db)
  refresh_seen outcome now later draws token_id secret role (some s) db =
      if not (can_refresh now secret role s)
      then (error unauthorized, db)
      else elim (issue_tokens now draws s.user_id s.role) [
        | error e ↦ (error e, db)
        | ok (reply, row) ↦ reply_after reply (
            hide_invalid (
              rotate_refresh_token outcome later token_id (crypto.hash_token secret)
                draws.refresh_id row db))
      ]

  -- `Refresh`, whose read at `now` answers with what the database `seen` holds; its transaction runs
  -- on `db` at the time `later`.
  unfoldable pub refresh : Outcome → ℕ → ℕ → Draws → Text → Text → Db → Db → Result TokenReply × Db
  unfolding refresh_seen split_refresh_token trim_space
  refresh outcome now later draws token role seen db =
      if not (is_role (trim_space role))
      then (error bad_request, db)
      else elim (split_refresh_token token) [
        | none ↦ (error unauthorized, db)
        | some (token_id, secret) ↦
            refresh_seen outcome now later draws token_id secret (trim_space role)
              (lookup token_id seen.refresh_token_session) db
      ]

  -- `Logout`
  unfoldable pub logout : Outcome → Text → Text → Db → Result (Unit {0}) × Db
  unfolding split_refresh_token revoke_refresh_token hide_invalid trim_space
  logout outcome token role db =
      if not (is_role (trim_space role))
      then (error bad_request, db)
      else elim (split_refresh_token token) [
        | none ↦ (error unauthorized, db)
        | some (token_id, secret) ↦
            hide_invalid (
              revoke_refresh_token outcome token_id (crypto.hash_token secret) (trim_space role) db)
      ]
