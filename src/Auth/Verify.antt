-- ===== src/Auth/Verify.antt =====
-- comment-student/internal/auth/auth.go: the access token of a request.
use comment_project.Common.{
  ℕ, ◌/◌, Bool, not, ◌&&◌, ◌||◌, Option, none, some, List, [], ◌∷◌, ◌++◌, leb, if◌then◌else◌,
}
use comment_project.Common.Int.{ℤ, is_positive}
use comment_project.Common.Dict.{text_beq}
use comment_project.Common.Text.{Text, codes}
use comment_project.Common.Trim.{trim_space, trim_prefix, is_empty, split}
use comment_project.Auth.State.{Claims}
use comment_project.Auth.Usecase.{second}

pub data AccessError : Type 0 where
  missing_identity missing_header missing_bearer invalid_token invalid_signature invalid_claims
        expired forbidden :
      AccessError

pub data Access {ℓ} (A : Type ℓ) : Type ℓ where
  granted : A → Access A
  denied : AccessError → Access A

pub record Principal : Type 0 where
  pub user_id : ℤ
  pub role : Text
  pub token_id : Text

-- `bearerToken`, for the value of the header `authorization`
unfoldable pub bearer_token : Text → Access Text
unfolding trim_space trim_prefix
bearer_token header =
    let auth_header = trim_space header in
    let once = trim_space (trim_prefix (codes "Bearer ") auth_header) in
    let token = trim_space (trim_prefix (codes "bearer ") once) in
    if is_empty auth_header
    then denied missing_header
    else if is_empty token || text_beq token auth_header
    then denied missing_bearer
    else granted token

-- The last guard of `verifyAccessToken`, at the time `now`.
unfoldable pub is_complete : ℕ → Claims → Bool
is_complete now c =
    is_positive c.user_id
    && not (is_empty c.role)
    && not (is_empty c.token_id)
    && not (leb c.expires_at (now / second))

abbrev pub check_claims : ℕ → Option Claims → Access Claims
check_claims now none = denied invalid_claims
check_claims now (some c) = if is_complete now c then granted c else denied expired

-- `decode_claims` undoes base64 and JSON; `mac` is the signature of a text under a secret.
module _ (decode_claims : Text → Option Claims) (mac : Text → Text → Text) (secret : Text) where
  abbrev pub check_parts : ℕ → List Text → Access Claims
  check_parts now (header ∷ body ∷ signature ∷ []) =
      if text_beq (mac secret (header ++ b'.' ∷ body)) signature
      then check_claims now (decode_claims body)
      else denied invalid_signature
  check_parts now _ = denied invalid_token

  -- `verifyAccessToken`
  unfoldable pub verify_access_token : ℕ → Text → Access Claims
  unfolding split
  verify_access_token now token = check_parts now (split b'.' token)

  abbrev pub as_principal : Text → Access Claims → Access Principal
  as_principal role (denied e) = denied e
  as_principal role (granted c) =
      if text_beq c.role role
      then granted (record { user_id = c.user_id; role = c.role; token_id = c.token_id })
      else denied forbidden

  -- `ParsePrincipal` of a service with the role `role`
  unfoldable pub parse_principal : ℕ → Text → Text → Access Principal
  unfolding bearer_token verify_access_token
  parse_principal now role header = elim (bearer_token header) [
    | denied e ↦ denied e
    | granted token ↦ as_principal role (verify_access_token now token)
  ]

-- `RequireStudent`
unfoldable pub require_student : Option Principal → Access Principal
require_student none = denied missing_identity
require_student (some p) =
    if not (is_positive p.user_id)
    then denied missing_identity
    else if not (text_beq p.role (codes "student"))
    then denied forbidden
    else granted p
