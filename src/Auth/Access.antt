-- ===== src/Auth/Access.antt =====
-- The tokens that the service issues are the ones that it and the student service accept.
use comment_project.Common.{
  ℕ, not, leb, arith, ◌∙◌, ◌/◌, ◌≡◌, ◌≢◌, refl, ap, inl, inr, true, false, Option, some, [], ◌∷◌,
  ◌++◌, Bool-cases, All, if◌then◌else◌,
}
use comment_project.Common.Dict.{text_eq, text_beq, text_beq_iff}
use comment_project.Common.Text.{Text}
use comment_project.Common.Trim.{
  trim_space_same, split, split_whole, split-append, is_empty, is_space,
}
use comment_project.Auth.State.{ok, Claims}
use comment_project.Common.Int.{is_positive}
use comment_project.Auth.Usecase.{
  second, Crypto, split_refresh_token, sign_access_token, signing_secret,
}
use comment_project.Auth.Verify.{granted, denied, expired, is_complete, verify_access_token}

abbrev pub IsUndotted : Text → Type 0
IsUndotted t = All (λ c. c ≢ b'.') t

-- What the codings behind the token of some claims are taken to do: `encode` writes no dot, and
-- `decode` undoes it; a signature holds no dot.
pub record IsCoding (crypto : Crypto) (header : Text) (encode : Claims → Text)
    (decode : Text → Option Claims) (claims : Claims) : Type 0 where
  pub encodes : crypto.encode_claims claims ≡ header ++ b'.' ∷ encode claims
  pub header_undotted : IsUndotted header
  pub body_undotted : IsUndotted (encode claims)
  pub mac_undotted : (secret input : Text) → IsUndotted (crypto.mac secret input)
  pub decodes : decode (encode claims) ≡ some claims

append_assoc : (s t u : Text) → (s ++ t) ++ u ≡ s ++ (t ++ u)
append_assoc [] t u = refl
append_assoc (c ∷ s) t u = ap (λ r. c ∷ r) (append_assoc s t u)

pub text_beq_same : (t : Text) → text_beq t t ≡ true
text_beq_same t = (text_beq_iff t t).1 refl

split_token :
    (header body signature : Text)
    → IsUndotted header
    → IsUndotted body
    → IsUndotted signature
    → split b'.' ((header ++ b'.' ∷ body) ++ b'.' ∷ signature) ≡ header ∷ body ∷ signature ∷ []
split_token header body signature h b s =
    let joined : split b'.' ((header ++ b'.' ∷ body) ++ b'.' ∷ signature)
        ≡ split b'.' (header ++ b'.' ∷ (body ++ b'.' ∷ signature)) =
      ap (split b'.') (append_assoc header (b'.' ∷ body) (b'.' ∷ signature)) in
    cc (
      joined,
      split-append b'.' header (body ++ b'.' ∷ signature) h,
      split-append b'.' body signature b,
      split_whole b'.' signature s,
    )

-- A token is made of the header, the body and the signature of both.
verify_signed :
    (mac : Text → Text → Text) (decode : Text → Option Claims) (secret header body : Text)
    (claims : Claims) (now : ℕ)
    → IsUndotted header
    → IsUndotted body
    → IsUndotted (mac secret (header ++ b'.' ∷ body))
    → decode body ≡ some claims
    → verify_access_token decode mac secret now
        ((header ++ b'.' ∷ body) ++ b'.' ∷ mac secret (header ++ b'.' ∷ body))
      ≡ (if is_complete now claims then granted claims else denied expired)
unfolding verify_access_token
verify_signed mac decode secret header body claims now h b m d =
    rw (split_token header body (mac secret (header ++ b'.' ∷ body)) h b m)
      (rw (text_beq_same (mac secret (header ++ b'.' ∷ body)), d) refl)

-- What the service puts into a token: a user, a role and an identifier.
pub record IsIssued (claims : Claims) : Type 0 where
  pub user : is_positive claims.user_id ≡ true
  pub role : is_empty claims.role ≡ false
  pub token_id : is_empty claims.token_id ≡ false

is_complete-IsIssued :
    (now : ℕ) (claims : Claims)
    → IsIssued claims
    → is_complete now claims ≡ not (leb claims.expires_at (now / second))
unfolding is_complete
is_complete-IsIssued now claims i = rw (i.user, i.role, i.token_id) refl

-- If the codings undo each other and write no dot, an access token that the service signs for a user,
-- a role and an identifier is granted with its claims, by the service that has the secret of the role,
-- exactly while the present second is before the second of its expiry, and is refused as expired from
-- that second on.
pub verify-sign_access_token :
    (crypto : Crypto) (header : Text) (encode : Claims → Text) (decode : Text → Option Claims)
    (role token : Text) (claims : Claims) (now : ℕ)
    → IsCoding crypto header encode decode claims
    → IsIssued claims
    → sign_access_token crypto role claims ≡ ok token
    → verify_access_token decode crypto.mac (signing_secret role) now token
      ≡ (if leb claims.expires_at (now / second) then denied expired else granted claims)
unfolding sign_access_token
verify-sign_access_token crypto header encode decode role token claims now coding issued signed =
    elim (Bool-cases (is_empty (signing_secret role))) [
      | inl no_secret ↦ absurd (cc (rw no_secret at signed))
      | inr secret ↦
          let signed_text : token
              ≡ crypto.encode_claims claims
                ++ b'.' ∷ crypto.mac (signing_secret role) (crypto.encode_claims claims) =
            cc (rw secret at signed) in
          let granted_if =
            verify_signed crypto.mac decode (signing_secret role) header (encode claims) claims now
              coding.header_undotted coding.body_undotted (coding.mac_undotted _ _)
              coding.decodes in
          rw signed_text (
            rw coding.encodes (granted_if ∙ ground (arith, is_complete-IsIssued now claims issued)))
    ]

-- Drawn identifiers: hex digits, in the source.
pub record IsDrawn (t : Text) : Type 0 where
  pub undotted : IsUndotted t
  pub no_space : All (λ c. is_space c ≡ false) t
  pub not_empty : is_empty t ≡ false

All-append : (P : ℕ → Type 0) (s t : Text) → All P s → All P t → All P (s ++ t)
All-append P [] t h k = k
All-append P (c ∷ s) t h k = (h.0, All-append P s t h.1 k)

-- The refresh token that is handed out is split into the identifier and the secret again, if both
-- are not empty and hold no dot and no space.
pub split_refresh_token-append :
    (id secret : Text)
    → IsDrawn id
    → IsDrawn secret
    → split_refresh_token (id ++ b'.' ∷ secret) ≡ some (id, secret)
unfolding split_refresh_token
split_refresh_token-append id secret h k =
    rw
      (trim_space_same (id ++ b'.' ∷ secret)
        (All-append (λ c. is_space c ≡ false) id (b'.' ∷ secret) h.no_space (refl, k.no_space)))
      (rw (split-append b'.' id secret h.undotted)
        (rw (split_whole b'.' secret k.undotted) (rw (h.not_empty, k.not_empty) refl)))
