-- ===== src/Auth/State.antt =====
-- The tables `user_account` and `refresh_token_session`, and what the use cases return. Times are
-- nanoseconds; the rounding of a DATETIME column is left out.
use comment_project.Common.{ℕ, ◌≡◌, ◌⊎◌, refl, inl, inr, Bool, List}
use comment_project.Common.Int.{ℤ}
use comment_project.Common.Dict.{Dict}
use comment_project.Common.Text.{Text}

pub record Account : Type 0 where
  pub user_id : ℤ
  pub username : Text
  pub role : Text
  pub password_hash : Text
  pub status : ℕ

-- A row of `refresh_token_session` without its unique `token_id`, which is the key of the table.
pub record Session : Type 0 where
  pub user_id : ℤ
  pub role : Text
  pub token_hash : Text
  pub expires_at : ℕ
  pub revoked : Bool
  pub replaced_by : Text

pub record Db : Type 0 where
  pub user_account : List Account
  pub refresh_token_session : Dict Text Session

pub data Error : Type 0 where
  bad_request unauthorized user_exists invalid_refresh_token internal : Error

-- A result or an error.
pub data Result {ℓ} (A : Type ℓ) : Type ℓ where
  ok : A → Result A
  error : Error → Result A

-- Either case of a result, with its equation.
pub Result-cases {ℓ} :
    {A : Type ℓ} (r : Result A) → ((e : Error) × (r ≡ error e)) ⊎ ((a : A) × (r ≡ ok a))
Result-cases (ok a) = inr (a, refl)
Result-cases (error e) = inl (e, refl)

pub record Claims : Type 0 where
  pub token_id : Text
  pub user_id : ℤ
  pub role : Text
  pub expires_at : ℕ
  pub issued_at : ℕ

pub record TokenReply : Type 0 where
  pub user_id : ℤ
  pub role : Text
  pub access_token : Text
  pub access_token_expires_at : ℕ
  pub refresh_token : Text
  pub refresh_token_expires_at : ℕ
