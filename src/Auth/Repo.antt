-- ===== src/Auth/Repo.antt =====
-- data/auth.go: the repository of accounts and refresh tokens. A read that fails is left to the use
-- cases; a write takes the outcome of its statement or transaction.
use comment_project.Common.{
  ℕ, Bool, true, false, not, ◌&&◌, ◌||◌, Option, none, some, List, [], ◌∷◌, ltb, if◌then◌else◌,
}
use comment_project.Common.Int.{ℤ, int_beq}
use comment_project.Common.Dict.{text_eq, text_beq, lookup}
use comment_project.Common.Table.{add, adjust}
use comment_project.Common.Text.{Text}
use comment_project.Common.Outcome.{Outcome, answers, fails, unheard}
use comment_project.Auth.State.{
  Account, Session, Db, invalid_refresh_token, internal, Result, ok, error,
}

-- `GetUserByUsernameRole`
unfoldable pub find_account : Text → Text → List Account → Option Account
find_account username role [] = none
find_account username role (a ∷ accounts) =
    if text_beq a.username username && text_beq a.role role
    then some a
    else find_account username role accounts

unfoldable pub has_user_id : ℤ → List Account → Bool
has_user_id id [] = false
has_user_id id (a ∷ accounts) = int_beq a.user_id id || has_user_id id accounts

-- What a write does under its outcome.
unfoldable pub commit_write {ℓ} : {A : Type ℓ} → Outcome → A → Db → Db → Result A × Db
commit_write answers a before after = (ok a, after)
commit_write fails a before after = (error internal, before)
commit_write unheard a before after = (error internal, after)

-- `CreateUser`, with the id that snowflake gives; both unique keys of the table refuse a duplicate.
unfoldable pub create_user : Outcome → ℤ → Text → Text → Text → Db → Result Account × Db
unfolding find_account has_user_id commit_write
create_user outcome id username role password_hash db =
    let account : Account = record {
      user_id = id;
      username = username;
      role = role;
      password_hash = password_hash;
      status = 1;
    } in
    elim (find_account username role db.user_account) [
      | some a ↦ (error internal, db)
      | none ↦
          if has_user_id id db.user_account
          then (error internal, db)
          else commit_write outcome account db
              (record db { user_account = account ∷ db.user_account })
    ]

-- `CreateRefreshToken`
unfoldable pub create_refresh_token : Outcome → Text → Session → Db → Result (Unit {0}) × Db
unfolding commit_write
create_refresh_token outcome token_id row db = elim (lookup token_id db.refresh_token_session) [
  | some s ↦ (error internal, db)
  | none ↦
      commit_write outcome tt db
        (record db { refresh_token_session = add token_id row db.refresh_token_session })
]

-- The condition under which a session can be rotated.
unfoldable pub can_rotate : ℕ → Text → Session → Bool
can_rotate now secret_hash s =
    not s.revoked && text_beq s.token_hash secret_hash && not (ltb s.expires_at now)

abbrev pub replace_by : Text → Session → Session
replace_by next_id s = record s { revoked = true; replaced_by = next_id }

-- `RotateRefreshToken`: one transaction under a row lock.
unfoldable pub rotate_refresh_token :
    Outcome → ℕ → Text → Text → Text → Session → Db → Result (Unit {0}) × Db
unfolding can_rotate commit_write
rotate_refresh_token outcome now old_id secret_hash next_id next db =
    elim (lookup old_id db.refresh_token_session) [
      | none ↦ (error invalid_refresh_token, db)
      | some old ↦
          if not (can_rotate now secret_hash old)
          then (error invalid_refresh_token, db)
          else elim (lookup next_id db.refresh_token_session) [
            | some s ↦ (error internal, db)
            | none ↦ commit_write outcome tt db (record db {
              refresh_token_session =
                  adjust old_id (replace_by next_id) (add next_id next db.refresh_token_session);
            })
          ]
    ]

abbrev pub revoke : Session → Session
revoke s = record s { revoked = true }

-- The statement affects no row, if it answers.
abbrev pub no_row : Outcome → Result (Unit {0})
no_row answers = error invalid_refresh_token
no_row _ = error internal

-- `RevokeRefreshToken`: GORM writes `updated_at` too, so that a matching row counts as affected.
unfoldable pub revoke_refresh_token : Outcome → Text → Text → Text → Db → Result (Unit {0}) × Db
unfolding commit_write
revoke_refresh_token outcome token_id secret_hash role db =
    elim (lookup token_id db.refresh_token_session) [
      | none ↦ (no_row outcome, db)
      | some s ↦
          if text_beq s.token_hash secret_hash && text_beq s.role role
          then commit_write outcome tt db (record db {
            refresh_token_session = adjust token_id revoke db.refresh_token_session;
          })
          else (no_row outcome, db)
    ]
