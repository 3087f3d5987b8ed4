-- ===== src/Auth/SingleUse.antt =====
-- A refresh token that was spent or logged out is refused for good, whatever requests run meanwhile.
use comment_project.Common.{
  ℕ, ◌≡◌, refl, inl, inr, not, ◌||◌, Option, none, some, ◌==◌, Option-cases, Bool-cases,
}
use comment_project.Common.Int.{ℤ}
use comment_project.Common.Dict.{text_eq}
use comment_project.Common.Text.{Text}
use comment_project.Common.Trim.{trim_space}
use comment_project.Common.Outcome.{Outcome}
use comment_project.Auth.State.{
  Account, Session, Db, Error, invalid_refresh_token, unauthorized, bad_request, Result, ok, error,
  Result-cases, TokenReply,
}
use comment_project.Auth.Repo.{create_refresh_token, find_account}
use comment_project.Auth.Usecase.{
  Crypto, Draws, split_refresh_token, issue_tokens, reply_after, issue_and_store_tokens,
  register_created, register, login, refresh, refresh_seen, logout, hide_invalid, can_refresh,
  is_role, is_valid_input,
}
use comment_project.Auth.Rotation.{
  IsRevoked, create_user-IsRevoked, create_refresh_token-IsRevoked, rotate-IsRevoked,
  revoke-IsRevoked,
}

pub reply_after-db :
    (reply : TokenReply) (r : Result (Unit {0}) × Db) → (reply_after reply r).1 ≡ r.1
unfolding reply_after
reply_after-db reply (ok u, db) = refl
reply_after-db reply (error e, db) = refl

pub hide_invalid-db : {A : Type 0} (r : Result A × Db) → (hide_invalid r).1 ≡ r.1
unfolding hide_invalid
hide_invalid-db (ok a, db) = refl
hide_invalid-db (error bad_request, db) = refl
hide_invalid-db (error unauthorized, db) = refl
hide_invalid-db (error Error.user_exists, db) = refl
hide_invalid-db (error invalid_refresh_token, db) = refl
hide_invalid-db (error Error.internal, db) = refl

module _ (crypto : Crypto) (id : Text) where
  issue-IsRevoked :
      (o : Outcome) (now : ℕ) (w : Draws) (n : ℤ) (role : Text) (db : Db)
      → IsRevoked id db
      → IsRevoked id (issue_and_store_tokens crypto o now w n role db).1
  unfolding issue_and_store_tokens
  issue-IsRevoked o now w n role db v = elim (Result-cases (issue_tokens crypto now w n role)) [
    | inl (e, h) ↦ rw (h, issue_and_store_tokens) v
    | inr ((reply, row), h) ↦
        rw (h, issue_and_store_tokens)
          (rw (reply_after-db reply (create_refresh_token o w.refresh_id row db))
            (create_refresh_token-IsRevoked id o w.refresh_id row db v))
  ]

  register_created-IsRevoked :
      (o : Outcome) (now : ℕ) (w : Draws) (r : Result Account × Db)
      → IsRevoked id r.1
      → IsRevoked id (register_created crypto o now w r).1
  unfolding register_created
  register_created-IsRevoked o now w (error e, db) v = v
  register_created-IsRevoked o now w (ok a, db) v = issue-IsRevoked o now w a.user_id a.role db v

  register-IsRevoked :
      (uo o : Outcome) (now : ℕ) (w : Draws) (username password role : Text) (db : Db)
      → IsRevoked id db
      → IsRevoked id (register crypto uo o now w username password role db).1
  unfolding register
  register-IsRevoked uo o now w username password role db v =
      elim (Bool-cases (is_valid_input (trim_space username) password (trim_space role))) [
        | inr bad ↦ rw (bad, register) v
        | inl valid ↦
            elim (Option-cases
              (find_account (trim_space username) (trim_space role) db.user_account)) [
                | inr (a, e) ↦ rw (valid, register) (rw e v)
                | inl e ↦ elim (Option-cases (crypto.generate_from_password password)) [
                  | inl f ↦ rw (valid, register) (rw (e, f) v)
                  | inr (h, f) ↦
                      rw (valid, register)
                        (rw (e, f)
                          (register_created-IsRevoked o now w _
                            (create_user-IsRevoked id uo w.user_id _ _ h db v)))
                ]
              ]
      ]

  login-IsRevoked :
      (o : Outcome) (now : ℕ) (w : Draws) (username password role : Text) (db : Db)
      → IsRevoked id db
      → IsRevoked id (login crypto o now w username password role db).1
  unfolding login
  login-IsRevoked o now w username password role db v =
      elim (Bool-cases (is_role (trim_space role))) [
        | inr bad ↦ rw (bad, login) v
        | inl valid ↦
            elim (Option-cases
              (find_account (trim_space username) (trim_space role) db.user_account)) [
                | inl e ↦ rw (valid, login) (rw e v)
                | inr (a, e) ↦
                    elim (Bool-cases
                      (not (a.status == 1) || not (crypto.is_password a.password_hash password))) [
                        | inl refused ↦ rw (valid, login) (rw e (rw refused v))
                        | inr granted ↦
                            rw (valid, login)
                              (rw e (rw granted (issue-IsRevoked o now w a.user_id a.role db v)))
                      ]
              ]
      ]

  refresh_seen-IsRevoked :
      (o : Outcome) (now later : ℕ) (w : Draws) (token_id secret role : Text)
      (seen : Option Session) (db : Db)
      → IsRevoked id db
      → IsRevoked id (refresh_seen crypto o now later w token_id secret role seen db).1
  unfolding refresh_seen
  refresh_seen-IsRevoked o now later w token_id secret role none db v = v
  refresh_seen-IsRevoked o now later w token_id secret role (some s) db v =
      elim (Bool-cases (can_refresh crypto now secret role s)) [
        | inr refused ↦ rw (refused, refresh_seen) v
        | inl granted ↦ elim (Result-cases (issue_tokens crypto now w s.user_id s.role)) [
          | inl (e, h) ↦ rw (granted, refresh_seen) (rw h v)
          | inr ((reply, row), h) ↦
              rw (granted, refresh_seen)
                (rw h (
                  rw (reply_after-db, hide_invalid-db)
                    (rotate-IsRevoked id o later token_id (crypto.hash_token secret) w.refresh_id
                      row db v)))
        ]
      ]

  refresh-IsRevoked :
      (o : Outcome) (now later : ℕ) (w : Draws) (token role : Text) (seen db : Db)
      → IsRevoked id db
      → IsRevoked id (refresh crypto o now later w token role seen db).1
  unfolding refresh
  refresh-IsRevoked o now later w token role seen db v =
      elim (Bool-cases (is_role (trim_space role))) [
        | inr bad ↦ rw (bad, refresh) v
        | inl valid ↦ elim (Option-cases (split_refresh_token token)) [
          | inl e ↦ rw (valid, refresh) (rw e v)
          | inr ((token_id, secret), e) ↦
              rw (valid, refresh)
                (rw e (refresh_seen-IsRevoked o now later w token_id secret _ _ db v))
        ]
      ]

  logout-IsRevoked :
      (o : Outcome) (token role : Text) (db : Db)
      → IsRevoked id db
      → IsRevoked id (logout crypto o token role db).1
  unfolding logout
  logout-IsRevoked o token role db v = elim (Bool-cases (is_role (trim_space role))) [
    | inr bad ↦ rw (bad, logout) v
    | inl valid ↦ elim (Option-cases (split_refresh_token token)) [
      | inl e ↦ rw (valid, logout) (rw e v)
      | inr ((token_id, secret), e) ↦
          rw (valid, logout)
            (rw (e, hide_invalid-db)
              (revoke-IsRevoked id o token_id (crypto.hash_token secret) (trim_space role) db v))
    ]
  ]

-- A request, with the outcomes of its writes. What a refresh has read may be stale.
pub data Request (crypto : Crypto) (db : Db) : Db → Type 0 where
  registers :
      (uo o : Outcome) (now : ℕ) (w : Draws) (username password role : Text)
      → Request crypto db (register crypto uo o now w username password role db).1
  logs_in :
      (o : Outcome) (now : ℕ) (w : Draws) (username password role : Text)
      → Request crypto db (login crypto o now w username password role db).1
  refreshes :
      (o : Outcome) (now later : ℕ) (w : Draws) (token role : Text) (seen : Db)
      → Request crypto db (refresh crypto o now later w token role seen db).1
  logs_out : (o : Outcome) (token role : Text) → Request crypto db (logout crypto o token role db).1

pub data Requests (crypto : Crypto) (db : Db) : Db → Type 0 where
  start : Requests crypto db db
  then : {t u : Db} → Requests crypto db t → Request crypto t u → Requests crypto db u

Request-IsRevoked :
    {crypto : Crypto} {id : Text} {s t : Db} → Request crypto s t → IsRevoked id s → IsRevoked id t
Request-IsRevoked {crypto} {id} {s} (registers uo o now w username password role) v =
    register-IsRevoked crypto id uo o now w username password role s v
Request-IsRevoked {crypto} {id} {s} (logs_in o now w username password role) v =
    login-IsRevoked crypto id o now w username password role s v
Request-IsRevoked {crypto} {id} {s} (refreshes o now later w token role seen) v =
    refresh-IsRevoked crypto id o now later w token role seen s v
Request-IsRevoked {crypto} {id} {s} (logs_out o token role) v =
    logout-IsRevoked crypto id o token role s v

-- A revoked session stays revoked through every run of requests.
pub requests-IsRevoked :
    {crypto : Crypto} {id : Text} {s t : Db} → Requests crypto s t → IsRevoked id s → IsRevoked id t
requests-IsRevoked start v = v
requests-IsRevoked (then r q) v = Request-IsRevoked q (requests-IsRevoked r v)
