-- ===== src/Auth/Spent.antt =====
-- A refresh token is good for one refresh, and for none after a logout.
use comment_project.Common.{
  ℕ, ◌≡◌, ◌≢◌, refl, inl, inr, Option, none, some, Option-cases, Bool-cases,
}
use comment_project.Common.Dict.{text_eq, lookup}
use comment_project.Common.Text.{Text}
use comment_project.Common.Trim.{trim_space}
use comment_project.Common.Outcome.{Outcome}
use comment_project.Auth.State.{
  Session, Db, Error, invalid_refresh_token, unauthorized, bad_request, Result, ok, error,
  Result-cases, TokenReply,
}
use comment_project.Auth.Repo.{rotate_refresh_token}
use comment_project.Auth.Usecase.{
  Crypto, Draws, split_refresh_token, issue_tokens, reply_after, refresh, refresh_seen, logout,
  hide_invalid, can_refresh, is_role,
}
use comment_project.Auth.SingleUse.{Requests, requests-IsRevoked, reply_after-db, hide_invalid-db}
use comment_project.Auth.Rotation.{IsRevoked, rotate_revoked, rotate-ok, revoke-ok}

-- The token names a session that is revoked.
pub record IsSpent (token : Text) (db : Db) : Type 0 where
  pub token_id : Text
  pub secret : Text
  pub splits : split_refresh_token token ≡ some (token_id, secret)
  pub session_revoked : IsRevoked token_id db

refused-not_ok :
    {reply : TokenReply} (row : TokenReply) (db : Db)
    → (reply_after row (hide_invalid (error invalid_refresh_token, db))).0 ≢ ok reply
unfolding reply_after hide_invalid
refused-not_ok row db h = cc h

module _ (crypto : Crypto) where
  spent_seen :
      (o : Outcome) (now later : ℕ) (w : Draws) (id secret role : Text) (seen : Option Session)
      (db : Db) (reply : TokenReply)
      → IsRevoked id db
      → (refresh_seen crypto o now later w id secret role seen db).0 ≢ ok reply
  unfolding refresh_seen
  spent_seen o now later w id secret role none db reply v = λ h. cc h
  spent_seen o now later w id secret role (some s) db reply v =
      elim (Bool-cases (can_refresh crypto now secret role s)) [
        | inr refused ↦ rw (refused, refresh_seen) (λ h. cc h)
        | inl granted ↦ elim (Result-cases (issue_tokens crypto now w s.user_id s.role)) [
          | inl (e, h) ↦ rw (granted, refresh_seen) (rw h (λ c. cc c))
          | inr ((answer, row), h) ↦
              rw (granted, refresh_seen)
                (rw h (
                  rw (rotate_revoked id o later (crypto.hash_token secret) w.refresh_id row db v)
                    (refused-not_ok answer db)))
        ]
      ]

  spent-refresh :
      (o : Outcome) (now later : ℕ) (w : Draws) (token role : Text) (seen db : Db)
      (reply : TokenReply)
      → IsSpent token db
      → (refresh crypto o now later w token role seen db).0 ≢ ok reply
  unfolding refresh
  spent-refresh o now later w token role seen db reply v =
      elim (Bool-cases (is_role (trim_space role))) [
        | inr bad ↦ rw (bad, refresh) (λ h. cc h)
        | inl valid ↦
            rw (valid, refresh)
              (rw v.splits
                (spent_seen o now later w v.token_id v.secret _ _ db reply v.session_revoked))
      ]

-- The write behind an accepted answer has succeeded.
written :
    (answer reply : TokenReply) (r : Result (Unit {0}) × Db)
    → (reply_after answer (hide_invalid r)).0 ≡ ok reply
    → r.0 ≡ ok tt
unfolding reply_after hide_invalid
written answer reply (ok u, db) h = refl
written answer reply (error bad_request, db) h = absurd (cc h)
written answer reply (error unauthorized, db) h = absurd (cc h)
written answer reply (error Error.user_exists, db) h = absurd (cc h)
written answer reply (error invalid_refresh_token, db) h = absurd (cc h)
written answer reply (error Error.internal, db) h = absurd (cc h)

revoked_row : (r : Result (Unit {0}) × Db) → (hide_invalid r).0 ≡ ok tt → r.0 ≡ ok tt
unfolding hide_invalid
revoked_row (ok u, db) h = refl
revoked_row (error bad_request, db) h = absurd (cc h)
revoked_row (error unauthorized, db) h = absurd (cc h)
revoked_row (error Error.user_exists, db) h = absurd (cc h)
revoked_row (error invalid_refresh_token, db) h = absurd (cc h)
revoked_row (error Error.internal, db) h = absurd (cc h)

module _ (crypto : Crypto) where
  accepted_answer :
      (o : Outcome) (later : ℕ) (id h k : Text) (row : Session) (db : Db)
      (answer reply : TokenReply)
      → (reply_after answer (hide_invalid (rotate_refresh_token o later id h k row db))).0
        ≡ ok reply
      → IsRevoked id
          (reply_after answer (hide_invalid (rotate_refresh_token o later id h k row db))).1
  accepted_answer o later id h k row db answer reply accepted =
      rw (reply_after-db, hide_invalid-db)
        (rotate-ok id o later h k row db tt (written answer reply _ accepted))

  accepted_seen :
      (o : Outcome) (now later : ℕ) (w : Draws) (id secret role : Text) (seen : Option Session)
      (db : Db) (reply : TokenReply)
      → (refresh_seen crypto o now later w id secret role seen db).0 ≡ ok reply
      → IsRevoked id (refresh_seen crypto o now later w id secret role seen db).1
  unfolding refresh_seen
  accepted_seen o now later w id secret role none db reply = λ h. absurd (cc h)
  accepted_seen o now later w id secret role (some s) db reply =
      elim (Bool-cases (can_refresh crypto now secret role s)) [
        | inr refused ↦ rw (refused, refresh_seen) (λ h. absurd (cc h))
        | inl granted ↦ elim (Result-cases (issue_tokens crypto now w s.user_id s.role)) [
          | inl (e, h) ↦ rw (granted, refresh_seen) (rw h (λ c. absurd (cc c)))
          | inr ((answer, row), h) ↦
              rw (granted, refresh_seen)
                (rw h (
                  accepted_answer o later id (crypto.hash_token secret) w.refresh_id row db answer
                    reply))
        ]
      ]

  accepted-IsSpent :
      (o : Outcome) (now later : ℕ) (w : Draws) (token role : Text) (seen db : Db)
      (reply : TokenReply)
      → (refresh crypto o now later w token role seen db).0 ≡ ok reply
      → IsSpent token (refresh crypto o now later w token role seen db).1
  unfolding refresh
  accepted-IsSpent o now later w token role seen db reply =
      elim (Bool-cases (is_role (trim_space role))) [
        | inr bad ↦ rw (bad, refresh) (λ h. absurd (cc h))
        | inl valid ↦ elim (Option-cases (split_refresh_token token)) [
          | inl e ↦ rw (valid, refresh) (rw e (λ h. absurd (cc h)))
          | inr ((id, secret), e) ↦
              rw (valid, refresh)
                (rw e (λ h. record {
                  token_id = id;
                  secret = secret;
                  splits = e;
                  session_revoked =
                      accepted_seen o now later w id secret _ (lookup id seen.refresh_token_session)
                        db reply h;
                }))
        ]
      ]

  logged_out-IsSpent :
      (o : Outcome) (token role : Text) (db : Db)
      → (logout crypto o token role db).0 ≡ ok tt
      → IsSpent token (logout crypto o token role db).1
  unfolding logout
  logged_out-IsSpent o token role db = elim (Bool-cases (is_role (trim_space role))) [
    | inr bad ↦ rw (bad, logout) (λ h. absurd (cc h))
    | inl valid ↦ elim (Option-cases (split_refresh_token token)) [
      | inl e ↦ rw (valid, logout) (rw e (λ h. absurd (cc h)))
      | inr ((id, secret), e) ↦
          rw (valid, logout)
            (rw e (λ h. record {
              token_id = id;
              secret = secret;
              splits = e;
              session_revoked = rw hide_invalid-db (
                  revoke-ok id o (crypto.hash_token secret) (trim_space role) db tt
                    (revoked_row _ h));
            }))
    ]
  ]

  IsSpent-then : (token : Text) {s t : Db} → Requests crypto s t → IsSpent token s → IsSpent token t
  IsSpent-then token r v = record {
    token_id = v.token_id;
    secret = v.secret;
    splits = v.splits;
    session_revoked = requests-IsRevoked r v.session_revoked;
  }

  -- A refresh that was answered with new tokens has spent its token: after any further requests no
  -- refresh with it is answered with tokens, at any time, for any role, and also where that refresh
  -- had read the session before it was spent.
  pub refresh_once :
      (o o' : Outcome) (now later now' later' : ℕ) (w w' : Draws) (token role role' : Text)
      (seen seen' s t : Db) (reply reply' : TokenReply)
      → (refresh crypto o now later w token role seen s).0 ≡ ok reply
      → Requests crypto (refresh crypto o now later w token role seen s).1 t
      → (refresh crypto o' now' later' w' token role' seen' t).0 ≢ ok reply'
  refresh_once o o' now later now' later' w w' token role role' seen seen' s t reply reply' accepted
        r =
      spent-refresh crypto o' now' later' w' token role' seen' t reply'
        (IsSpent-then token r (accepted-IsSpent o now later w token role seen s reply accepted))

  -- After a logout that succeeded and any further requests, no refresh with its token is answered
  -- with tokens.
  pub refresh-logout :
      (o o' : Outcome) (now later : ℕ) (w : Draws) (token role role' : Text) (seen s t : Db)
      (reply : TokenReply)
      → (logout crypto o token role s).0 ≡ ok tt
      → Requests crypto (logout crypto o token role s).1 t
      → (refresh crypto o' now later w token role' seen t).0 ≢ ok reply
  refresh-logout o o' now later w token role role' seen s t reply accepted r =
      spent-refresh crypto o' now later w token role' seen t reply
        (IsSpent-then token r (logged_out-IsSpent o token role s accepted))
