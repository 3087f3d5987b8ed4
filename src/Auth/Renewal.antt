-- ===== src/Auth/Renewal.antt =====
-- A refresh token that was just issued can be refreshed until it expires, and so can the next one.
use comment_project.Common.{ℕ, ◌+◌, ◌≤◌, ◌≡◌, refl, sym, true, false, none, some, ◌∷◌, ◌++◌, arith}
use comment_project.Common.Int.{ℤ}
use comment_project.Common.Dict.{Dict, text_eq, lookup, missing-ne-found}
use comment_project.Common.Table.{add, adjust, lookup-add_absent, lookup-adjust_ne}
use comment_project.Common.Text.{Text}
use comment_project.Common.Trim.{trim_space, is_empty}
use comment_project.Common.Outcome.{answers}
use comment_project.Auth.State.{Session, Db, Result, ok, error, TokenReply}
use comment_project.Auth.Repo.{create_refresh_token, rotate_refresh_token, can_rotate, commit_write}
use comment_project.Auth.Usecase.{
  Crypto, Draws, issue_tokens, reply_after, issue_and_store_tokens, refresh, refresh_seen,
  hide_invalid, can_refresh, is_role, refresh_token_ttl, sign_access_token, signing_secret,
}
use comment_project.Auth.Access.{IsDrawn, split_refresh_token-append, text_beq_same}

-- The session of a refresh token that was just issued.
pub record IsLive (crypto : Crypto) (db : Db) (id secret : Text) (user_id : ℤ) (role : Text)
    (until : ℕ) : Type 0 where
  pub session : Session
  pub found : lookup id db.refresh_token_session ≡ some session
  pub of_user : session.user_id ≡ user_id
  pub of_role : session.role ≡ role
  pub hashed : session.token_hash ≡ crypto.hash_token secret
  pub usable : session.revoked ≡ false
  pub expires : session.expires_at ≡ until

is_role-signs : (role : Text) → is_role role ≡ true → is_empty (signing_secret role) ≡ false
unfolding signing_secret
is_role-signs role h = ground arith

issue_tokens-ok :
    (crypto : Crypto) (now : ℕ) (w : Draws) (user_id : ℤ) (role : Text)
    → is_role role ≡ true
    → (reply : TokenReply) × (row : Session) × (issue_tokens crypto now w user_id role
        ≡ ok (reply, row))
      × (reply.refresh_token ≡ w.refresh_id ++ b'.' ∷ w.refresh_secret)
      × (reply.user_id ≡ user_id)
      × (row.user_id ≡ user_id)
      × (row.role ≡ role)
      × (row.token_hash ≡ crypto.hash_token w.refresh_secret)
      × (row.revoked ≡ false)
      × (row.expires_at ≡ now + refresh_token_ttl)
unfolding issue_tokens sign_access_token
issue_tokens-ok crypto now w user_id role h =
    rw (is_role-signs role h, issue_tokens) (_, _, refl, refl, refl, refl, refl, refl, refl, refl)

-- The new row of a rotation is found under its identifier.
new_row :
    (id k : Text) (row : Session) (f : Session → Session) (m : Dict Text Session) {s : Session}
    → lookup id m ≡ some s
    → lookup k m ≡ none
    → lookup k (adjust id f (add k row m)) ≡ some row
new_row id k row f m e fresh =
    let there : lookup k (add k row m) ≡ some row =
      rw (lookup-add_absent k k row m fresh, text_beq_same k) refl in
    cc (
      lookup-adjust_ne k id f (add k row m) (λ same. missing-ne-found k id m fresh e (sym same)),
      there,
    )

hidden : (r : Result (Unit {0}) × Db) → r.0 ≡ ok tt → hide_invalid r ≡ r
unfolding hide_invalid
hidden (ok u, db) h = refl
hidden (error e, db) h = absurd (cc h)

create-fresh :
    (k : Text) (row : Session) (db : Db)
    → lookup k db.refresh_token_session ≡ none
    → let (result, t) = create_refresh_token answers k row db in
      (result ≡ ok tt) × (lookup k t.refresh_token_session ≡ some row)
unfolding create_refresh_token commit_write
create-fresh k row db fresh =
    rw (fresh, create_refresh_token)
      (refl, rw (lookup-add_absent k k row db.refresh_token_session fresh, text_beq_same k) refl)

module _ (crypto : Crypto) where
  can_refresh-live :
      (db : Db) (id secret role : Text) (user_id : ℤ) (until now : ℕ)
      (v : IsLive crypto db id secret user_id role until)
      → now ≤ until
      → can_refresh crypto now secret role v.session ≡ true
  unfolding can_refresh
  can_refresh-live db id secret role user_id until now v h =
      rw (v.of_role, v.usable, v.hashed, v.expires)
        (rw (text_beq_same role, text_beq_same (crypto.hash_token secret)) (ground (arith, h)))

  can_rotate-live :
      (db : Db) (id secret role : Text) (user_id : ℤ) (until now : ℕ)
      (v : IsLive crypto db id secret user_id role until)
      → now ≤ until
      → can_rotate now (crypto.hash_token secret) v.session ≡ true
  unfolding can_rotate
  can_rotate-live db id secret role user_id until now v h =
      rw (v.usable, v.hashed, v.expires)
        (rw (text_beq_same (crypto.hash_token secret)) (ground (arith, h)))

  rotate-live :
      (db : Db) (id secret role k : Text) (row : Session) (user_id : ℤ) (until now : ℕ)
      → IsLive crypto db id secret user_id role until
      → now ≤ until
      → lookup k db.refresh_token_session ≡ none
      → let (result, t) = rotate_refresh_token answers now id (crypto.hash_token secret) k row db in
        (result ≡ ok tt) × (lookup k t.refresh_token_session ≡ some row)
  unfolding rotate_refresh_token commit_write
  rotate-live db id secret role k row user_id until now v h fresh =
      rw (v.found, rotate_refresh_token)
        (rw (can_rotate-live db id secret role user_id until now v h, fresh)
          (refl, new_row id k row _ db.refresh_token_session v.found fresh))

  answered :
      (now : ℕ) (w : Draws) (user_id : ℤ) (role : Text) (db : Db) (reply : TokenReply)
      (row : Session) (written : Result (Unit {0}) × Db)
      → reply.user_id ≡ user_id
      → written.0 ≡ ok tt
      → lookup w.refresh_id written.1.refresh_token_session ≡ some row
      → row.user_id ≡ user_id
      → row.role ≡ role
      → row.token_hash ≡ crypto.hash_token w.refresh_secret
      → row.revoked ≡ false
      → row.expires_at ≡ now + refresh_token_ttl
      → ((reply_after reply written).0 ≡ ok reply)
        × IsLive crypto
            (reply_after reply written).1
            w.refresh_id
            w.refresh_secret
            user_id
            role
            (now + refresh_token_ttl)
  unfolding reply_after
  answered now w user_id role db reply row (ok u, t) a b c d e f g h = (
    refl,
    record {
      session = row;
      found = c;
      of_user = d;
      of_role = e;
      hashed = f;
      usable = g;
      expires = h;
    },
  )
  answered now w user_id role db reply row (error x, t) a b c d e f g h = absurd (cc b)

  -- Tokens issued for a known role come with a live session of their refresh token, for seven
  -- days, if the drawn identifier is not taken and the write answers.
  pub issue-IsLive :
      (now : ℕ) (w : Draws) (user_id : ℤ) (role : Text) (db : Db)
      → is_role role ≡ true
      → lookup w.refresh_id db.refresh_token_session ≡ none
      → let (result, t) = issue_and_store_tokens crypto answers now w user_id role db in
        (reply : TokenReply) × (result ≡ ok reply)
        × (reply.user_id ≡ user_id)
        × (reply.refresh_token ≡ w.refresh_id ++ b'.' ∷ w.refresh_secret)
        × IsLive crypto t w.refresh_id w.refresh_secret user_id role (now + refresh_token_ttl)
  unfolding issue_and_store_tokens
  issue-IsLive now w user_id role db valid fresh =
      let (reply, row, issued, token, of_user, a, b, c, d, e) =
        issue_tokens-ok crypto now w user_id role valid in
      let (stored, there) = create-fresh w.refresh_id row db fresh in
      let (answer, live) =
        answered now w user_id role db reply row (create_refresh_token answers w.refresh_id row db)
          of_user stored there a b c d e in
      rw (issued, issue_and_store_tokens) (reply, answer, of_user, token, live)

  live_seen :
      (now later : ℕ) (w : Draws) (id secret role its_role : Text) (user_id : ℤ) (until : ℕ)
      (db : Db)
      → is_role role ≡ true
      → its_role ≡ role
      → IsLive crypto db id secret user_id role until
      → now ≤ until
      → later ≤ until
      → lookup w.refresh_id db.refresh_token_session ≡ none
      → let (result, t) =
          refresh_seen crypto answers now later w id secret its_role
            (lookup id db.refresh_token_session)
            db in
        (reply : TokenReply) × (result ≡ ok reply)
        × (reply.user_id ≡ user_id)
        × (reply.refresh_token ≡ w.refresh_id ++ b'.' ∷ w.refresh_secret)
        × IsLive crypto t w.refresh_id w.refresh_secret user_id role (now + refresh_token_ttl)
  unfolding refresh_seen
  live_seen now later w id secret role its_role user_id until db valid same v early later_early
        fresh =
      let (reply, row, issued, token, of_user, a, b, c, d, e) =
        issue_tokens-ok crypto now w user_id role valid in
      let (rotated, there) =
        rotate-live db id secret role w.refresh_id row user_id until later v later_early fresh in
      let shown =
        hidden
          (rotate_refresh_token answers later id (crypto.hash_token secret) w.refresh_id row db)
          rotated in
      let (answer, live) =
        answered now w user_id role db reply row _ of_user rotated there a b c d e in
      let can : can_refresh crypto now secret its_role v.session ≡ true =
        rw same (can_refresh-live db id secret role user_id until now v early) in
      let issued_again : issue_tokens crypto now w v.session.user_id v.session.role
          ≡ ok (reply, row) =
        rw (v.of_user, v.of_role) issued in
      rw v.found (rw can (rw issued_again (rw shown (reply, answer, of_user, token, live))))

  -- For a known role and drawn texts without dots and spaces, a refresh with a live token before
  -- it expires, whose calls answer and whose new identifier is not taken, is answered with tokens
  -- of the same user, and leaves a live session of the new refresh token.
  pub refresh-IsLive :
      (now later : ℕ) (w : Draws) (id secret role : Text) (user_id : ℤ) (until : ℕ) (db : Db)
      → is_role role ≡ true
      → trim_space role ≡ role
      → IsDrawn id
      → IsDrawn secret
      → IsLive crypto db id secret user_id role until
      → now ≤ until
      → later ≤ until
      → lookup w.refresh_id db.refresh_token_session ≡ none
      → let (result, t) = refresh crypto answers now later w (id ++ b'.' ∷ secret) role db db in
        (reply : TokenReply) × (result ≡ ok reply)
        × (reply.user_id ≡ user_id)
        × (reply.refresh_token ≡ w.refresh_id ++ b'.' ∷ w.refresh_secret)
        × IsLive crypto t w.refresh_id w.refresh_secret user_id role (now + refresh_token_ttl)
  unfolding refresh
  refresh-IsLive now later w id secret role user_id until db valid trimmed drawn drawn_secret v
        early later_early fresh =
      let role_valid : is_role (trim_space role) ≡ true = rw trimmed valid in
      let seen =
        live_seen now later w id secret role (trim_space role) user_id until db valid trimmed v
          early later_early fresh in
      rw (role_valid, split_refresh_token-append id secret drawn drawn_secret) seen
