-- ===== src/Auth/Rotation.antt =====
-- A refresh token is spent once: whatever requests run, in whatever order.
use comment_project.Common.{
  ℕ, ◌≡◌, ◌≢◌, refl, inl, inr, true, ◌&&◌, none, some, arith, Option-cases, Bool-cases,
}
use comment_project.Common.Int.{ℤ}
use comment_project.Common.Dict.{Dict, text_eq, text_beq, text_beq_iff, lookup}
use comment_project.Common.Table.{
  add, adjust, lookup-adjust_self, lookup-adjust_ne, lookup-add_absent,
}
use comment_project.Common.Text.{Text}
use comment_project.Common.Outcome.{Outcome, answers, fails, unheard}
use comment_project.Auth.State.{Session, Db, invalid_refresh_token, ok, error}
use comment_project.Auth.Repo.{
  create_user, create_refresh_token, rotate_refresh_token, revoke_refresh_token, can_rotate,
  commit_write, no_row, replace_by, revoke, find_account, has_user_id,
}

-- The token's session is there and is revoked.
pub record IsRevoked (id : Text) (db : Db) : Type 0 where
  pub session : Session
  pub found : lookup id db.refresh_token_session ≡ some session
  pub revoked : session.revoked ≡ true

FoundIn : (id : Text) (m : Dict Text Session) → Type 0
FoundIn id m = (s : Session) × (lookup id m ≡ some s) × (s.revoked ≡ true)

adjust-revoked :
    (id k : Text) (f : Session → Session) (m : Dict Text Session)
    → ((s : Session) → (f s).revoked ≡ true)
    → FoundIn id m
    → FoundIn id (adjust k f m)
unfolding FoundIn
adjust-revoked id k f m h (s, e, r) = elim (Bool-cases (text_beq k id)) [
  | inl same ↦
      let eq = (text_beq_iff k id).0 same in (f s, rw eq (lookup-adjust_self id f s m e), h s)
  | inr other ↦ (s, ground (arith, lookup-adjust_ne id k f m, text_beq_iff k id, other, e), r)
]

add-revoked :
    (id k : Text) (v : Session) (m : Dict Text Session)
    → lookup k m ≡ none
    → FoundIn id m
    → FoundIn id (add k v m)
unfolding FoundIn
add-revoked id k v m h (s, e, r) =
    (s, ground (arith, lookup-add_absent id k v m h, text_beq_iff k id, e, h), r)

IsRevoked-of : {id : Text} {db : Db} → FoundIn id db.refresh_token_session → IsRevoked id db
unfolding FoundIn
IsRevoked-of (s, e, r) = record { session = s; found = e; revoked = r }

found-of : {id : Text} {db : Db} → IsRevoked id db → FoundIn id db.refresh_token_session
unfolding FoundIn
found-of v = (v.session, v.found, v.revoked)

not-ok : (o : Outcome) (u : Unit) → no_row o ≢ ok u
not-ok answers u h = cc h
not-ok fails u h = cc h
not-ok unheard u h = cc h

module _ (id : Text) where
  commit-IsRevoked :
      {A : Type 0} (o : Outcome) (a : A) (before after : Db)
      → IsRevoked id before
      → IsRevoked id after
      → IsRevoked id (commit_write o a before after).1
  unfolding commit_write
  commit-IsRevoked answers a before after v w = w
  commit-IsRevoked fails a before after v w = v
  commit-IsRevoked unheard a before after v w = w

  pub create_refresh_token-IsRevoked :
      (o : Outcome) (k : Text) (row : Session) (db : Db)
      → IsRevoked id db
      → IsRevoked id (create_refresh_token o k row db).1
  unfolding create_refresh_token
  create_refresh_token-IsRevoked o k row db v =
      elim (Option-cases (lookup k db.refresh_token_session)) [
        | inr (s, e) ↦ rw (e, create_refresh_token) v
        | inl e ↦
            rw (e, create_refresh_token)
              (commit-IsRevoked o tt db _ v
                (IsRevoked-of (add-revoked id k row db.refresh_token_session e (found-of v))))
      ]

  pub rotate-IsRevoked :
      (o : Outcome) (now : ℕ) (old_id h k : Text) (row : Session) (db : Db)
      → IsRevoked id db
      → IsRevoked id (rotate_refresh_token o now old_id h k row db).1
  unfolding rotate_refresh_token
  rotate-IsRevoked o now old_id h k row db v =
      elim (Option-cases (lookup old_id db.refresh_token_session)) [
        | inl e ↦ rw (e, rotate_refresh_token) v
        | inr (old, e) ↦ elim (Bool-cases (can_rotate now h old)) [
          | inr refused ↦ rw (e, rotate_refresh_token) (rw refused v)
          | inl allowed ↦ elim (Option-cases (lookup k db.refresh_token_session)) [
            | inr (s, f) ↦ rw (e, rotate_refresh_token) (rw (allowed, f) v)
            | inl f ↦
                rw (e, rotate_refresh_token)
                  (rw (allowed, f)
                    (commit-IsRevoked o tt db _ v (
                      IsRevoked-of (
                        adjust-revoked id old_id (replace_by k) (add k row db.refresh_token_session)
                          (λ s. refl)
                          (add-revoked id k row db.refresh_token_session f (found-of v))))))
          ]
        ]
      ]

  pub revoke-IsRevoked :
      (o : Outcome) (k h role : Text) (db : Db)
      → IsRevoked id db
      → IsRevoked id (revoke_refresh_token o k h role db).1
  unfolding revoke_refresh_token
  revoke-IsRevoked o k h role db v = elim (Option-cases (lookup k db.refresh_token_session)) [
    | inl e ↦ rw (e, revoke_refresh_token) v
    | inr (s, e) ↦ elim (Bool-cases (text_beq s.token_hash h && text_beq s.role role)) [
      | inr other ↦ rw (e, revoke_refresh_token) (rw other v)
      | inl same ↦
          rw (e, revoke_refresh_token)
            (rw same (
              commit-IsRevoked o tt db _ v (
                IsRevoked-of
                  (adjust-revoked id k revoke db.refresh_token_session (λ t. refl) (found-of v)))))
    ]
  ]

  pub create_user-IsRevoked :
      (o : Outcome) (n : ℤ) (username role h : Text) (db : Db)
      → IsRevoked id db
      → IsRevoked id (create_user o n username role h db).1
  unfolding create_user
  create_user-IsRevoked o n username role h db v =
      elim (Option-cases (find_account username role db.user_account)) [
        | inr (a, e) ↦ rw (e, create_user) v
        | inl e ↦ elim (Bool-cases (has_user_id n db.user_account)) [
          | inl taken ↦ rw (e, create_user) (rw taken v)
          | inr free ↦
              rw (e, create_user)
                (rw free (commit-IsRevoked o _ db _ v (IsRevoked-of (found-of v))))
        ]
      ]

  -- A session that is revoked is not rotated, whatever the request has read before.
  pub rotate_revoked :
      (o : Outcome) (now : ℕ) (h k : Text) (row : Session) (db : Db)
      → IsRevoked id db
      → rotate_refresh_token o now id h k row db ≡ (error invalid_refresh_token, db)
  unfolding rotate_refresh_token can_rotate
  rotate_revoked o now h k row db v = rw (v.found, rotate_refresh_token) (rw v.revoked refl)

  commit-ok :
      {A : Type 0} (o : Outcome) (a b : A) (before after : Db)
      → IsRevoked id after
      → (commit_write o a before after).0 ≡ ok b
      → IsRevoked id (commit_write o a before after).1
  unfolding commit_write
  commit-ok answers a b before after v h = v
  commit-ok fails a b before after v h = absurd (cc h)
  commit-ok unheard a b before after v h = v

  still_there :
      (k : Text) (row old : Session) (db : Db)
      → lookup k db.refresh_token_session ≡ none
      → lookup id db.refresh_token_session ≡ some old
      → lookup id (add k row db.refresh_token_session) ≡ some old
  still_there k row old db f e =
      ground (arith, lookup-add_absent id k row db.refresh_token_session f, e, f, text_beq_iff k id)

  -- A rotation that succeeds leaves the session revoked.
  pub rotate-ok :
      (o : Outcome) (now : ℕ) (h k : Text) (row : Session) (db : Db) (u : Unit)
      → (rotate_refresh_token o now id h k row db).0 ≡ ok u
      → IsRevoked id (rotate_refresh_token o now id h k row db).1
  unfolding rotate_refresh_token
  rotate-ok o now h k row db u = elim (Option-cases (lookup id db.refresh_token_session)) [
    | inl e ↦ rw (e, rotate_refresh_token) (λ c. absurd (cc c))
    | inr (old, e) ↦ elim (Bool-cases (can_rotate now h old)) [
      | inr refused ↦ rw (e, rotate_refresh_token) (rw refused (λ c. absurd (cc c)))
      | inl allowed ↦ elim (Option-cases (lookup k db.refresh_token_session)) [
        | inr (s, f) ↦ rw (e, rotate_refresh_token) (rw (allowed, f) (λ c. absurd (cc c)))
        | inl f ↦
            rw (e, rotate_refresh_token)
              (rw (allowed, f)
                (commit-ok o tt u db _ (record {
                  session = replace_by k old;
                  found = lookup-adjust_self id (replace_by k) old _ (still_there k row old db f e);
                  revoked = refl;
                })))
      ]
    ]
  ]

  -- A revocation that succeeds leaves the session revoked.
  pub revoke-ok :
      (o : Outcome) (h role : Text) (db : Db) (u : Unit)
      → (revoke_refresh_token o id h role db).0 ≡ ok u
      → IsRevoked id (revoke_refresh_token o id h role db).1
  unfolding revoke_refresh_token
  revoke-ok o h role db u = elim (Option-cases (lookup id db.refresh_token_session)) [
    | inl e ↦ rw (e, revoke_refresh_token) (λ c. absurd (not-ok o u c))
    | inr (s, e) ↦ elim (Bool-cases (text_beq s.token_hash h && text_beq s.role role)) [
      | inr other ↦ rw (e, revoke_refresh_token) (rw other (λ c. absurd (not-ok o u c)))
      | inl same ↦
          rw (e, revoke_refresh_token)
            (rw same (
              commit-ok o tt u db _ (record {
                session = revoke s;
                found = lookup-adjust_self id revoke s db.refresh_token_session e;
                revoked = refl;
              })))
    ]
  ]
