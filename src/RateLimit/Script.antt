-- ===== src/RateLimit/Script.antt =====
-- The script takes a token of every bucket, or nothing of any.
use comment_project.Common.{
  ℕ, ◌+◌, ◌-◌, ◌≡◌, ◌≢◌, ◌⊎◌, ◌∙◌, sym, subst, refl, ap, inl, inr, Bool, true, false, ◌++◌, none,
  some, List, [], ◌∷◌, All, map, arith, length, ltb, get_elem?, Bool-cases, if◌then◌else◌,
}
use comment_project.Common.Dict.{text_eq, lookup, insert, lookup-insert_self, lookup-insert_ne}
use comment_project.Common.Outcome.{answers}
use comment_project.Common.Text.{Text}
use comment_project.RateLimit.{
  Numbers, Bucket, Buckets, Saved, lt, refilled, blocked, enough, wait_ms, cons_checked, check,
  taken, take_tokens, refuses, grants, multi_bucket, Decision, allowed, limited, invalid_bucket,
  after_eval, if_valid, allow, dimension_of,
}

get_elem?-append {ℓ} :
    {A : Type ℓ} (xs : List A) (y : A) (ys : List A) → get_elem? (xs ++ y ∷ ys) (length xs) ≡ some y
get_elem?-append [] y ys = refl
get_elem?-append (x ∷ xs) y ys = get_elem?-append xs y ys

module _ (n : Numbers) where
  abbrev pub KeysDistinct : List (Bucket n) → Type 0
  KeysDistinct [] = Unit
  KeysDistinct (b ∷ bs) = All (λ (c : Bucket n). b.key ≢ c.key) bs × KeysDistinct bs

  -- what the bucket holds at the time
  abbrev pub content : ℕ → Buckets n → Bucket n → n.Num × ℕ
  content now s b = refilled n now b.rule (lookup b.key s)

  -- whether it holds less than a token
  abbrev pub is_short : ℕ → Buckets n → Bucket n → Bool
  is_short now s b = lt n (content now s b).0 n.one

  abbrev pub Full : ℕ → Buckets n → List (Bucket n) → Type 0
  Full now s bs = All (λ b. is_short now s b ≡ false) bs

  -- The first bucket of a list that is short.
  pub record FirstShort (now : ℕ) (s : Buckets n) (bs : List (Bucket n)) : Type 0 where
    pub before : List (Bucket n)
    pub short : Bucket n
    pub after : List (Bucket n)
    pub parts : bs ≡ before ++ short ∷ after
    pub full : Full now s before
    pub is_short : is_short now s short ≡ true

  pub check-cases :
      (i : ℕ) (bs : List (Bucket n)) (now : ℕ) (s : Buckets n)
      → (Full now s bs × (check n i bs now s ≡ enough (map (content now s) bs)))
        ⊎ ((f : FirstShort now s bs) × (check n i bs now s
              ≡ blocked
                  (i + length f.before)
                  (wait_ms n f.short.rule (content now s f.short).0)
                  (content now s f.short).0))
  unfolding check
  check-cases i [] now s = inl (tt, refl)
  check-cases i (b ∷ bs) now s = elim (Bool-cases (is_short now s b)) [
    | inl short ↦ inr (
      record { before = []; short = b; after = bs; parts = refl; full = tt; is_short = short },
      rw short (
          ap (λ k. blocked k (wait_ms n b.rule (content now s b).0) (content now s b).0)
            (omega arith)),
    )
    | inr full ↦ elim (check-cases (i + 1) bs now s) [
      | inl (all_full, is) ↦
          inl ((full, all_full), rw full (ap (cons_checked n (content now s b)) is))
      | inr (f, is) ↦ inr (
        record {
          before = b ∷ f.before;
          short = f.short;
          after = f.after;
          parts = ap (λ l. b ∷ l) f.parts;
          full = (full, f.full);
          is_short = f.is_short;
        },
        rw full (
            ap (cons_checked n (content now s b)) is
            ∙ ap
                (λ k.
                  blocked k (wait_ms n f.short.rule (content now s f.short).0)
                    (content now s f.short).0)
                (omega arith)),
      )
    ]
  ]

  take_tokens-other :
      (k : Text) (bs : List (Bucket n)) (f : Bucket n → n.Num × ℕ) (s : Buckets n)
      → All (λ (b : Bucket n). b.key ≢ k) bs
      → lookup k (take_tokens n bs (map f bs) s) ≡ lookup k s
  unfolding take_tokens
  take_tokens-other k [] f s h = refl
  take_tokens-other k (b ∷ bs) f s h =
      take_tokens-other k bs f (insert b.key (taken n b.rule (f b)) s) h.1
      ∙ lookup-insert_ne k b.key (taken n b.rule (f b)) s h.0

  flip_keys :
      (k : Text) (bs : List (Bucket n))
      → All (λ (c : Bucket n). k ≢ c.key) bs
      → All (λ (c : Bucket n). c.key ≢ k) bs
  flip_keys k [] h = tt
  flip_keys k (b ∷ bs) h = ((λ e. h.0 (sym e)), flip_keys k bs h.1)

  abbrev Taken : (Bucket n → n.Num × ℕ) → Buckets n → List (Bucket n) → Type 0
  Taken f s bs = All (λ b. lookup b.key s ≡ some (taken n b.rule (f b))) bs

  take_tokens-Taken :
      (bs : List (Bucket n)) (f : Bucket n → n.Num × ℕ) (s : Buckets n)
      → KeysDistinct bs
      → Taken f (take_tokens n bs (map f bs) s) bs
  unfolding take_tokens
  take_tokens-Taken [] f s d = tt
  take_tokens-Taken (b ∷ bs) f s d =
      let s' = insert b.key (taken n b.rule (f b)) s in
      (
        take_tokens-other b.key bs f s' (flip_keys b.key bs d.0)
            ∙ lookup-insert_self b.key (taken n b.rule (f b)) s,
        take_tokens-Taken bs f s' d.1,
      )

  -- A token of each bucket is taken.
  abbrev pub Given : (Bucket n → n.Num × ℕ) → Buckets n → List (Bucket n) → Type 0
  Given f s bs =
      All
        (λ b.
          (saved : Saved n) × (lookup b.key s ≡ some saved)
          × (saved.tokens ≡ n.sub (f b).0 n.one)
          × (saved.last_refill_time ≡ (f b).1))
        bs

  Taken-Given :
      (bs : List (Bucket n)) (f : Bucket n → n.Num × ℕ) (s : Buckets n)
      → Taken f s bs
      → Given f s bs
  Taken-Given [] f s h = tt
  Taken-Given (b ∷ bs) f s h = ((taken n b.rule (f b), h.0, refl, refl), Taken-Given bs f s h.1)

  -- What a check grants: each bucket was full and has given a token, and no other bucket has changed.
  pub record Granted (now : ℕ) (bs : List (Bucket n)) (s : Buckets n) (r : Decision n × Buckets n)
      : Type 0 where
    pub full : Full now s bs
    pub decided : r.0 ≡ allowed
    pub given : Given (content now s) r.1 bs
    pub others : (k : Text) → All (λ (b : Bucket n). b.key ≢ k) bs → lookup k r.1 ≡ lookup k s

  abbrev pub retry_after : ℕ → ℕ
  retry_after wait = if ltb wait 1000 then 1000 else wait

  -- What it refuses: the first bucket that was short is named, and nothing has changed.
  pub record Refused (now : ℕ) (bs : List (Bucket n)) (s : Buckets n) (r : Decision n × Buckets n)
      : Type 0 where
    pub first : FirstShort now s bs
    pub decided :
        r.0
        ≡ limited first.short.dimension
            (retry_after (wait_ms n first.short.rule (content now s first.short).0))
    pub unchanged : r.1 ≡ s

  multi_bucket-enough :
      (bs : List (Bucket n)) (now : ℕ) (s : Buckets n)
      → check n 1 bs now s ≡ enough (map (content now s) bs)
      → multi_bucket n bs now s ≡ (grants, take_tokens n bs (map (content now s) bs) s)
  unfolding multi_bucket
  multi_bucket-enough bs now s h = rw h refl

  multi_bucket-blocked :
      (bs : List (Bucket n)) (now i wait : ℕ) (current : n.Num) (s : Buckets n)
      → check n 1 bs now s ≡ blocked i wait current
      → multi_bucket n bs now s ≡ (refuses i wait, s)
  unfolding multi_bucket
  multi_bucket-blocked bs now i wait current s h = rw h refl

  allow-eval :
      (b : Bucket n) (bs : List (Bucket n)) (now : ℕ) (s : Buckets n)
      → invalid_bucket n (b ∷ bs) ≡ none
      → allow n answers (b ∷ bs) now s
        ≡ after_eval n answers (b ∷ bs) (multi_bucket n (b ∷ bs) now s) s
  unfolding allow
  allow-eval b bs now s h =
      ap (λ v. if_valid n v s (after_eval n answers (b ∷ bs) (multi_bucket n (b ∷ bs) now s) s)) h

  no_buckets : (now : ℕ) (s : Buckets n) → Granted now [] s (allow n answers [] now s)
  unfolding allow
  no_buckets now s = record { full = tt; decided = refl; given = tt; others = λ k h. refl }

  -- For buckets with distinct keys and valid rules, where the script answers: either each bucket has a
  -- token at the time, the request is allowed, each bucket loses one token and no other one changes; or
  -- the request is limited by the first bucket without one, for a second or more, and nothing changes.
  pub allow-cases :
      (bs : List (Bucket n)) (now : ℕ) (s : Buckets n)
      → invalid_bucket n bs ≡ none
      → KeysDistinct bs
      → Granted now bs s (allow n answers bs now s) ⊎ Refused now bs s (allow n answers bs now s)
  allow-cases [] now s valid distinct = inl (no_buckets now s)
  allow-cases (b ∷ bs) now s valid distinct =
      let all = b ∷ bs in
      elim (check-cases 1 all now s) [
        | inl (full, is) ↦
            let result =
              allow-eval b bs now s valid
              ∙ ap (λ r. after_eval n answers all r s) (multi_bucket-enough all now s is) in
            inl (
              subst (Granted now all s) (sym result) (record {
                full = full;
                decided = refl;
                given =
                    Taken-Given all (content now s) (take_tokens n all (map (content now s) all) s)
                      (take_tokens-Taken all (content now s) s distinct);
                others = λ k h. take_tokens-other k all (content now s) s h;
              }))
        | inr (f, is) ↦
            let wait = wait_ms n f.short.rule (content now s f.short).0 in
            let result =
              allow-eval b bs now s valid
              ∙ ap (λ r. after_eval n answers all r s)
                  (multi_bucket-blocked all now (1 + length f.before) wait (content now s f.short).0
                    s is) in
            let named : get_elem? all (1 + length f.before - 1) ≡ some f.short =
              ap (get_elem? all) (omega arith)
              ∙ ap (λ l. get_elem? l (length f.before)) f.parts
              ∙ get_elem?-append f.before f.short f.after in
            inr (
              subst (Refused now all s) (sym result) (record {
                first = f;
                decided = ap (λ o. limited (dimension_of n o) (retry_after wait)) named;
                unchanged = refl;
              }))
      ]
