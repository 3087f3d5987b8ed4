-- ===== src/RateLimit/Bounds.antt =====
-- A bucket never holds less than nothing or more than its capacity.
use comment_project.Common.{
  ℕ, ◌-◌, ◌≡◌, subst, inl, inr, true, false, Option, none, some, List, [], ◌∷◌, All, map, arith,
  ltb, Bool-cases, Option-cases,
}
use comment_project.Common.Dict.{text_eq, text_beq, text_beq_iff, lookup, insert, lookup-insert}
use comment_project.Common.Outcome.{Outcome, answers, fails, unheard}
use comment_project.Common.Text.{Text}
use comment_project.RateLimit.{
  Numbers, Bucket, Buckets, Saved, min_of, seconds, refilled, ScriptReply, taken, take_tokens,
  multi_bucket, Decision, invalid_bucket, after_eval, if_valid, allow,
}
use comment_project.RateLimit.Script.{content, Full, is_short, check-cases}

-- What holds of doubles that are no NaN: the order is total, and rounding keeps it.
pub record IsNumbers (n : Numbers) : Type 0 where
  pub le_refl : (a : n.Num) → n.le a a ≡ true
  pub le_total : (a b : n.Num) → n.le a b ≡ false → n.le b a ≡ true
  pub le_trans : (a b c : n.Num) → n.le a b ≡ true → n.le b c ≡ true → n.le a c ≡ true
  pub sub_one_pos : (a : n.Num) → n.le n.one a ≡ true → n.le n.zero (n.sub a n.one) ≡ true
  pub sub_one_le : (a : n.Num) → n.le (n.sub a n.one) a ≡ true
  pub reread_mono : (a b : n.Num) → n.le a b ≡ true → n.le (n.reread a) (n.reread b) ≡ true

module _ (n : Numbers) (law : IsNumbers n) (capacity : Text → n.Num) where
  -- The capacity of a bucket is that of its key, and is read back as it was written, or as less.
  pub record IsConfigured (b : Bucket n) : Type 0 where
    pub own : b.rule.capacity ≡ capacity b.key
    pub kept : n.le (n.reread b.rule.capacity) b.rule.capacity ≡ true

  pub record IsWithin (key : Text) (s : Saved n) : Type 0 where
    pub at_least : n.le n.zero s.tokens ≡ true
    pub at_most : n.le s.tokens (capacity key) ≡ true

  abbrev pub Within : Buckets n → Type 0
  Within s = (key : Text) (saved : Saved n) → lookup key s ≡ some saved → IsWithin key saved

  min-le : (a b : n.Num) → n.le (min_of n a b) a ≡ true
  min-le a b = elim (Bool-cases (n.le a b)) [
    | inl above ↦ rw above (law.le_refl a)
    | inr below ↦ rw below (law.le_total a b below)
  ]

  content-le :
      (now : ℕ) (s : Buckets n) (b : Bucket n)
      → Within s
      → IsConfigured b
      → n.le (content n now s b).0 (capacity b.key) ≡ true
  unfolding refilled
  content-le now s b w c = elim (Option-cases (lookup b.key s)) [
    | inl absent ↦ rw (absent, refilled) (rw c.own (law.le_refl (capacity b.key)))
    | inr (saved, there) ↦
        let full = law.reread_mono saved.tokens (capacity b.key) (w b.key saved there).at_most in
        let kept : n.le (n.reread (capacity b.key)) (capacity b.key) ≡ true =
          subst (λ x. n.le (n.reread x) x ≡ true) c.own c.kept in
        elim (Bool-cases (ltb saved.last_refill_time now)) [
          | inl later ↦
              rw (there, refilled, later)
                (subst
                  (λ x.
                    n.le
                      (min_of n b.rule.capacity (
                        n.add (n.reread saved.tokens)
                          (n.mul (seconds n (now - saved.last_refill_time)) b.rule.rate)))
                      x
                    ≡ true)
                  c.own
                  (min-le b.rule.capacity (
                    n.add (n.reread saved.tokens)
                      (n.mul (seconds n (now - saved.last_refill_time)) b.rule.rate))))
          | inr same ↦
              rw (there, refilled, same)
                (law.le_trans (n.reread saved.tokens) (n.reread (capacity b.key)) (capacity b.key)
                  full kept)
        ]
  ]

  taken-IsWithin :
      (now : ℕ) (s : Buckets n) (b : Bucket n)
      → Within s
      → IsConfigured b
      → is_short n now s b ≡ false
      → IsWithin b.key (taken n b.rule (content n now s b))
  taken-IsWithin now s b w c full =
      let x = (content n now s b).0 in
      let one_there : n.le n.one x ≡ true = ground (arith, full) in
      record {
        at_least = law.sub_one_pos x one_there;
        at_most =
            law.le_trans (n.sub x n.one) x (capacity b.key) (law.sub_one_le x)
              (content-le now s b w c);
      }

  pub insert-Within :
      (key : Text) (saved : Saved n) (s : Buckets n)
      → Within s
      → IsWithin key saved
      → Within (insert key saved s)
  insert-Within key saved s w h k other found = elim (Bool-cases (text_beq key k)) [
    | inl same ↦
        let is : saved ≡ other = ground (arith, lookup-insert k key saved s, same, found) in
        subst (λ j. IsWithin j other) ((text_beq_iff key k).0 same) (subst (IsWithin key) is h)
    | inr apart ↦ w k other (ground (arith, lookup-insert k key saved s, apart, found))
  ]

  take_tokens-Within :
      (now : ℕ) (start : Buckets n) (bs : List (Bucket n)) (s : Buckets n)
      → Within start
      → Within s
      → All IsConfigured bs
      → Full n now start bs
      → Within (take_tokens n bs (map (content n now start) bs) s)
  unfolding take_tokens
  take_tokens-Within now start [] s w0 w c full = w
  take_tokens-Within now start (b ∷ bs) s w0 w c full =
      take_tokens-Within now start bs (insert b.key (taken n b.rule (content n now start b)) s) w0
        (insert-Within b.key (taken n b.rule (content n now start b)) s w
          (taken-IsWithin now start b w0 c.0 full.0))
        c.1 full.1

  multi_bucket-Within :
      (bs : List (Bucket n)) (now : ℕ) (s : Buckets n)
      → Within s
      → All IsConfigured bs
      → Within (multi_bucket n bs now s).1
  unfolding multi_bucket
  multi_bucket-Within bs now s w c = elim (check-cases n 1 bs now s) [
    | inl (full, is) ↦ rw (multi_bucket, is) (take_tokens-Within now s bs s w w c full)
    | inr (f, is) ↦ rw (multi_bucket, is) w
  ]

  after_eval-Within :
      (o : Outcome) (bs : List (Bucket n)) (s : Buckets n) (r : ScriptReply n × Buckets n)
      → Within s
      → Within r.1
      → Within (after_eval n o bs r s).1
  after_eval-Within answers bs s r before after = after
  after_eval-Within fails bs s r before after = before
  after_eval-Within unheard bs s r before after = after

  if_valid-Within :
      (v : Option Text) (s : Buckets n) (r : Decision n × Buckets n)
      → Within s
      → Within r.1
      → Within (if_valid n v s r).1
  if_valid-Within none s r before after = after
  if_valid-Within (some d) s r before after = before

  -- Where each bucket holds between nothing and the capacity of its key, and the rules of a request have
  -- these capacities, which are read back as they were written or as less, this stays so after the
  -- request is checked, however the call of the script ends.
  pub allow-Within :
      (o : Outcome) (bs : List (Bucket n)) (now : ℕ) (s : Buckets n)
      → Within s
      → All IsConfigured bs
      → Within (allow n o bs now s).1
  unfolding allow
  allow-Within o [] now s w c = w
  allow-Within o (b ∷ bs) now s w c =
      if_valid-Within (invalid_bucket n (b ∷ bs)) s
        (after_eval n o (b ∷ bs) (multi_bucket n (b ∷ bs) now s) s) w
        (after_eval-Within o (b ∷ bs) s (multi_bucket n (b ∷ bs) now s) w
          (multi_bucket-Within (b ∷ bs) now s w c))
