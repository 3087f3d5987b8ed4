-- ===== src/Common/Sum.antt =====
-- Sums over the entries of a dictionary.
use comment_project.Common.Base.{
  ◌≡◌, refl, ◌≢◌, none, some, Option, [], ◌∷◌, arith, Bool-cases, inl, inr,
}
use comment_project.Common.Int.{ℤ, pos, ◌+ℤ◌, int_laws}
use comment_project.Common.Dict.{Eq, Dict, lookup, erase, Distinct, erase_absent, missing-ne-found}
use comment_project.Common.Table.{add, adjust, adjust_absent}

unfoldable pub sum_by {ℓ κ} : {K : Type ℓ} {V : Type κ} → (K → V → ℤ) → Dict K V → ℤ
sum_by f [] = pos 0
sum_by f ((k, v) ∷ m) = f k v +ℤ sum_by f m

pub sum_by_equal {ℓ κ} :
    {K : Type ℓ} {V : Type κ} (f g : K → V → ℤ) (m : Dict K V)
    → ((k : K) (v : V) → f k v ≡ g k v)
    → sum_by f m ≡ sum_by g m
unfolding sum_by
sum_by_equal f g [] h = refl
sum_by_equal f g ((k, v) ∷ m) h = rw (h k v, sum_by_equal f g m h)

abbrev pub value_or_zero {κ} : {V : Type κ} → (V → ℤ) → Option V → ℤ
value_or_zero f none = pos 0
value_or_zero f (some v) = f v

module _ {ℓ κ} {K : Type ℓ} {V : Type κ} ⦃e : Eq K⦄ where
  pub sum_by-erase :
      (f : K → V → ℤ) (k : K) (m : Dict K V)
      → Distinct m
      → sum_by f m ≡ value_or_zero (f k) (lookup k m) +ℤ sum_by f (erase k m)
  unfolding sum_by lookup erase
  sum_by-erase f k [] h = omega int_laws
  sum_by-erase f k ((j, v) ∷ m) h = elim (Bool-cases (e.beq j k)) [
    | inl same ↦ grind (int_laws, same, e.beq_iff j k, erase_absent k m)
    | inr other ↦ grind (int_laws, other, sum_by-erase f k m h.1)
  ]

  -- Two summands that agree at all keys but `k` have the same sum without `k`.
  pub sum_by_agree :
      (f g : K → V → ℤ) (k : K) (m : Dict K V)
      → ((j : K) (v : V) → k ≢ j → f j v ≡ g j v)
      → sum_by f (erase k m) ≡ sum_by g (erase k m)
  unfolding sum_by erase
  sum_by_agree f g k [] h = refl
  sum_by_agree f g k ((j, v) ∷ m) h = elim (Bool-cases (e.beq j k)) [
    | inl same ↦ ground (arith, same, sum_by_agree f g k m h)
    | inr other ↦ ground (arith, other, sum_by_agree f g k m h, h j v, e.beq_iff j k)
  ]

  pub sum_by-add :
      (f : K → V → ℤ) (k : K) (v : V) (m : Dict K V)
      → lookup k m ≡ none
      → sum_by f (add k v m) ≡ sum_by f m +ℤ f k v
  unfolding sum_by lookup add
  sum_by-add f k v [] h = omega int_laws
  sum_by-add f k v ((j, w) ∷ m) h = grind (int_laws, sum_by-add f k v m)

  pub sum_by-adjust :
      (f : K → V → ℤ) (k : K) (h : V → V) (v : V) (m : Dict K V)
      → Distinct m
      → lookup k m ≡ some v
      → sum_by f (adjust k h m) +ℤ f k v ≡ sum_by f m +ℤ f k (h v)
  unfolding sum_by lookup adjust
  sum_by-adjust f k h v [] d l = cc
  sum_by-adjust f k h v ((j, w) ∷ m) d l = elim (Bool-cases (e.beq j k)) [
    | inl same ↦ grind (int_laws, same, e.beq_iff j k, adjust_absent k h m)
    | inr other ↦ grind (int_laws, other, sum_by-adjust f k h v m d.1)
  ]

  -- Summands that agree at the entries have the same sum.
  pub sum_by_equal_on :
      (f g : K → V → ℤ) (m : Dict K V)
      → Distinct m
      → ((k : K) (v : V) → lookup k m ≡ some v → f k v ≡ g k v)
      → sum_by f m ≡ sum_by g m
  unfolding sum_by lookup
  sum_by_equal_on f g [] d h = refl
  sum_by_equal_on f g ((k, v) ∷ m) d h = rw (
    h k v (ground (arith, e.beq_iff k k)),
    sum_by_equal_on f g m d.1 λ j w found. h j w (
        ground
          (arith, found, e.beq_iff k j, λ (same : k ≡ j). missing-ne-found k j m d.0 found same)),
  )
