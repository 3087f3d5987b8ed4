-- ===== src/Common/Table.antt =====
-- A table with a unique key: its rows stand in the order of insertion, which is that of the
-- auto-increment id.
use comment_project.Common.Base.{
  ◌≡◌, refl, ap, ◌∙◌, ◌≢◌, ◌⊎◌, none, some, [], ◌∷◌, arith, if◌then◌else◌, Bool-cases, Option-cases,
  inl, inr,
}
use comment_project.Common.Dict.{Eq, Dict, lookup, Distinct, missing-ne-found}

module _ {ℓ κ} {K : Type ℓ} {V : Type κ} ⦃e : Eq K⦄ where
  -- `UPDATE … WHERE key = k`: the entries keep their places.
  unfoldable pub adjust : K → (V → V) → Dict K V → Dict K V
  adjust k f [] = []
  adjust k f ((j, v) ∷ m) = (j, if e.beq j k then f v else v) ∷ adjust k f m

  -- `INSERT … ON DUPLICATE KEY` with nothing to update: a new entry goes to the end.
  unfoldable pub add : K → V → Dict K V → Dict K V
  add k v [] = (k, v) ∷ []
  add k v ((j, w) ∷ m) = let rest = add k v m in if e.beq j k then (j, w) ∷ m else (j, w) ∷ rest

  pub lookup-add_absent :
      (j k : K) (v : V) (m : Dict K V)
      → lookup k m ≡ none
      → lookup j (add k v m) ≡ (if e.beq k j then some v else lookup j m)
  unfolding lookup add
  lookup-add_absent j k v [] h = refl
  lookup-add_absent j k v ((i, w) ∷ m) h =
      ground (arith, e.beq_iff i k, e.beq_iff i j, e.beq_iff k j, lookup-add_absent j k v m)

  pub add_present : (k : K) (v w : V) (m : Dict K V) → lookup k m ≡ some w → add k v m ≡ m
  unfolding lookup add
  add_present k v w [] h = cc
  add_present k v w ((j, u) ∷ m) h = ground (arith, add_present k v w m)

  pub lookup-adjust_ne :
      (j k : K) (f : V → V) (m : Dict K V) → k ≢ j → lookup j (adjust k f m) ≡ lookup j m
  unfolding lookup adjust
  lookup-adjust_ne j k f [] h = refl
  lookup-adjust_ne j k f ((i, v) ∷ m) h =
      ground (arith, e.beq_iff i k, e.beq_iff i j, lookup-adjust_ne j k f m h)

  pub lookup-adjust_self :
      (k : K) (f : V → V) (v : V) (m : Dict K V)
      → lookup k m ≡ some v
      → lookup k (adjust k f m) ≡ some (f v)
  unfolding lookup adjust
  lookup-adjust_self k f v [] h = cc
  lookup-adjust_self k f v ((i, w) ∷ m) h = ground (arith, lookup-adjust_self k f v m)

  pub adjust_absent : (k : K) (f : V → V) (m : Dict K V) → lookup k m ≡ none → adjust k f m ≡ m
  unfolding lookup adjust
  adjust_absent k f [] h = refl
  adjust_absent k f ((i, w) ∷ m) h = ground (arith, adjust_absent k f m)

  pub add-Distinct : (k : K) (v : V) (m : Dict K V) → Distinct m → Distinct (add k v m)
  unfolding add lookup
  add-Distinct k v [] h = (refl, tt)
  add-Distinct k v ((j, w) ∷ m) h = elim (Option-cases (lookup k m)) [
    | inl e' ↦
        ground (
          arith,
          e.beq_iff j k,
          e.beq_iff k j,
          add-Distinct k v m h.1,
          lookup-add_absent j k v m e',
        )
    | inr (u, e') ↦ ground (arith, add_present k v u m e')
  ]

  pub adjust-Distinct : (k : K) (f : V → V) (m : Dict K V) → Distinct m → Distinct (adjust k f m)
  unfolding adjust
  adjust-Distinct k f [] h = tt
  adjust-Distinct k f ((j, w) ∷ m) h = (
    elim (Bool-cases (e.beq k j)) [
      | inl same ↦ ground (arith, e.beq_iff k j, adjust_absent k f m)
      | inr other ↦ ground (arith, e.beq_iff k j, lookup-adjust_ne j k f m)
    ],
    adjust-Distinct k f m h.1,
  )

  -- An entry of an updated table: the updated one, or one that was there before.
  pub adjust_cases :
      (k j : K) (f : V → V) (m : Dict K V) {v : V}
      → lookup j (adjust k f m) ≡ some v
      → ((u : V) × (k ≡ j) × (lookup j m ≡ some u) × (f u ≡ v)) ⊎ ((k ≢ j) × (lookup j m ≡ some v))
  adjust_cases k j f m {v} found = elim (Bool-cases (e.beq k j)) [
    | inl same ↦
        let ek = (e.beq_iff k j).0 same in
        elim (Option-cases (lookup k m)) [
          | inl missing ↦
              absurd (missing-ne-found k j m missing (rw (adjust_absent k f m missing) at found) ek)
          | inr (u, old) ↦
              let there : lookup k (adjust k f m) ≡ some v =
                ap (λ (i : K). lookup i (adjust k f m)) ek ∙ found in
              inl (u, ek, rw (← ek) old, cc (lookup-adjust_self k f u m old, there))
        ]
    | inr other ↦
        let ne : k ≢ j = λ same. cc (other, (e.beq_iff k j).1 same) in
        inr (ne, rw (lookup-adjust_ne j k f m ne) at found)
  ]
