-- ===== src/Common/Dict.antt =====
-- Types with a Boolean equality, and dictionaries over them: a Redis hash, set or sorted set, or a
-- table with a unique key. A set is a dictionary to `Unit`, a sorted set one to its scores.
use comment_project.Common.Base.{
  ℕ, ◌≡◌, refl, ap, ◌≢◌, ◌↔◌, Bool, true, false, ◌&&◌, Option, none, some, List, [], ◌∷◌, arith,
  ◌==◌, ==_iff, if◌then◌else◌, All,
}

pub record Eq {ℓ} (A : Type ℓ) : Type ℓ where
  pub beq : A → A → Bool
  pub beq_iff : (a b : A) → (beq a b ≡ true) ↔ (a ≡ b)

instance abbrev pub nat_eq : Eq ℕ
nat_eq = record { beq = ◌==◌; beq_iff = ==_iff }

unfoldable pub text_beq : List ℕ → List ℕ → Bool
text_beq [] [] = true
text_beq [] (d ∷ t) = false
text_beq (c ∷ s) [] = false
text_beq (c ∷ s) (d ∷ t) = (c == d) && text_beq s t

pub text_beq_iff : (s t : List ℕ) → (text_beq s t ≡ true) ↔ (s ≡ t)
unfolding text_beq
text_beq_iff [] [] = ground arith
text_beq_iff [] (d ∷ t) = ground arith
text_beq_iff (c ∷ s) [] = ground arith
text_beq_iff (c ∷ s) (d ∷ t) = ground (arith, text_beq_iff s t)

instance abbrev pub text_eq : Eq (List ℕ)
text_eq = record { beq = text_beq; beq_iff = text_beq_iff }

abbrev pub Dict {ℓ κ} : Type ℓ → Type κ → Type (ℓ ⊔ κ)
Dict K V = List (K × V)

module _ {ℓ κ} {K : Type ℓ} {V : Type κ} ⦃e : Eq K⦄ where
  unfoldable pub lookup : K → Dict K V → Option V
  lookup k [] = none
  lookup k ((j, v) ∷ m) = if e.beq j k then some v else lookup k m

  unfoldable pub erase : K → Dict K V → Dict K V
  erase k [] = []
  erase k ((j, v) ∷ m) = let rest = erase k m in if e.beq j k then rest else (j, v) ∷ rest

  unfoldable pub insert : K → V → Dict K V → Dict K V
  insert k v m = (k, v) ∷ erase k m

  pub lookup-erase :
      (j k : K) (m : Dict K V) → lookup j (erase k m) ≡ (if e.beq k j then none else lookup j m)
  unfolding lookup erase
  lookup-erase j k [] = ground arith
  lookup-erase j k ((i, v) ∷ m) =
      ground (arith, e.beq_iff i k, e.beq_iff i j, e.beq_iff k j, lookup-erase j k m)

  pub lookup-insert :
      (j k : K) (v : V) (m : Dict K V)
      → lookup j (insert k v m) ≡ (if e.beq k j then some v else lookup j m)
  unfolding lookup insert
  lookup-insert j k v m = ground (arith, lookup-erase j k m)

  pub lookup-insert_self : (k : K) (v : V) (m : Dict K V) → lookup k (insert k v m) ≡ some v
  lookup-insert_self k v m = ground (arith, lookup-insert k k v m, e.beq_iff k k)

  pub lookup-erase_self : (k : K) (m : Dict K V) → lookup k (erase k m) ≡ none
  lookup-erase_self k m = ground (arith, lookup-erase k k m, e.beq_iff k k)

  pub lookup-insert_ne :
      (j k : K) (v : V) (m : Dict K V) → k ≢ j → lookup j (insert k v m) ≡ lookup j m
  lookup-insert_ne j k v m h = ground (arith, lookup-insert j k v m, e.beq_iff k j)

  pub lookup-erase_ne : (j k : K) (m : Dict K V) → k ≢ j → lookup j (erase k m) ≡ lookup j m
  lookup-erase_ne j k m h = ground (arith, lookup-erase j k m, e.beq_iff k j)

  -- No key stands twice.
  abbrev pub Distinct : Dict K V → Type κ
  Distinct [] = Unit
  Distinct ((k, v) ∷ m) = (lookup k m ≡ none) × Distinct m

  pub erase_absent : (k : K) (m : Dict K V) → lookup k m ≡ none → erase k m ≡ m
  unfolding lookup erase
  erase_absent k [] h = refl
  erase_absent k ((j, v) ∷ m) h = ground (arith, erase_absent k m)

  pub erase-Distinct : (k : K) (m : Dict K V) → Distinct m → Distinct (erase k m)
  unfolding erase
  erase-Distinct k [] h = tt
  erase-Distinct k ((j, v) ∷ m) h = ground (arith, erase-Distinct k m h.1, lookup-erase j k m)

  pub insert-Distinct : (k : K) (v : V) (m : Dict K V) → Distinct m → Distinct (insert k v m)
  unfolding insert
  insert-Distinct k v m h = (lookup-erase_self k m, erase-Distinct k m h)

  -- A key that is missing is not one that is found.
  pub missing-ne-found :
      (k j : K) (m : Dict K V) {v : V} → lookup k m ≡ none → lookup j m ≡ some v → k ≢ j
  missing-ne-found k j m missing found same = cc (ap (λ (i : K). lookup i m) same, missing, found)

  -- What an erasure leaves was there before.
  pub erase-found :
      (j k : K) (m : Dict K V) {v : V} → lookup j (erase k m) ≡ some v → lookup j m ≡ some v
  erase-found j k m h = ground (arith, h, lookup-erase j k m)

  -- What holds of every key that is found holds of every entry.
  pub All-found {μ} :
      (P : K × V → Type μ) (m : Dict K V)
      → Distinct m
      → ((k : K) (v : V) → lookup k m ≡ some v → P (k, v))
      → All P m
  unfolding lookup
  All-found P [] d h = tt
  All-found P ((k, v) ∷ m) d h = (
    h k v (ground (arith, e.beq_iff k k)),
    All-found P m d.1 λ j w found. h j w (
        ground
          (arith, found, e.beq_iff k j, λ (same : k ≡ j). missing-ne-found k j m d.0 found same)),
  )
