-- ===== src/Common/Trim.antt =====
-- Go's `strings.TrimSpace`, `ToUpper`, `HasPrefix` and `Split`, on ASCII texts.
use comment_project.Common.Base.{
  ℕ, zero, suc, length, ◌-◌, ◌≡◌, ◌≢◌, refl, All, Bool, true, false, ◌&&◌, ◌||◌, List, [], ◌∷◌,
  ◌++◌, arith, leb, ◌==◌, if◌then◌else◌,
}
use comment_project.Common.Text.{Text}

abbrev pub is_space : ℕ → Bool
is_space c = c == b' ' || (leb 9 c && leb c 13)

unfoldable pub trim_left : Text → Text
trim_left [] = []
trim_left (c ∷ s) = let rest = trim_left s in if is_space c then rest else c ∷ s

unfoldable pub trim_right : Text → Text
trim_right [] = []
trim_right (c ∷ s) = elim (trim_right s) [
  | [] ↦ if is_space c then [] else c ∷ []
  | d ∷ t ↦ c ∷ d ∷ t
]

unfoldable pub trim_space : Text → Text
unfolding trim_left trim_right
trim_space s = trim_right (trim_left s)

abbrev pub is_empty : Text → Bool
is_empty [] = true
is_empty (c ∷ s) = false

unfoldable pub is_blank : Text → Bool
unfolding trim_space
is_blank s = is_empty (trim_space s)

unfoldable pub to_upper : Text → Text
to_upper [] = []
to_upper (c ∷ s) = (if leb b'a' c && leb c b'z' then c - 32 else c) ∷ to_upper s

unfoldable pub has_prefix : Text → Text → Bool
has_prefix [] s = true
has_prefix (c ∷ p) [] = false
has_prefix (c ∷ p) (d ∷ s) = c == d && has_prefix p s

abbrev pub cons_to_first : ℕ → List Text → List Text
cons_to_first c [] = (c ∷ []) ∷ []
cons_to_first c (p ∷ ps) = (c ∷ p) ∷ ps

-- `strings.Split` at one byte: a text without it is one part.
unfoldable pub split : ℕ → Text → List Text
split sep [] = [] ∷ []
split sep (c ∷ s) = let rest = split sep s in if c == sep then [] ∷ rest else cons_to_first c rest

abbrev pub drop : ℕ → Text → Text
drop zero s = s
drop (suc n) [] = []
drop (suc n) (c ∷ s) = drop n s

-- `strings.TrimPrefix`
unfoldable pub trim_prefix : Text → Text → Text
unfolding has_prefix
trim_prefix p s = if has_prefix p s then drop (length p) s else s

-- A text without a space is not trimmed.
trim_left_same : (s : Text) → All (λ c. is_space c ≡ false) s → trim_left s ≡ s
unfolding trim_left
trim_left_same [] h = refl
trim_left_same (c ∷ s) h = rw h.0 refl

trim_right_same : (s : Text) → All (λ c. is_space c ≡ false) s → trim_right s ≡ s
unfolding trim_right
trim_right_same [] h = refl
trim_right_same (c ∷ []) h = rw h.0 refl
trim_right_same (c ∷ d ∷ s) h = rw (trim_right_same (d ∷ s) h.1) refl

pub trim_space_same : (s : Text) → All (λ c. is_space c ≡ false) s → trim_space s ≡ s
unfolding trim_space
trim_space_same s h = rw (trim_left_same s h) (trim_right_same s h)

-- A text without the separator is one part; before the separator it is the first part.
pub split_whole : (sep : ℕ) (s : Text) → All (λ c. c ≢ sep) s → split sep s ≡ s ∷ []
unfolding split
split_whole sep [] h = refl
split_whole sep (c ∷ s) h = ground (arith, h.0, split_whole sep s h.1)

pub split-append :
    (sep : ℕ) (p s : Text) → All (λ c. c ≢ sep) p → split sep (p ++ sep ∷ s) ≡ p ∷ split sep s
unfolding split
split-append sep [] s h = ground arith
split-append sep (c ∷ p) s h = ground (arith, h.0, split-append sep p s h.1)
