-- ===== src/Common/Text.antt =====
-- Texts as lists of bytes, and Go's `strconv.ParseInt` and `FormatInt` in base ten.
use Prim.Native.Char.{code}
use Prim.Native.String.{String}
use comment_project.Common.Base.{
  ℕ, zero, suc, ◌+◌, ◌-◌, ◌*◌, ◌/◌, ◌%◌, ◌^◌, ◌≤◌, ◌<◌, ◌≡◌, ◌≢◌, true, false, ◌||◌, Option, none,
  some, List, [], ◌∷◌, ◌++◌, arith, ltb, leb, ◌==◌, if◌then◌else◌, All, Bool-cases, inl, inr,
}
use comment_project.Common.Int.{ℤ, pos, negsuc}

abbrev pub Text : Type 0
Text = List ℕ

-- The bytes of an ASCII literal.
abbrev pub codes : String → Text
codes String.[] = []
codes (String.◌∷◌ c s) = code c ∷ codes s

-- The decimal digits of `n` before `out`; the fuel `suc n` is enough, as `n / 10 < n`.
digits : ℕ → ℕ → Text → Text
digits zero n out = out
digits (suc f) n out = elim (ltb n 10) [
  | true ↦ (b'0' + n) ∷ out
  | false ↦ digits f (n / 10) ((b'0' + n % 10) ∷ out)
]

unfoldable pub format_nat : ℕ → Text
unfolding digits
format_nat n = digits (suc n) n []

unfoldable pub format_int : ℤ → Text
unfolding format_nat
format_int (pos n) = format_nat n
format_int (negsuc n) = b'-' ∷ format_nat (suc n)

scan : Text → ℕ → Option ℕ
scan [] n = some n
scan (c ∷ s) n = if ltb c b'0' || ltb b'9' c then none else scan s (n * 10 + (c - b'0'))

-- At least one digit and nothing else.
unfoldable pub magnitude : Text → Option ℕ
unfolding scan
magnitude [] = none
magnitude (c ∷ s) = scan (c ∷ s) 0

abbrev pub max_int64 : ℕ
max_int64 = 2 ^ 63 - 1

-- The value, if it fits an int64.
unfoldable pub in_int64 : ℤ → Option ℤ
in_int64 (pos n) = if leb n max_int64 then some (pos n) else none
in_int64 (negsuc n) = if leb n max_int64 then some (negsuc n) else none

abbrev pub negate : ℕ → ℤ
negate zero = pos 0
negate (suc n) = negsuc n

-- A sign or none, then digits.
unfoldable pub decimal : Text → Option ℤ
decimal [] = none
decimal (c ∷ s) =
    if c == b'-'
    then elim (magnitude s) [ none ↦ none | some n ↦ some (negate n) ]
    else if c == b'+'
    then elim (magnitude s) [ none ↦ none | some n ↦ some (pos n) ]
    else elim (magnitude (c ∷ s)) [ none ↦ none | some n ↦ some (pos n) ]

unfoldable pub parse_int : Text → Option ℤ
unfolding decimal in_int64
parse_int t = elim (decimal t) [ none ↦ none | some z ↦ in_int64 z ]

abbrev pub IsDigit : ℕ → Type 0
IsDigit c = (b'0' ≤ c) × (c ≤ b'9')

scan-digits : (f n : ℕ) (out : Text) → n < f → scan (digits f n out) 0 ≡ scan out n
unfolding scan digits
scan-digits zero n out h = elim h [ ]
scan-digits (suc f) n out h = elim (Bool-cases (ltb n 10)) [
  | inl small ↦ ground arith
  | inr large ↦ ground (arith, scan-digits f (n / 10) ((b'0' + n % 10) ∷ out))
]

digits-cons :
    (f n : ℕ) (out : Text) → n < f → (c : ℕ) × (s : Text) × (digits f n out ≡ c ∷ s) × IsDigit c
unfolding digits
digits-cons zero n out h = elim h [ ]
digits-cons (suc f) n out h = elim (Bool-cases (ltb n 10)) [
  | inl small ↦ (b'0' + n, out, rw (small, digits), ground arith)
  | inr large ↦ rw (large, digits) (digits-cons f (n / 10) ((b'0' + n % 10) ∷ out) (ground arith))
]

digits-IsDigit : (f n : ℕ) (out : Text) → All IsDigit out → All IsDigit (digits f n out)
unfolding digits
digits-IsDigit zero n out h = h
digits-IsDigit (suc f) n out h = ground (arith, digits-IsDigit f (n / 10) ((b'0' + n % 10) ∷ out))

pub format_nat-IsDigit : (n : ℕ) → All IsDigit (format_nat n)
unfolding format_nat
format_nat-IsDigit n = digits-IsDigit (suc n) n [] tt

magnitude-format_nat : (n : ℕ) → magnitude (format_nat n) ≡ some n
unfolding magnitude format_nat scan
magnitude-format_nat n =
    let (c, s, e, d) = digits-cons (suc n) n [] (omega arith) in
    ground (arith, scan-digits (suc n) n [] (omega arith), e)

format_nat-cons : (n : ℕ) → (c : ℕ) × (s : Text) × (format_nat n ≡ c ∷ s) × IsDigit c
unfolding format_nat
format_nat-cons n = digits-cons (suc n) n [] (omega arith)

-- Go's `strings.Cut` and Lua's `string.find` with `string.sub`: what stands before and after the
-- first `sep`.
unfoldable pub cut : ℕ → Text → Option (Text × Text)
cut sep [] = none
cut sep (c ∷ s) =
    let rest = cut sep s in
    if c == sep
    then some ([], s)
    else elim rest [ none ↦ none | some (before, after) ↦ some (c ∷ before, after) ]

pub cut-append :
    (sep : ℕ) (p s : Text) → All (λ c. c ≢ sep) p → cut sep (p ++ sep ∷ s) ≡ some (p, s)
unfolding cut
cut-append sep [] s h = ground arith
cut-append sep (c ∷ p) s h = ground (arith, cut-append sep p s h.1)

-- no byte of a number is a colon
no_colon : (p : Text) → All IsDigit p → All (λ c. c ≢ b':') p
no_colon [] d = tt
no_colon (c ∷ p) d = ((λ e. omega arith), no_colon p d.1)

pub decimal-format_int : (z : ℤ) → decimal (format_int z) ≡ some z
unfolding decimal format_int
decimal-format_int (pos n) =
    let (c, s, e, d) = format_nat-cons n in let m = magnitude-format_nat n in ground (arith, e, m)
decimal-format_int (negsuc n) = ground (arith, magnitude-format_nat (suc n))

-- An int64 that `FormatInt` writes is read back by `ParseInt`.
pub parse_int-format_int : (z : ℤ) → in_int64 z ≡ some z → parse_int (format_int z) ≡ some z
unfolding parse_int
parse_int-format_int z h = ground (arith, decimal-format_int z)

-- A written number holds no colon, which separates the parts of a batch's value.
pub format_int_no_colon : (z : ℤ) → All (λ c. c ≢ b':') (format_int z)
unfolding format_int
format_int_no_colon (pos n) = no_colon (format_nat n) (format_nat-IsDigit n)
format_int_no_colon (negsuc n) =
    ((λ e. omega arith), no_colon (format_nat (suc n)) (format_nat-IsDigit (suc n)))
