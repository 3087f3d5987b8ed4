-- ===== src/Counter/Ledger/Content.antt =====
-- The entries of `processing_batch` as the scripts write and read them.
use comment_project.Common.{
  ◌≡◌, some, true, sym, ◌∙◌, if◌then◌else◌, Bool-cases, inl, inr, arith, ap,
}
use comment_project.Common.Int.{ℤ, pos, negsuc, ◌+ℤ◌, int_laws, int_beq, int_beq_iff, is_zero}
use comment_project.Common.Dict.{
  Dict, text_eq, text_beq, text_beq_iff, lookup, lookup-insert, erase, lookup-erase,
}
use comment_project.Counter.State.{or_zero, hincrby}
use comment_project.Common.Text.{
  Text, format_int, format_int_no_colon, cut, cut-append, decimal, decimal-format_int,
}
use comment_project.Counter.Scripts.{batch_value, number_or_zero}
use comment_project.Counter.Ledger.{content, value_share}

pub cut-batch_value :
    (p d : ℤ) → cut b':' (batch_value (format_int p) d) ≡ some (format_int p, format_int d)
unfolding batch_value
cut-batch_value p d = cut-append b':' (format_int p) (format_int d) (format_int_no_colon p)

-- The value that a claim writes reads back as its post and its delta.
pub content-batch_value :
    (p d : ℤ) → content (batch_value (format_int p) d) ≡ some (format_int p, d)
unfolding content
content-batch_value p d = ground (arith, cut-batch_value p d, decimal-format_int d)

pub format_int_injective : (a b : ℤ) → format_int a ≡ format_int b → a ≡ b
format_int_injective a b h =
    ground (arith, decimal-format_int a, decimal-format_int b, ap decimal h)

-- Two posts have the same text exactly if they are the same.
pub text_beq-format_int : (a b : ℤ) → text_beq (format_int a) (format_int b) ≡ int_beq a b
text_beq-format_int a b = ground (
  arith,
  text_beq_iff (format_int a) (format_int b),
  int_beq_iff a b,
  format_int_injective a b,
  λ (h : a ≡ b). ap format_int h,
)

pub or_zero-hincrby :
    (j k : Text) (d : ℤ) (h : Dict Text ℤ)
    → or_zero (lookup j (hincrby k d h).1)
      ≡ or_zero (lookup j h) +ℤ (if text_beq k j then d else pos 0)
unfolding hincrby
or_zero-hincrby j k d h = elim (Bool-cases (text_beq k j)) [
  | inl same ↦
      grind (int_laws, same, lookup-insert j k (or_zero (lookup k h) +ℤ d) h, text_beq_iff k j)
  | inr other ↦ grind (int_laws, other, lookup-insert j k (or_zero (lookup k h) +ℤ d) h)
]

pub value_share-batch_value :
    (batch : Text) (p q d : ℤ)
    → value_share (format_int q) batch (batch_value (format_int p) d)
      ≡ (if int_beq p q then d else pos 0)
unfolding value_share
value_share-batch_value batch p q d = rw (content-batch_value, text_beq-format_int)

is_zero_eq : (z : ℤ) → is_zero z ≡ true → z ≡ pos 0
is_zero_eq (pos n) h = ground arith
is_zero_eq (negsuc n) h = cc

hincrby_zero :
    (k : Text) (d : ℤ) (h : Dict Text ℤ)
    → is_zero (hincrby k d h).0 ≡ true
    → or_zero (lookup k h) +ℤ d ≡ pos 0
unfolding hincrby
hincrby_zero k d h z = is_zero_eq _ z

-- A sum that falls to zero is removed, which does not change what is read.
pub or_zero-lowered :
    (j k : Text) (d : ℤ) (h : Dict Text ℤ)
    → or_zero (
        lookup j
          (if is_zero (hincrby k d h).0 then erase k (hincrby k d h).1 else (hincrby k d h).1))
      ≡ or_zero (lookup j h) +ℤ (if text_beq k j then d else pos 0)
or_zero-lowered j k d h = elim (Bool-cases (is_zero (hincrby k d h).0)) [
  | inr nonzero ↦ rw nonzero (or_zero-hincrby j k d h)
  | inl zero_now ↦ rw zero_now (elim (Bool-cases (text_beq k j)) [
    | inr other ↦
        rw (lookup-erase j k (hincrby k d h).1) (rw other (rw other at (or_zero-hincrby j k d h)))
    | inl same ↦ rw (lookup-erase j k (hincrby k d h).1) (
        rw same (
          sym (
            ap (λ (i : Text). or_zero (lookup i h) +ℤ d) (sym ((text_beq_iff k j).0 same))
            ∙ hincrby_zero k d h zero_now)))
  ])
]

-- The share of a stored value, as the clearing script reads it.
pub value_share-cut :
    (post batch raw q t : Text)
    → cut b':' raw ≡ some (q, t)
    → value_share post batch raw ≡ (if text_beq q post then number_or_zero t else pos 0)
unfolding value_share content number_or_zero
value_share-cut post batch raw q t e = ground (arith, e)
