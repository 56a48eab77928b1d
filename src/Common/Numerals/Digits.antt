-- ===== src/Common/Numerals/Digits.antt =====
-- Numbers written in a radix up to ten, for `from_str_radix`.
use Prim.Native.Nat.{ℕ, zero, suc, ◌+◌, ◌*◌, ◌/◌, ◌%◌, ◌^◌, ◌<◌, ◌≤◌}
use mathlib.Core.Path.{◌≡◌, refl, ap, ◌∙◌, subst}
use mathlib.Core.List.{List, [], ◌∷◌, ◌++◌}
use mathlib.Core.Option.{Option, none, some}
use native.Mathlib.Omega.{arith}
use native.Mathlib.Nat.{
  div-add-mod, mod-lt, div-le_self, div-lt_iff_lt-mul, le_trans, suc-le-suc_iff, pow-suc, pow-zero,
}
use iluvatar.Common.Tests.{lt→ltb, Option-cases}
use mathlib.Core.Logic.{inl, inr}
use iluvatar.Common.Lists.{Bytes, All, length, length-append}
use iluvatar.Common.Sizes.{u64_mod, IsU64}
use iluvatar.Common.Numerals.{to_digit, push_digit, digits_value, from_str_radix}

-- The digits of `n`, `k` of them, highest first.
abbrev pub digits_of_width : ℕ → ℕ → ℕ → Bytes
digits_of_width radix zero n = []
digits_of_width radix (suc k) n = digits_of_width radix k (n / radix) ++ ((b'0' + n % radix) ∷ [])

to_digit_lem : (radix d : ℕ) → radix ≤ 10 → d < radix → to_digit radix (b'0' + d) ≡ some d
unfolding to_digit
to_digit_lem radix d h lt = ground arith

digits_value-append :
    (radix acc : ℕ) (xs ys : Bytes) (v : ℕ)
    → digits_value radix acc xs ≡ some v
    → digits_value radix acc (xs ++ ys) ≡ digits_value radix v ys
unfolding digits_value
digits_value-append radix acc [] ys v e = ground arith
digits_value-append radix acc (c ∷ cs) ys v e =
    elim (Option-cases (push_digit radix acc (to_digit radix c))) [
      | inl bad ↦ absurd (cc (rw (bad, digits_value) at e))
      | inr (acc', good) ↦
          rw (good, digits_value)
            (digits_value-append radix acc' cs ys v (rw (good, digits_value) at e))
    ]

last_digit :
    (radix n : ℕ)
    → 0 < radix
    → radix ≤ 10
    → IsU64 n
    → digits_value radix (n / radix) ((b'0' + n % radix) ∷ []) ≡ some n
unfolding digits_value push_digit
last_digit radix n pos h fits =
    let sum : n / radix * radix + n % radix ≡ n = omega (arith, div-add-mod n radix) in
    ap (λ o. digits_value_of (push_digit radix (n / radix) o))
      (to_digit_lem radix (n % radix) h (mod-lt n pos))
    ∙ rw (sum, lt→ltb n u64_mod fits)
  where
    digits_value_of : Option ℕ → Option ℕ
    digits_value_of o = elim o [ none ↦ none | some v ↦ some v ]

digits_value-digits :
    (radix k n : ℕ)
    → 0 < radix
    → radix ≤ 10
    → IsU64 n
    → n < radix ^ k
    → digits_value radix 0 (digits_of_width radix k n) ≡ some n
digits_value-digits radix zero n pos h fits lt =
    unfold digits_value in ap some (omega (arith, subst (λ m. n < m) (pow-zero radix) lt))
digits_value-digits radix (suc k) n pos h fits lt =
    digits_value-append radix 0 (digits_of_width radix k (n / radix)) ((b'0' + n % radix) ∷ [])
      (n / radix) (digits_value-digits radix k (n / radix) pos h (below fits) (shorter lt))
    ∙ last_digit radix n pos h fits
  where
    below : IsU64 n → IsU64 (n / radix)
    below g = le_trans (suc-le-suc_iff.1 (div-le_self n radix)) g

    shorter : n < radix ^ suc k → n / radix < radix ^ k
    shorter g = (div-lt_iff_lt-mul pos).1 (subst (λ m. n < m) (pow-suc radix k) g)

abbrev pub IsDigit : ℕ → Type 0
IsDigit b = (b'0' ≤ b) × (b ≤ b'9')

All-concat {ℓ κ} :
    {A : Type ℓ} (P : A → Type κ) (xs : List A) (y : A) → All P xs → P y → All P (xs ++ (y ∷ []))
All-concat P [] y h hy = (hy, tt)
All-concat P (x ∷ xs) y h hy = (h.0, All-concat P xs y h.1 hy)

pub digits_of_width-IsDigit :
    (radix k n : ℕ) → 0 < radix → radix ≤ 10 → All IsDigit (digits_of_width radix k n)
digits_of_width-IsDigit radix zero n pos h = tt
digits_of_width-IsDigit radix (suc k) n pos h =
    All-concat IsDigit (digits_of_width radix k (n / radix)) _
      (digits_of_width-IsDigit radix k (n / radix) pos h) (omega arith, omega (arith, mod-lt n pos))

pub length-digits_of_width : (radix k n : ℕ) → length (digits_of_width radix k n) ≡ k
length-digits_of_width radix zero n = refl
length-digits_of_width radix (suc k) n = omega (
  arith,
  length-append (digits_of_width radix k (n / radix)) ((b'0' + n % radix) ∷ []),
  length-digits_of_width radix k (n / radix),
)

from_str_radix_bare :
    (radix c : ℕ) (cs : Bytes)
    → IsDigit c
    → from_str_radix radix (c ∷ cs) ≡ digits_value radix 0 (c ∷ cs)
unfolding from_str_radix
from_str_radix_bare radix c [] h = refl
from_str_radix_bare radix c (d ∷ ds) h = ground arith

-- A number in digits is read back.
pub from_str_radix-digits :
    (radix k n : ℕ)
    → 0 < radix
    → radix ≤ 10
    → IsU64 n
    → n < radix ^ suc k
    → from_str_radix radix (digits_of_width radix (suc k) n) ≡ some n
from_str_radix-digits radix k n pos h fits lt =
    go (digits_of_width radix (suc k) n) (digits_of_width-IsDigit radix (suc k) n pos h)
      (omega (arith, length-digits_of_width radix (suc k) n))
    ∙ digits_value-digits radix (suc k) n pos h fits lt
  where
    go :
        (xs : Bytes)
        → All IsDigit xs
        → 0 < length xs
        → from_str_radix radix xs ≡ digits_value radix 0 xs
    go [] ds l = absurd (omega arith)
    go (c ∷ cs) ds l = from_str_radix_bare radix c cs ds.0
