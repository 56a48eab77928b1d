-- ===== src/Common/Search.antt =====
-- The slice and string methods of the standard library that the parsers call.
use Prim.Native.Nat.{ℕ, zero, suc, ◌≤◌}
use mathlib.Core.Path.{◌≡◌, ap}
use mathlib.Core.Bool.{Bool, true, false, ◌&&◌}
use mathlib.Core.List.{List, [], ◌∷◌, ◌++◌}
use mathlib.Core.Option.{Option, none, some}
use native.Mathlib.Omega.{arith}
use iluvatar.Common.Tests.{◌==◌, if◌then◌else◌}
use iluvatar.Common.Lists.{Bytes, length, All}
use mathlib.Core.Option

module _ {ℓ} {A : Type ℓ} where
  -- `xs.iter().position(p)`
  unfoldable pub position : (A → Bool) → List A → Option ℕ
  position p [] = none
  position p (x ∷ xs) = if p x then some 0 else Option.map suc (position p xs)

  -- `position(p).unwrap_or(xs.len())`
  unfoldable pub position_or_len : (A → Bool) → List A → ℕ
  position_or_len p [] = 0
  position_or_len p (x ∷ xs) = if p x then 0 else suc (position_or_len p xs)

  -- `xs.iter().rposition(p).map_or(0, |i| i + 1)`: the length up to the last element with `p`.
  unfoldable pub rposition_end : (A → Bool) → List A → ℕ
  rposition_end p [] = 0
  rposition_end p (x ∷ xs) = elim (rposition_end p xs) [
    | zero ↦ if p x then 1 else 0
    | suc n ↦ suc (suc n)
  ]

  pub position_or_len-le : (p : A → Bool) (xs : List A) → position_or_len p xs ≤ length xs
  unfolding position_or_len
  position_or_len-le p [] = omega arith
  position_or_len-le p (x ∷ xs) = ground (arith, position_or_len-le p xs)

  -- The search stops at the first hit behind elements that miss.
  pub position_or_len-append :
      (p : A → Bool) (xs ys : List A) (y : A)
      → All (λ x. p x ≡ false) xs
      → p y ≡ true
      → position_or_len p (xs ++ (y ∷ ys)) ≡ length xs
  unfolding position_or_len
  position_or_len-append p [] ys y h hy = ground arith
  position_or_len-append p (x ∷ xs) ys y (hx, h) hy =
      ground (arith, position_or_len-append p xs ys y h hy)

  pub position-append :
      (p : A → Bool) (xs ys : List A) (y : A)
      → All (λ x. p x ≡ false) xs
      → p y ≡ true
      → position p (xs ++ (y ∷ ys)) ≡ some (length xs)
  unfolding position
  position-append p [] ys y h hy = ground arith
  position-append p (x ∷ xs) ys y (hx, h) hy = rw (hx, position-append p xs ys y h hy)

-- `s.trim_end_matches(c)`, which is also `&s[..rposition_end]`.
unfoldable pub trim_end : ℕ → Bytes → Bytes
trim_end c [] = []
trim_end c (x ∷ xs) = elim (trim_end c xs) [
  | [] ↦ if x == c then [] else x ∷ []
  | y ∷ ys ↦ x ∷ y ∷ ys
]

-- `s.strip_prefix(prefix)`
unfoldable pub strip_prefix : Bytes → Bytes → Option Bytes
strip_prefix [] xs = some xs
strip_prefix (c ∷ cs) [] = none
strip_prefix (c ∷ cs) (x ∷ xs) = if c == x then strip_prefix cs xs else none

unfoldable pub starts_with : Bytes → Bytes → Bool
starts_with [] xs = true
starts_with (c ∷ cs) [] = false
starts_with (c ∷ cs) (x ∷ xs) = c == x && starts_with cs xs

-- `xs.strip_suffix(&[c]).unwrap_or(xs)`
unfoldable pub strip_last : ℕ → Bytes → Bytes
strip_last c [] = []
strip_last c (x ∷ []) = if x == c then [] else x ∷ []
strip_last c (x ∷ y ∷ xs) = x ∷ strip_last c (y ∷ xs)

pub strip_last-concat : (c : ℕ) (xs : Bytes) → strip_last c (xs ++ (c ∷ [])) ≡ xs
unfolding strip_last
strip_last-concat c [] = ground arith
strip_last-concat c (x ∷ []) = ground arith
strip_last-concat c (x ∷ y ∷ xs) = ap (◌∷◌ x) (strip_last-concat c (y ∷ xs))
