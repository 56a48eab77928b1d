-- ===== src/Common/Numerals.antt =====
-- `u64::from_str_radix`, which is `str::parse` at radix 10: an optional plus sign, then digits.
pub mod Digits
use Prim.Native.Nat.{ℕ, ◌+◌, ◌-◌, ◌*◌}
use mathlib.Core.Path.{◌≡◌}
use mathlib.Core.Bool.{◌&&◌}
use mathlib.Core.List.{[], ◌∷◌}
use mathlib.Core.Option.{Option, none, some}
use mathlib.Core.Logic.{inl, inr}
use native.Mathlib.Omega.{arith}
use iluvatar.Common.Tests.{◌==◌, ltb, leb, if◌then◌else◌, Bool-cases, Option-cases}
use iluvatar.Common.Lists.{Bytes}
use iluvatar.Common.Sizes.{u64_mod, IsU64}

-- `char::to_digit`, in either case of letters.
to_digit : ℕ → ℕ → Option ℕ
to_digit radix c =
    let digit : ℕ =
      if leb b'0' c && leb c b'9'
      then c - b'0'
      else if leb b'a' c && leb c b'z'
      then c - b'a' + 10
      else if leb b'A' c && leb c b'Z'
      then c - b'A' + 10
      else 36 in
    if ltb digit radix then some digit else none

-- One more digit, with overflow refused.
push_digit : ℕ → ℕ → Option ℕ → Option ℕ
push_digit radix acc none = none
push_digit radix acc (some d) =
    if ltb (acc * radix + d) u64_mod then some (acc * radix + d) else none

digits_value : ℕ → ℕ → Bytes → Option ℕ
digits_value radix acc [] = some acc
digits_value radix acc (c ∷ cs) = elim (push_digit radix acc (to_digit radix c)) [
  | none ↦ none
  | some acc' ↦ digits_value radix acc' cs
]

-- `u64::from_str_radix(s, radix).ok()`
unfoldable pub from_str_radix : ℕ → Bytes → Option ℕ
unfolding digits_value push_digit to_digit
from_str_radix radix [] = none
from_str_radix radix (c ∷ []) = digits_value radix 0 (c ∷ [])
from_str_radix radix (c ∷ d ∷ ds) =
    if c == b'+' then digits_value radix 0 (d ∷ ds) else digits_value radix 0 (c ∷ d ∷ ds)

digits_value-lt :
    (radix acc : ℕ) (s : Bytes) (v : ℕ) → IsU64 acc → digits_value radix acc s ≡ some v → IsU64 v
unfolding digits_value push_digit
digits_value-lt radix acc [] v h e = ground arith
digits_value-lt radix acc (c ∷ cs) v h e = elim (Option-cases (to_digit radix c)) [
  | inl bad ↦ absurd (ground arith)
  | inr (d, good) ↦ ground (arith, digits_value-lt radix (acc * radix + d) cs v)
]

-- A number that is read fits in 64 bits.
pub from_str_radix-lt : (radix : ℕ) (s : Bytes) (v : ℕ) → from_str_radix radix s ≡ some v → IsU64 v
unfolding from_str_radix
from_str_radix-lt radix [] v e = absurd (ground arith)
from_str_radix-lt radix (c ∷ []) v e = digits_value-lt radix 0 (c ∷ []) v (omega arith) e
from_str_radix-lt radix (c ∷ d ∷ ds) v e = elim (Bool-cases (c == b'+')) [
  | inl plus ↦ digits_value-lt radix 0 (d ∷ ds) v (omega arith) (rw plus at e)
  | inr bare ↦ digits_value-lt radix 0 (c ∷ d ∷ ds) v (omega arith) (rw bare at e)
]
