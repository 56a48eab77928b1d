-- ===== src/Common/Utf8.antt =====
-- `str::from_utf8` and `String::from_utf8_lossy` of the standard library, as one machine that
-- reads a byte at a time. An ill-formed sequence is cut at its longest well-formed start, as the
-- library's chunks are, and each cut becomes one U+FFFD.
use Prim.Native.Nat.{ℕ, ◌-◌, ◌<◌}
use mathlib.Core.Path.{◌≡◌, refl}
use mathlib.Core.Bool.{Bool, true, false, ◌&&◌}
use mathlib.Core.List.{[], ◌∷◌, ◌++◌}
use native.Mathlib.Omega.{arith}
use iluvatar.Common.Tests.{◌==◌, ltb, leb, if◌then◌else◌}
use iluvatar.Common.Lists.{Bytes, All}

-- The bytes of a character so far, the range of its next byte, and how many bytes it lacks.
record Decoder : Type 0 where
  pending : Bytes
  lo : ℕ
  hi : ℕ
  need : ℕ

abbrev boundary : Decoder
boundary = record { pending = []; lo = 0; hi = 0; need = 0 }

abbrev replacement : Bytes
replacement = 0xef ∷ 0xbf ∷ 0xbd ∷ []

-- What one byte writes, whether it is in order, and the decoder behind it.
record Reading : Type 0 where
  out : Bytes
  valid : Bool
  next : Decoder

abbrev wait : ℕ → ℕ → ℕ → ℕ → Reading
wait b lo hi need = record {
  out = [];
  valid = true;
  next = record { pending = b ∷ []; lo = lo; hi = hi; need = need };
}

-- A byte at the start of a character.
start : ℕ → Reading
start b =
    if ltb b 0x80
    then record { out = b ∷ []; valid = true; next = boundary }
    else if leb 0xc2 b && leb b 0xdf
    then wait b 0x80 0xbf 1
    else if b == 0xe0
    then wait b 0xa0 0xbf 2
    else if b == 0xed
    then wait b 0x80 0x9f 2
    else if leb 0xe1 b && leb b 0xef
    then wait b 0x80 0xbf 2
    else if b == 0xf0
    then wait b 0x90 0xbf 3
    else if leb 0xf1 b && leb b 0xf3
    then wait b 0x80 0xbf 3
    else if b == 0xf4
    then wait b 0x80 0x8f 3
    else record { out = replacement; valid = false; next = boundary }

continue_with : Decoder → ℕ → Reading
continue_with d b =
    if leb d.lo b && leb b d.hi
    then if d.need == 1
      then record { out = d.pending ++ (b ∷ []); valid = true; next = boundary }
      else record {
        out = [];
        valid = true;
        next = record { pending = d.pending ++ (b ∷ []); lo = 0x80; hi = 0xbf; need = d.need - 1 };
      }
    else record (start b) { out = replacement ++ (start b).out; valid = false }

read_byte : Decoder → ℕ → Reading
unfolding start continue_with
read_byte d b = if d.need == 0 then start b else continue_with d b

lossy_from : Decoder → Bytes → Bytes
lossy_from d [] = if d.need == 0 then [] else replacement
lossy_from d (b ∷ bs) = (read_byte d b).out ++ lossy_from (read_byte d b).next bs

is_utf8_from : Decoder → Bytes → Bool
is_utf8_from d [] = d.need == 0
is_utf8_from d (b ∷ bs) = (read_byte d b).valid && is_utf8_from (read_byte d b).next bs

-- `String::from_utf8_lossy(xs)`
unfoldable pub from_utf8_lossy : Bytes → Bytes
unfolding lossy_from read_byte
from_utf8_lossy = lossy_from boundary

-- `str::from_utf8(xs).is_ok()`
unfoldable pub is_utf8 : Bytes → Bool
unfolding is_utf8_from read_byte
is_utf8 = is_utf8_from boundary

abbrev pub IsAscii : ℕ → Type 0
IsAscii b = b < 0x80

-- ASCII text is read as it stands.
pub from_utf8_lossy_ascii : (xs : Bytes) → All IsAscii xs → from_utf8_lossy xs ≡ xs
unfolding from_utf8_lossy
from_utf8_lossy_ascii [] h = refl
from_utf8_lossy_ascii (x ∷ xs) (hx, h) = ground (arith, from_utf8_lossy_ascii xs h)

pub is_utf8_ascii : (xs : Bytes) → All IsAscii xs → is_utf8 xs ≡ true
unfolding is_utf8
is_utf8_ascii [] h = refl
is_utf8_ascii (x ∷ xs) (hx, h) = ground (arith, is_utf8_ascii xs h)

-- "e acute", a cut-off start of three bytes, and a stray continuation byte.
lossy_runs :
    (from_utf8_lossy (0xc3 ∷ 0xa9 ∷ []) ≡ 0xc3 ∷ 0xa9 ∷ [])
    × (from_utf8_lossy (0xe2 ∷ 0x82 ∷ 0x41 ∷ []) ≡ 0xef ∷ 0xbf ∷ 0xbd ∷ 0x41 ∷ [])
    × (from_utf8_lossy (0x41 ∷ 0x80 ∷ 0xe2 ∷ [])
        ≡ 0x41 ∷ 0xef ∷ 0xbf ∷ 0xbd ∷ 0xef ∷ 0xbf ∷ 0xbd ∷ [])
unfolding from_utf8_lossy
lossy_runs = (refl, refl, refl)
