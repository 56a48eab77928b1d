-- ===== src/Tar/Header/Octal.antt =====
-- src/tar/header.rs: numeric header fields, and padded sizes.
use native.Mathlib.Nat.{pow-zero, pow-suc}
use iluvatar.Common.{
  ℕ, zero, suc, ◌+◌, ◌-◌, ◌*◌, ◌/◌, ◌%◌, ◌^◌, ◌≤◌, ◌<◌, ◌≡◌, ap, subst, ◌∙◌, arith, [], ◌∷◌, ◌++◌,
  some, ltb, length, if◌then◌else◌, sym, ◌==◌, Bytes, All, IsByte, Bool-cases, inl, inr, ◌⊎◌,
}
use iluvatar.Common.Sizes.{u64_mod, IsU64}
use iluvatar.Common.Utf8.{is_utf8_ascii, IsAscii}
use iluvatar.Common.Numerals.{from_str_radix}
use iluvatar.Common.Numerals.Digits.{
  digits_of_width, digits_of_width-IsDigit, from_str_radix-digits, IsDigit,
}
use iluvatar.Errors.{Result, ok, err, Error, TarProblem}
use iluvatar.Tar.Header.{
  binary_value, digits_of, octal_text, parse_octal, blocks_for_size, padded_size, block_size,
}

-- The text of a field ends at a NUL or a space.
digits_of-append :
    (ds rest : Bytes) (stop : ℕ)
    → All IsDigit ds
    → (stop ≡ 0) ⊎ (stop ≡ b' ')
    → digits_of (ds ++ (stop ∷ rest)) ≡ ds
unfolding digits_of
digits_of-append [] rest stop h s = ground arith
digits_of-append (d ∷ ds) rest stop (hd, h) s = ground (arith, digits_of-append ds rest stop h s)

IsAscii-digits : (ds : Bytes) → All IsDigit ds → All IsAscii ds
IsAscii-digits [] h = tt
IsAscii-digits (d ∷ ds) (hd, h) = (omega arith, IsAscii-digits ds h)

octal_text_digits :
    (ds : Bytes) (n : ℕ) → All IsDigit ds → from_str_radix 8 ds ≡ some n → octal_text ds ≡ ok n
unfolding octal_text
octal_text_digits [] n h e = unfold from_str_radix in absurd (cc)
octal_text_digits (d ∷ ds) n h e = rw (is_utf8_ascii (d ∷ ds) (IsAscii-digits (d ∷ ds) h), e)

parse_octal_text :
    (ds : Bytes) (n stop : ℕ) (rest : Bytes)
    → All IsDigit ds
    → from_str_radix 8 ds ≡ some n
    → (stop ≡ 0) ⊎ (stop ≡ b' ')
    → parse_octal (ds ++ (stop ∷ rest)) ≡ ok n
unfolding parse_octal
parse_octal_text [] n stop rest h e s = unfold from_str_radix in absurd (cc)
parse_octal_text (d ∷ ds) n stop rest h e s =
    ground (arith, digits_of-append (d ∷ ds) rest stop h s, octal_text_digits (d ∷ ds) n h e, h.0)

-- An octal field of `k + 1` digits, ended by a NUL or a space, reads as the number it holds, where
-- the number has no more digits and fits in 64 bits.
pub parse_octal-digits :
    (k n stop : ℕ) (rest : Bytes)
    → IsU64 n
    → n < 8 ^ suc k
    → (stop ≡ 0) ⊎ (stop ≡ b' ')
    → parse_octal (digits_of_width 8 (suc k) n ++ (stop ∷ rest)) ≡ ok n
parse_octal-digits k n stop rest fits lt s =
    parse_octal_text (digits_of_width 8 (suc k) n) n stop rest
      (digits_of_width-IsDigit 8 (suc k) n (omega arith) (omega arith))
      (from_str_radix-digits 8 k n (omega arith) (omega arith) fits lt) s

-- The bytes of a number, highest first.
abbrev pub big_endian : ℕ → ℕ → Bytes
big_endian zero n = []
big_endian (suc k) n = big_endian k (n / 256) ++ ((n % 256) ∷ [])

binary_value-append :
    (value : ℕ) (xs ys : Bytes) (v : ℕ)
    → binary_value value xs ≡ ok v
    → binary_value value (xs ++ ys) ≡ binary_value v ys
unfolding binary_value
binary_value-append value [] ys v e = ground arith
binary_value-append value (b ∷ xs) ys v e =
    ground (arith, binary_value-append (value * 256 % u64_mod + b) xs ys v)

binary_value_last : (n : ℕ) → IsU64 n → binary_value (n / 256) ((n % 256) ∷ []) ≡ ok n
unfolding binary_value
binary_value_last n h = ground arith

binary_value-big_endian : (k n : ℕ) → IsU64 n → n < 256 ^ k → binary_value 0 (big_endian k n) ≡ ok n
binary_value-big_endian zero n h lt =
    unfold binary_value in ap ok (omega (arith, subst (λ m. n < m) (pow-zero 256) lt))
binary_value-big_endian (suc k) n h lt =
    binary_value-append 0 (big_endian k (n / 256)) ((n % 256) ∷ []) (n / 256)
      (binary_value-big_endian k (n / 256) (omega arith) (omega (arith, pow-suc 256 k)))
    ∙ binary_value_last n h

-- A base-256 field, marked by any first byte whose top bit is set, reads as the number whose bytes
-- stand behind the marker, where the number has no more bytes and fits in 64 bits. The marker's other
-- bits are not read.
pub parse_octal-big_endian :
    (marker k n : ℕ)
    → marker / 128 % 2 ≡ 1
    → IsU64 n
    → n < 256 ^ k
    → parse_octal (marker ∷ big_endian k n) ≡ ok n
unfolding parse_octal
parse_octal-big_endian marker k n m h lt = ground (arith, m, binary_value-big_endian k n h lt)

-- The number that bytes spell, highest first, whatever its size.
abbrev pub big_value : Bytes → ℕ
big_value [] = 0
big_value (b ∷ bs) = b * 256 ^ length bs + big_value bs

-- The number, if it fits.
abbrev pub fitting : ℕ → Result ℕ
fitting n =
    if ltb n u64_mod then ok n else err (Error.invalid_tar_header TarProblem.binary_exceeds_u64)

shift_big_value : (v b w rest : ℕ) → (v * 256 + b) * w + rest ≡ v * (256 * w) + (b * w + rest)
shift_big_value v b w rest = omega arith

high_overflows : (v w rest : ℕ) → 2 ^ 56 ≤ v → 0 < w → u64_mod ≤ v * (256 * w) + rest
high_overflows v w rest h pos = omega (arith, mul_mono v w h pos)
  where
    mul_mono : (v w : ℕ) → 2 ^ 56 ≤ v → 0 < w → 2 ^ 56 * 256 ≤ v * (256 * w)
    mul_mono v zero h pos = absurd (omega arith)
    mul_mono v (suc w) h pos = omega arith

pow_pos : (k : ℕ) → 0 < 256 ^ k
pow_pos zero = omega (arith, pow-zero 256)
pow_pos (suc k) = omega (arith, pow_pos k, pow-suc 256 k)

fitting-large :
    (n : ℕ) → u64_mod ≤ n → fitting n ≡ err (Error.invalid_tar_header TarProblem.binary_exceeds_u64)
fitting-large n h = ground arith

binary_value-fitting :
    (v : ℕ) (bs : Bytes)
    → IsU64 v
    → All IsByte bs
    → binary_value v bs ≡ fitting (v * 256 ^ length bs + big_value bs)
unfolding binary_value
binary_value-fitting v [] h bytes = ground (arith, pow-zero 256)
binary_value-fitting v (b ∷ bs) h (byte, bytes) =
    let w = 256 ^ length bs in
    let grown : 256 ^ suc (length bs) ≡ 256 * w = omega (arith, pow-suc 256 (length bs)) in
    elim (Bool-cases (v / 2 ^ 56 == 0)) [
      | inl low ↦
          rw (low, grown)
            (let exact : v * 256 % u64_mod + b ≡ v * 256 + b = ground arith in
              rw exact (
                binary_value-fitting (v * 256 + b) bs (ground arith) bytes
                ∙ ap fitting (shift_big_value v b w (big_value bs))))
      | inr high ↦
          rw (high, grown)
            (sym (
              fitting-large _
                (high_overflows v w (b * w + big_value bs) (ground arith) (pow_pos (length bs)))))
    ]

-- A base-256 field, marked by any first byte whose top bit is set: it reads as the number that the
-- bytes behind the marker spell, if that fits in 64 bits, and is refused as too large otherwise.
pub parse_octal-fitting :
    (marker : ℕ) (bs : Bytes)
    → marker / 128 % 2 ≡ 1
    → All IsByte bs
    → parse_octal (marker ∷ bs) ≡ fitting (big_value bs)
unfolding parse_octal
parse_octal-fitting marker bs m bytes = ground (arith, m, binary_value-fitting 0 bs)

-- The padded size of a size that the header's check accepts: whole blocks, which cover the size with
-- less than a block of padding, so that nothing wraps.
pub padded_size_lem :
    (size : ℕ)
    → size ≤ u64_mod - 1 - block_size
    → (padded_size size % block_size ≡ 0)
      × (size ≤ padded_size size)
      × (padded_size size < size + block_size)
unfolding padded_size blocks_for_size
padded_size_lem size h = ground arith

-- The padded size of every size above 2 ^ 64 - 512 that fits in 64 bits wraps to 0.
pub padded_size_wraps : (size : ℕ) → IsU64 size → u64_mod - block_size < size → padded_size size ≡ 0
unfolding padded_size blocks_for_size
padded_size_wraps size h lt = ground arith
