-- ===== src/Ar/Header.antt =====
-- src/ar/header.rs: the 60-byte member header.
use iluvatar.Common.{
  ℕ, Bool, true, not, ◌&&◌, [], ◌∷◌, Option, none, some, length, slice, take, ltb, leb, ◌==◌,
  bytes_eq, Bytes, if◌then◌else◌,
}
use iluvatar.Common.Sizes.{as_u32}
use iluvatar.Common.Search.{rposition_end, trim_end}
use iluvatar.Common.Utf8.{is_utf8}
use iluvatar.Common.Numerals.{from_str_radix}
use iluvatar.Errors.{ArProblem, Result, ok, err, Error, ◌>>=◌}

abbrev pub header_size : ℕ
header_size = 60

abbrev pub refuse {ℓ} : {A : Type ℓ} → ArProblem → Result A
refuse p = err (Error.invalid_ar_header p)

-- `FMAG`
abbrev pub fmag : Bytes
fmag = b'`' ∷ b'\n' ∷ []

-- `ArHeader`
pub record ArHeader : Type 0 where
  pub name : Bytes
  pub mtime : ℕ
  pub uid : ℕ
  pub gid : ℕ
  pub mode : ℕ
  pub size : ℕ

-- `u64::from_str_radix`, with a blank text read as zero.
unfoldable pub field_value : ℕ → Bytes → Result ℕ
field_value radix [] = ok 0
field_value radix (c ∷ cs) = elim (from_str_radix radix (c ∷ cs)) [
  | some v ↦ ok v
  | none ↦ refuse ArProblem.invalid_field
]

unfoldable pub parse_field : ℕ → Bytes → Result ℕ
parse_field radix field =
    if is_utf8 field then field_value radix (trim_end b' ' field) else refuse ArProblem.invalid_utf8

-- The raw name, with its trailing spaces removed.
unfoldable pub raw_name : Bytes → Bytes
raw_name bytes = take (rposition_end (λ b. not (b == b' ')) (take 16 bytes)) bytes

unfoldable pub read_fields : Bytes → Result ArHeader
read_fields bytes = do
  mtime ← parse_field 10 (slice 16 28 bytes)
  uid ← parse_field 10 (slice 28 34 bytes)
  gid ← parse_field 10 (slice 34 40 bytes)
  mode ← parse_field 8 (slice 40 48 bytes)
  size ← parse_field 10 (slice 48 58 bytes)
  ok (record {
    name = raw_name bytes;
    mtime = mtime;
    uid = uid;
    gid = gid;
    mode = as_u32 mode;
    size = size;
  })

unfoldable pub parse_header : Bytes → Result ArHeader
parse_header bytes =
    if ltb (length bytes) header_size
    then refuse ArProblem.header_too_short
    else if bytes_eq (slice 58 60 bytes) fmag
    then read_fields bytes
    else refuse ArProblem.bad_terminator

unfoldable pub all_digits : Bytes → Bool
all_digits [] = true
all_digits (c ∷ cs) = leb b'0' c && leb c b'9' && all_digits cs

-- Digits are ASCII, so that `from_utf8` does not fail on them.
unfoldable pub parse_name_number : Bytes → Option ℕ
parse_name_number [] = none
parse_name_number (c ∷ cs) = if all_digits (c ∷ cs) then from_str_radix 10 (c ∷ cs) else none
