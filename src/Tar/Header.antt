-- ===== src/Tar/Header.antt =====
-- src/tar/header.rs: the 512-byte header block.
pub mod Octal
use iluvatar.Common.{
  ℕ, zero, suc, ◌+◌, ◌-◌, ◌*◌, ◌/◌, ◌%◌, ◌^◌, Bool, true, false, not, ◌&&◌, ◌||◌, List, [], ◌∷◌,
  ◌++◌, Option, none, some, length, is_empty, get_or, slice, take, ltb, leb, ◌==◌, bytes_eq, Bytes,
  if◌then◌else◌,
}
use iluvatar.Common.Sizes.{u32_mod, u64_mod, as_u32, add_u32, mul_u64}
use iluvatar.Common.Search.{position_or_len}
use iluvatar.Common.Utf8.{from_utf8_lossy, is_utf8}
use iluvatar.Common.Numerals.{from_str_radix}
use iluvatar.Errors.{TarProblem, Result, ok, err, Error, ◌>>=◌}
use iluvatar.Tar.Entry.{TarEntry, TarEntryType, from_byte, is_sparse}

abbrev pub block_size : ℕ
block_size = 512

abbrev refuse {ℓ} : {A : Type ℓ} → TarProblem → Result A
refuse p = err (Error.invalid_tar_header p)

-- The loop over a base-256 field: `value >> 56 != 0`, then `value << 8 | b`. The shifted value
-- has a clear low byte, so the `|` adds.
unfoldable pub binary_value : ℕ → Bytes → Result ℕ
binary_value value [] = ok value
binary_value value (b ∷ bs) =
    let rest = binary_value (value * 256 % u64_mod + b) bs in
    if value / 2 ^ 56 == 0 then rest else refuse TarProblem.binary_exceeds_u64

-- `take_while(|&&b| b != 0 && b != b' ')`
unfoldable pub digits_of : Bytes → Bytes
digits_of [] = []
digits_of (b ∷ bs) = if not (b == 0) && not (b == b' ') then b ∷ digits_of bs else []

unfoldable pub octal_text : Bytes → Result ℕ
octal_text [] = ok 0
octal_text (b ∷ bs) =
    if is_utf8 (b ∷ bs)
    then elim (from_str_radix 8 (b ∷ bs)) [ some v ↦ ok v | none ↦ refuse TarProblem.invalid_octal ]
    else refuse TarProblem.invalid_octal

-- The high bit of the first byte chooses the base-256 form.
unfoldable pub parse_octal : Bytes → Result ℕ
parse_octal [] = octal_text []
parse_octal (b ∷ bs) =
    if b / 128 % 2 == 1 then binary_value 0 bs else octal_text (digits_of (b ∷ bs))

unfoldable pub parse_string : Bytes → Bytes
parse_string field = from_utf8_lossy (take (position_or_len (λ b. b == 0) field) field)

unfoldable pub is_zero_block : Bytes → Bool
is_zero_block [] = true
is_zero_block (b ∷ bs) = b == 0 && is_zero_block bs

-- `(148..156).contains(&i)`
abbrev in_checksum : ℕ → Bool
in_checksum i = leb 148 i && ltb i 156

-- `(byte as i8) as i32`, as its 32-bit two's-complement pattern.
abbrev sign_extended : ℕ → ℕ
sign_extended byte = if ltb byte 128 then byte else u32_mod - 256 + byte

-- The two sums of the loop from index `i` on; the signed one is held as its bit pattern.
unfoldable pub unsigned_sum : ℕ → ℕ → Bytes → ℕ
unsigned_sum i sum [] = sum
unsigned_sum i sum (byte ∷ bytes) =
    unsigned_sum (suc i) (add_u32 sum (if in_checksum i then b' ' else byte)) bytes

unfoldable pub signed_sum : ℕ → ℕ → Bytes → ℕ
signed_sum i sum [] = sum
signed_sum i sum (byte ∷ bytes) =
    signed_sum (suc i) (add_u32 sum (if in_checksum i then b' ' else sign_extended byte)) bytes

unfoldable pub validate_checksum : Bytes → Bool
validate_checksum header = elim (parse_octal (slice 148 156 header)) [
  | ok v ↦ as_u32 v == unsigned_sum 0 0 header || as_u32 v == signed_sum 0 0 header
  | err e ↦ false
]

-- `if s.is_empty() { None } else { Some(s) }`
unfoldable pub non_empty : Bytes → Option Bytes
non_empty [] = none
non_empty (b ∷ bs) = some (b ∷ bs)

abbrev ustar : Bytes
ustar = b'u' ∷ b's' ∷ b't' ∷ b'a' ∷ b'r' ∷ []

-- "ustar" with no NUL behind it is an old GNU header, which has no prefix field.
unfoldable pub ustar_prefix : Bytes → Bytes
ustar_prefix header =
    if bytes_eq (slice 257 263 header) (ustar ++ (0 ∷ []))
    then parse_string (slice 345 500 header)
    else []

-- `format!("{}/{}", prefix, name)`, where there is a prefix.
unfoldable pub join_path : Bytes → Bytes → Bytes
join_path [] name = name
join_path (c ∷ prefix) name = (c ∷ prefix) ++ (b'/' ∷ name)

unfoldable pub full_path : Bytes → Bytes
full_path header =
    let name = parse_string (slice 0 100 header) in
    if bytes_eq (slice 257 262 header) ustar then join_path (ustar_prefix header) name else name

unfoldable pub owner_name : ℕ → ℕ → Bytes → Option Bytes
owner_name lo hi header =
    if bytes_eq (slice 257 262 header) ustar
    then non_empty (parse_string (slice lo hi header))
    else none

-- The last two checks, and the entry.
unfoldable pub checked_entry : TarEntry → Result TarEntry
checked_entry e =
    if ltb (u64_mod - 1 - block_size) e.size
    then refuse TarProblem.size_too_large
    else if is_sparse e.entry_type
    then refuse TarProblem.sparse_unsupported
    else ok e

unfoldable pub read_fields : Bytes → ℕ → Result TarEntry
read_fields header data_offset = do
  mode ← parse_octal (slice 100 108 header)
  uid ← parse_octal (slice 108 116 header)
  gid ← parse_octal (slice 116 124 header)
  size ← parse_octal (slice 124 136 header)
  mtime ← parse_octal (slice 136 148 header)
  checked_entry (record {
    path = full_path header;
    size = size;
    entry_type = from_byte (get_or header 156 0);
    mode = as_u32 mode;
    uid = uid;
    gid = gid;
    mtime = mtime;
    uname = owner_name 265 297 header;
    gname = owner_name 297 329 header;
    link_target = non_empty (parse_string (slice 157 257 header));
    data_offset = data_offset;
  })

unfoldable pub parse_header : Bytes → ℕ → Result TarEntry
parse_header header data_offset =
    if validate_checksum header
    then read_fields header data_offset
    else refuse TarProblem.checksum_mismatch

-- `size.div_ceil(512)`
unfoldable pub blocks_for_size : ℕ → ℕ
blocks_for_size size = if size % block_size == 0 then size / block_size else size / block_size + 1

-- The product wraps in a release build.
unfoldable pub padded_size : ℕ → ℕ
padded_size size = mul_u64 (blocks_for_size size) block_size
