-- ===== src/Cpio/Header.antt =====
-- src/cpio/header.rs: the newc and odc member headers.
pub mod RoundTrip
use iluvatar.Common.{
  ℕ, ◌+◌, ◌*◌, ◌/◌, ◌%◌, List, [], ◌∷◌, Option, none, some, length, slice, ltb, ◌==◌, Bytes,
  if◌then◌else◌,
}
use iluvatar.Common.Sizes.{as_u32}
use iluvatar.Common.Utf8.{is_utf8}
use iluvatar.Common.Numerals.{from_str_radix}
use iluvatar.Errors.{CpioProblem, Result, ok, err, Error, ◌>>=◌}
use iluvatar.Archive.{EntryType}

abbrev pub newc_header_size : ℕ
newc_header_size = 110

abbrev pub odc_header_size : ℕ
odc_header_size = 76

abbrev refuse {ℓ} : {A : Type ℓ} → CpioProblem → Result A
refuse p = err (Error.invalid_cpio_header p)

-- `CpioHeader`
pub record CpioHeader : Type 0 where
  pub ino : ℕ
  pub mode : ℕ
  pub uid : ℕ
  pub gid : ℕ
  pub nlink : ℕ
  pub mtime : ℕ
  pub filesize : ℕ
  pub devmajor : ℕ
  pub devminor : ℕ
  pub rdevmajor : ℕ
  pub rdevminor : ℕ
  pub namesize : ℕ

-- `map_err` on `from_str_radix`.
unfoldable pub numeral : CpioProblem → Option ℕ → Result ℕ
numeral p none = refuse p
numeral p (some v) = ok v

unfoldable pub parse_hex8 : Bytes → Result ℕ
parse_hex8 field =
    if is_utf8 field
    then numeral CpioProblem.invalid_hex (from_str_radix 16 field)
    else refuse CpioProblem.field_not_utf8

unfoldable pub parse_octal : Bytes → Result ℕ
parse_octal field =
    if is_utf8 field
    then numeral CpioProblem.invalid_octal_field (from_str_radix 8 field)
    else refuse CpioProblem.field_not_utf8

unfoldable pub newc_fields : Bytes → Result CpioHeader
newc_fields bytes = do
  ino ← parse_hex8 (slice 6 14 bytes)
  mode ← parse_hex8 (slice 14 22 bytes)
  uid ← parse_hex8 (slice 22 30 bytes)
  gid ← parse_hex8 (slice 30 38 bytes)
  nlink ← parse_hex8 (slice 38 46 bytes)
  mtime ← parse_hex8 (slice 46 54 bytes)
  filesize ← parse_hex8 (slice 54 62 bytes)
  devmajor ← parse_hex8 (slice 62 70 bytes)
  devminor ← parse_hex8 (slice 70 78 bytes)
  rdevmajor ← parse_hex8 (slice 78 86 bytes)
  rdevminor ← parse_hex8 (slice 86 94 bytes)
  namesize ← parse_hex8 (slice 94 102 bytes)
  ok (record {
    ino = ino;
    mode = as_u32 mode;
    uid = uid;
    gid = gid;
    nlink = as_u32 nlink;
    mtime = mtime;
    filesize = filesize;
    devmajor = as_u32 devmajor;
    devminor = as_u32 devminor;
    rdevmajor = as_u32 rdevmajor;
    rdevminor = as_u32 rdevminor;
    namesize = as_u32 namesize;
  })

unfoldable pub parse_newc_header : Bytes → Result CpioHeader
parse_newc_header bytes =
    if ltb (length bytes) newc_header_size
    then refuse CpioProblem.short_header
    else newc_fields bytes

unfoldable pub odc_fields : Bytes → Result CpioHeader
odc_fields bytes = do
  dev ← parse_octal (slice 6 12 bytes)
  rdev ← parse_octal (slice 42 48 bytes)
  ino ← parse_octal (slice 12 18 bytes)
  mode ← parse_octal (slice 18 24 bytes)
  uid ← parse_octal (slice 24 30 bytes)
  gid ← parse_octal (slice 30 36 bytes)
  nlink ← parse_octal (slice 36 42 bytes)
  mtime ← parse_octal (slice 48 59 bytes)
  filesize ← parse_octal (slice 65 76 bytes)
  namesize ← parse_octal (slice 59 65 bytes)
  ok (record {
    ino = ino;
    mode = as_u32 mode;
    uid = uid;
    gid = gid;
    nlink = as_u32 nlink;
    mtime = mtime;
    filesize = filesize;
    devmajor = as_u32 dev / 256;
    devminor = as_u32 dev % 256;
    rdevmajor = as_u32 rdev / 256;
    rdevminor = as_u32 rdev % 256;
    namesize = as_u32 namesize;
  })

unfoldable pub parse_odc_header : Bytes → Result CpioHeader
parse_odc_header bytes =
    if ltb (length bytes) odc_header_size then refuse CpioProblem.short_header else odc_fields bytes

-- The file type is in bits 12 to 15 of the mode.
unfoldable pub entry_type_from_mode : ℕ → EntryType
entry_type_from_mode mode =
    let kind = mode / 4096 % 16 in
    if kind == 8
    then EntryType.regular
    else if kind == 4
    then EntryType.directory
    else if kind == 10
    then EntryType.sym_link
    else if kind == 2
    then EntryType.char_device
    else if kind == 6
    then EntryType.block_device
    else if kind == 1
    then EntryType.fifo
    else if kind == 12
    then EntryType.socket
    else EntryType.other (mode / 4096 % 256)

-- `(offset + 3) & !3`
unfoldable pub align4 : ℕ → ℕ
align4 offset = (offset + 3) / 4 * 4
