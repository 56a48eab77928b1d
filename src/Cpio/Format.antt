-- ===== src/Cpio/Format.antt =====
-- src/cpio/parser.rs: what depends on the archive's format.
use iluvatar.Common.{
  ℕ, ◌-◌, Bool, true, false, ◌||◌, Option, none, some, bytes_eq, Bytes, if◌then◌else◌,
}
use iluvatar.Errors.{Result}
use iluvatar.Archive.Detect.{cpio_magic}
use iluvatar.Cpio.Header.{
  CpioHeader, newc_header_size, odc_header_size, parse_newc_header, parse_odc_header, align4,
}
use iluvatar.Cpio.State.{CpioSubFormat, newc, newc_crc, odc, CpioParser}

unfoldable pub header_size_of : Option CpioSubFormat → ℕ
header_size_of (some odc) = odc_header_size
header_size_of _ = newc_header_size

-- `header_size`
abbrev pub header_size : CpioParser → ℕ
header_size p = header_size_of p.sub_format

unfoldable pub aligned_format : Option CpioSubFormat → Bool
aligned_format (some odc) = false
aligned_format _ = true

-- `uses_alignment`
abbrev pub uses_alignment : CpioParser → Bool
uses_alignment p = aligned_format p.sub_format

-- `align4(n) - n`, where the format aligns.
unfoldable pub padding : CpioParser → ℕ → ℕ
padding p n = if uses_alignment p then align4 n - n else 0

-- The format that the first six bytes name.
unfoldable pub sub_format_of : Bytes → Option CpioSubFormat
sub_format_of magic =
    if bytes_eq magic (cpio_magic b'1')
    then some newc
    else if bytes_eq magic (cpio_magic b'2')
    then some newc_crc
    else if bytes_eq magic (cpio_magic b'7')
    then some odc
    else none

unfoldable pub magic_ok : Option CpioSubFormat → Bytes → Bool
magic_ok (some odc) magic = bytes_eq magic (cpio_magic b'7')
magic_ok _ magic = bytes_eq magic (cpio_magic b'1') || bytes_eq magic (cpio_magic b'2')

unfoldable pub parse_header : Option CpioSubFormat → Bytes → Result CpioHeader
parse_header (some odc) bytes = parse_odc_header bytes
parse_header _ bytes = parse_newc_header bytes
