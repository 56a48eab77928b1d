-- ===== src/Archive/Detect.antt =====
-- src/archive/detect.rs: the archive format from the first decompressed bytes.
pub mod Stable
use iluvatar.Common.{
  ℕ, ◌+◌, ◌*◌, Bool, true, false, ◌||◌, List, [], ◌∷◌, Option, none, some, length, slice, leb, ◌==◌,
  ◌&&◌, get_or, bytes_eq, Bytes, if◌then◌else◌,
}
use mathlib.Core.Option
use iluvatar.Archive.{ArchiveFormat, tar, cpio, ar}

abbrev pub ar_magic : Bytes
ar_magic = b'!' ∷ b'<' ∷ b'a' ∷ b'r' ∷ b'c' ∷ b'h' ∷ b'>' ∷ b'\n' ∷ []

abbrev pub thin_magic : Bytes
thin_magic = b'!' ∷ b'<' ∷ b't' ∷ b'h' ∷ b'i' ∷ b'n' ∷ b'>' ∷ b'\n' ∷ []

abbrev pub min_detect_bytes : ℕ
min_detect_bytes = 263

abbrev pub cpio_magic : ℕ → Bytes
cpio_magic last = b'0' ∷ b'7' ∷ b'0' ∷ b'7' ∷ b'0' ∷ last ∷ []

-- `u16::from_le_bytes([data[0], data[1]])`, and `from_be_bytes`.
abbrev pub le_word : Bytes → ℕ
le_word bytes = get_or bytes 0 0 + get_or bytes 1 0 * 256

abbrev pub be_word : Bytes → ℕ
be_word bytes = get_or bytes 0 0 * 256 + get_or bytes 1 0

unfoldable pub is_ar : Bytes → Bool
unfolding bytes_eq
is_ar bytes =
    leb 8 (length bytes)
    && (bytes_eq (slice 0 8 bytes) ar_magic || bytes_eq (slice 0 8 bytes) thin_magic)

unfoldable pub is_ascii_cpio : Bytes → Bool
unfolding bytes_eq
is_ascii_cpio bytes =
    leb 6 (length bytes)
    && (bytes_eq (slice 0 6 bytes) (cpio_magic b'1')
        || bytes_eq (slice 0 6 bytes) (cpio_magic b'2')
        || bytes_eq (slice 0 6 bytes) (cpio_magic b'7'))

unfoldable pub is_binary_cpio : Bytes → Bool
is_binary_cpio bytes =
    leb 2 (length bytes) && (le_word bytes == 0o070707 || be_word bytes == 0o070707)

-- Both tests of the tar branch answer tar.
unfoldable pub has_ustar : Bytes → Bool
unfolding bytes_eq
has_ustar bytes = bytes_eq (slice 257 262 bytes) (b'u' ∷ b's' ∷ b't' ∷ b'a' ∷ b'r' ∷ [])

unfoldable pub detect_archive_format : Bytes → Option ArchiveFormat
detect_archive_format bytes =
    if is_ar bytes
    then some ar
    else if is_ascii_cpio bytes
    then some cpio
    else if is_binary_cpio bytes
    then some cpio
    else if leb min_detect_bytes (length bytes)
    then (if has_ustar bytes then some tar else some tar)
    else none
