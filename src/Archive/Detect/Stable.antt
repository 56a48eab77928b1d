-- ===== src/Archive/Detect/Stable.antt =====
-- Detection on a growing buffer, as `IndexingEngine::drain_output` runs it.
use iluvatar.Common.{
  ◌≤◌, ◌<◌, ◌≡◌, arith, [], ◌∷◌, ◌++◌, none, some, length, length-append, Bytes, bytes_eq,
  take-append_within, true, false,
}
use iluvatar.Archive.{ArchiveFormat}
use iluvatar.Archive.Detect.{
  detect_archive_format, is_ar, is_ascii_cpio, is_binary_cpio, min_detect_bytes,
}

is_ar-append : (d e : Bytes) → 8 ≤ length d → is_ar (d ++ e) ≡ is_ar d
unfolding is_ar
is_ar-append d e h = ground (arith, take-append_within 8 d e, length-append d e)

is_ascii_cpio-append : (d e : Bytes) → 6 ≤ length d → is_ascii_cpio (d ++ e) ≡ is_ascii_cpio d
unfolding is_ascii_cpio
is_ascii_cpio-append d e h = ground (arith, take-append_within 6 d e, length-append d e)

is_binary_cpio-append : (d e : Bytes) → 2 ≤ length d → is_binary_cpio (d ++ e) ≡ is_binary_cpio d
unfolding is_binary_cpio
is_binary_cpio-append [] e h = absurd (omega arith)
is_binary_cpio-append (a ∷ []) e h = absurd (omega arith)
is_binary_cpio-append (a ∷ b ∷ r) e h = ground (arith, length-append r e)

-- No test passes on too few bytes.
is_ar-length : (d : Bytes) → is_ar d ≡ true → 8 ≤ length d
unfolding is_ar
is_ar-length d h = ground arith

is_ascii_cpio-length : (d : Bytes) → is_ascii_cpio d ≡ true → 6 ≤ length d
unfolding is_ascii_cpio
is_ascii_cpio-length d h = ground arith

is_binary_cpio-length : (d : Bytes) → is_binary_cpio d ≡ true → 2 ≤ length d
unfolding is_binary_cpio
is_binary_cpio-length d h = ground arith

-- The magics exclude one another by their first bytes.
ascii_not_ar : (d : Bytes) → is_ascii_cpio d ≡ true → is_ar d ≡ false
unfolding is_ascii_cpio is_ar bytes_eq
ascii_not_ar [] h = ground arith
ascii_not_ar (a ∷ r) h = ground arith

binary_not_ar : (d : Bytes) → is_binary_cpio d ≡ true → is_ar d ≡ false
unfolding is_binary_cpio is_ar bytes_eq
binary_not_ar [] h = ground arith
binary_not_ar (a ∷ []) h = ground arith
binary_not_ar (a ∷ b ∷ r) h = ground arith

-- What is detected stays detected when bytes are added.
pub detect-append :
    (front back : Bytes) (f : ArchiveFormat)
    → detect_archive_format front ≡ some f
    → detect_archive_format (front ++ back) ≡ some f
unfolding detect_archive_format
detect-append front back f h = ground (
  arith,
  is_ar-append front back,
  is_ascii_cpio-append front back,
  is_binary_cpio-append front back,
  is_ar-length front,
  is_ascii_cpio-length front,
  is_binary_cpio-length front,
  ascii_not_ar (front ++ back),
  binary_not_ar (front ++ back),
  length-append front back,
)

-- Where no archive format is detected, the buffer has fewer than 263 bytes.
pub detect_decides :
    (bytes : Bytes) → detect_archive_format bytes ≡ none → length bytes < min_detect_bytes
unfolding detect_archive_format
detect_decides bytes h = ground arith
