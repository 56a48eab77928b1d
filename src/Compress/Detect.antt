-- ===== src/Compress/Detect.antt =====
-- src/compress/detect.rs: the compression format from the first bytes of a stream.
use iluvatar.Common.{
  ℕ, ◌<◌, ◌≤◌, ◌≡◌, refl, arith, Bool, true, false, ◌&&◌, [], ◌∷◌, ◌++◌, Option, none, some, length,
  length-append, slice, leb, ltb, ◌==◌, bytes_eq, Bytes, Bool-cases, inl, inr, leb→le,
  if◌then◌else◌,
}
use iluvatar.Common.Search.{starts_with}
use iluvatar.Compress.{CompressionFormat, uncompressed, gzip, bzip2, xz, zstd}

abbrev pub detect_min_bytes : ℕ
detect_min_bytes = 6

abbrev gzip_magic : Bytes
gzip_magic = 0x1f ∷ 0x8b ∷ []

abbrev bzip2_magic : Bytes
bzip2_magic = 0x42 ∷ 0x5a ∷ 0x68 ∷ []

abbrev xz_magic : Bytes
xz_magic = 0xfd ∷ 0x37 ∷ 0x7a ∷ 0x58 ∷ 0x5a ∷ 0x00 ∷ []

abbrev zstd_magic : Bytes
zstd_magic = 0x28 ∷ 0xb5 ∷ 0x2f ∷ 0xfd ∷ []

-- The test for "ustar" at offset 257.
unfoldable pub has_tar_magic : Bytes → Bool
unfolding bytes_eq
has_tar_magic header =
    leb 263 (length header)
    && bytes_eq (slice 257 262 header) (b'u' ∷ b's' ∷ b't' ∷ b'a' ∷ b'r' ∷ [])

-- `header.len() >= n && header[0] == … && header[n - 1] == …` is `starts_with`.
unfoldable pub detect_format : Bytes → Option CompressionFormat
detect_format header =
    if ltb (length header) 2
    then none
    else if starts_with gzip_magic header
    then some gzip
    else if starts_with bzip2_magic header
    then some bzip2
    else if starts_with xz_magic header
    then some xz
    else if starts_with zstd_magic header
    then some zstd
    else if has_tar_magic header
    then some uncompressed
    else if leb detect_min_bytes (length header)
    then some uncompressed
    else none

starts_with-append :
    (magic front back : Bytes)
    → starts_with magic front ≡ true
    → starts_with magic (front ++ back) ≡ true
unfolding starts_with
starts_with-append [] front back h = refl
starts_with-append (m ∷ ms) [] back h = absurd (cc)
starts_with-append (m ∷ ms) (x ∷ front) back h = ground (arith, starts_with-append ms front back)

starts_with-append_long :
    (magic front back : Bytes)
    → length magic ≤ length front
    → starts_with magic (front ++ back) ≡ starts_with magic front
unfolding starts_with
starts_with-append_long [] front back h = refl
starts_with-append_long (m ∷ ms) [] back h = absurd (omega arith)
starts_with-append_long (m ∷ ms) (x ∷ front) back h =
    ground (arith, starts_with-append_long ms front back (omega arith))

has_tar_magic-length : (header : Bytes) → has_tar_magic header ≡ true → 263 ≤ length header
unfolding has_tar_magic
has_tar_magic-length header h = elim (Bool-cases (leb 263 (length header))) [
  | inl long ↦ leb→le _ _ long
  | inr short ↦ absurd (cc (rw short at h))
]

-- Streams with different first bytes.
starts_with-apart :
    (m n : ℕ) (ms ns xs : Bytes)
    → (m == n) ≡ false
    → starts_with (m ∷ ms) xs ≡ true
    → starts_with (n ∷ ns) xs ≡ false
unfolding starts_with
starts_with-apart m n ms ns [] h e = absurd (cc)
starts_with-apart m n ms ns (x ∷ xs) h e = ground arith

-- A format that is detected stays detected when bytes are added.
pub detect_format-append :
    (front back : Bytes) (f : CompressionFormat)
    → detect_format front ≡ some f
    → detect_format (front ++ back) ≡ some f
unfolding detect_format
detect_format-append front back f h = ground (
  arith,
  length-append front back,
  has_tar_magic-length front,
  starts_with-append gzip_magic front back,
  starts_with-append bzip2_magic front back,
  starts_with-append xz_magic front back,
  starts_with-append zstd_magic front back,
  starts_with-append_long gzip_magic front back,
  starts_with-append_long bzip2_magic front back,
  starts_with-append_long xz_magic front back,
  starts_with-append_long zstd_magic front back,
  starts_with-apart 0x42 0x1f (0x5a ∷ 0x68 ∷ []) (0x8b ∷ []) (front ++ back) refl,
  starts_with-apart 0xfd 0x1f (0x37 ∷ 0x7a ∷ 0x58 ∷ 0x5a ∷ 0x00 ∷ []) (0x8b ∷ []) (front ++ back)
      refl,
  starts_with-apart 0xfd 0x42 (0x37 ∷ 0x7a ∷ 0x58 ∷ 0x5a ∷ 0x00 ∷ []) (0x5a ∷ 0x68 ∷ [])
      (front ++ back) refl,
  starts_with-apart 0x28 0x1f (0xb5 ∷ 0x2f ∷ 0xfd ∷ []) (0x8b ∷ []) (front ++ back) refl,
  starts_with-apart 0x28 0x42 (0xb5 ∷ 0x2f ∷ 0xfd ∷ []) (0x5a ∷ 0x68 ∷ []) (front ++ back) refl,
  starts_with-apart 0x28 0xfd (0xb5 ∷ 0x2f ∷ 0xfd ∷ []) (0x37 ∷ 0x7a ∷ 0x58 ∷ 0x5a ∷ 0x00 ∷ [])
      (front ++ back) refl,
)

-- Where no compression format is detected, there are fewer than six bytes.
pub detect_format_decides :
    (header : Bytes) → detect_format header ≡ none → length header < detect_min_bytes
unfolding detect_format
detect_format_decides header h = ground arith
