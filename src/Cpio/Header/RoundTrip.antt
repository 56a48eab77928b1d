-- ===== src/Cpio/Header/RoundTrip.antt =====
-- src/cpio/header.rs, `parse_odc_header`: odc headers as they are written.
use iluvatar.Common.{
  ℕ, zero, suc, some, get_elem?, subst, ◌+◌, ◌-◌, ◌/◌, ◌%◌, ◌^◌, ◌<◌, ◌≤◌, ◌≡◌, refl, sym, ap, ◌∙◌,
  arith, List, [], ◌∷◌, ◌++◌, length, take, drop, slice, length-append, take-append, le→ltb, Bytes,
  All,
}
use iluvatar.Common.Sizes.{as_u32, IsU64}
use iluvatar.Common.Utf8.{is_utf8_ascii, IsAscii}
use iluvatar.Common.Numerals.Digits.{
  digits_of_width, digits_of_width-IsDigit, length-digits_of_width, from_str_radix-digits, IsDigit,
}
use iluvatar.Errors.{ok}
use iluvatar.Cpio.Header.{
  CpioHeader, numeral, parse_octal, odc_fields, parse_odc_header, odc_header_size,
}

-- The fields of an odc header.
pub record OdcFields : Type 0 where
  pub dev : ℕ
  pub ino : ℕ
  pub mode : ℕ
  pub uid : ℕ
  pub gid : ℕ
  pub nlink : ℕ
  pub rdev : ℕ
  pub mtime : ℕ
  pub namesize : ℕ
  pub filesize : ℕ

-- Six digits hold the short fields, eleven the time and the size.
pub record FitsOdc (r : OdcFields) : Type 0 where
  pub dev : r.dev < 8 ^ 6
  pub ino : r.ino < 8 ^ 6
  pub mode : r.mode < 8 ^ 6
  pub uid : r.uid < 8 ^ 6
  pub gid : r.gid < 8 ^ 6
  pub nlink : r.nlink < 8 ^ 6
  pub rdev : r.rdev < 8 ^ 6
  pub mtime : r.mtime < 8 ^ 11
  pub namesize : r.namesize < 8 ^ 6
  pub filesize : r.filesize < 8 ^ 11

abbrev octal : ℕ → ℕ → Bytes
octal width n = digits_of_width 8 width n

-- Fields of a width each, in order, and whatever follows.
abbrev pub encode_fields : List (ℕ × ℕ) → Bytes → Bytes
encode_fields [] rest = rest
encode_fields (f ∷ fs) rest = octal f.0 f.1 ++ encode_fields fs rest

abbrev pub fields_of : OdcFields → List (ℕ × ℕ)
fields_of r =
    (6, r.dev)
    ∷ (6, r.ino)
    ∷ (6, r.mode)
    ∷ (6, r.uid)
    ∷ (6, r.gid)
    ∷ (6, r.nlink)
    ∷ (6, r.rdev)
    ∷ (11, r.mtime)
    ∷ (6, r.namesize)
    ∷ (11, r.filesize)
    ∷ []

abbrev pub encode_odc : Bytes → OdcFields → Bytes → Bytes
encode_odc magic r rest = magic ++ encode_fields (fields_of r) rest

abbrev pub decoded : OdcFields → CpioHeader
decoded r = record {
  ino = r.ino;
  mode = r.mode;
  uid = r.uid;
  gid = r.gid;
  nlink = r.nlink;
  mtime = r.mtime;
  filesize = r.filesize;
  devmajor = r.dev / 256;
  devminor = r.dev % 256;
  rdevmajor = r.rdev / 256;
  rdevminor = r.rdev % 256;
  namesize = r.namesize;
}

-- The bytes of `bytes` from `lo` to `hi` are the digits of `n`.
abbrev Holds : ℕ → ℕ → ℕ → ℕ → Bytes → Type 0
Holds lo hi width n bytes = slice lo hi bytes ≡ octal width n

take_all : (width : ℕ) (xs ys : Bytes) → length xs ≡ width → take width (xs ++ ys) ≡ xs
take_all width xs ys h = ap (λ w. take w (xs ++ ys)) (sym h) ∙ take-append xs ys

Holds-first : (width n : ℕ) (rest : Bytes) → Holds 0 width width n (octal width n ++ rest)
Holds-first width n rest =
    let whole : width - 0 ≡ width = omega arith in
    ap (λ k. take k (octal width n ++ rest)) whole
    ∙ take_all width (octal width n) rest (length-digits_of_width 8 width n)

drop_past : (xs ys : Bytes) (lo : ℕ) → drop (length xs + lo) (xs ++ ys) ≡ drop lo ys
drop_past [] ys lo = ap (λ k. drop k ys) (omega arith)
drop_past (x ∷ xs) ys lo =
    let step : length (x ∷ xs) + lo ≡ suc (length xs + lo) = omega arith in
    ap (λ k. drop k (x ∷ (xs ++ ys))) step ∙ drop_past xs ys lo

slice_past :
    (xs ys : Bytes) (w lo hi : ℕ)
    → length xs ≡ w
    → slice (w + lo) (w + hi) (xs ++ ys) ≡ slice lo hi ys
slice_past xs ys w lo hi h =
    ap (λ k. take k (drop (w + lo) (xs ++ ys))) (omega arith)
    ∙ ap (λ k. take (hi - lo) (drop (k + lo) (xs ++ ys))) (sym h)
    ∙ ap (take (hi - lo)) (drop_past xs ys lo)

IsAscii-digits : (ds : Bytes) → All IsDigit ds → All IsAscii ds
IsAscii-digits [] h = tt
IsAscii-digits (d ∷ ds) (hd, h) = (omega arith, IsAscii-digits ds h)

parse_octal-digits : (k n : ℕ) → IsU64 n → n < 8 ^ suc k → parse_octal (octal (suc k) n) ≡ ok n
unfolding parse_octal numeral
parse_octal-digits k n fits h = rw (
  is_utf8_ascii (octal (suc k) n)
      (IsAscii-digits _ (digits_of_width-IsDigit 8 (suc k) n (omega arith) (omega arith))),
  from_str_radix-digits 8 k n (omega arith) (omega arith) fits h,
)

-- A field behind `w` more bytes.
Holds-past :
    (xs rest : Bytes) (w lo hi width n : ℕ)
    → length xs ≡ w
    → Holds lo hi width n rest
    → Holds (w + lo) (w + hi) width n (xs ++ rest)
Holds-past xs rest w lo hi width n h e = slice_past xs rest w lo hi h ∙ e

-- A field behind another of `w` digits.
Holds-next :
    (w m lo hi width n : ℕ) (rest : Bytes)
    → Holds lo hi width n rest
    → Holds (w + lo) (w + hi) width n (octal w m ++ rest)
Holds-next w m lo hi width n rest e =
    Holds-past (octal w m) rest w lo hi width n (length-digits_of_width 8 w m) e

field_read :
    (lo hi k n : ℕ) (bytes : Bytes)
    → Holds lo hi (suc k) n bytes
    → IsU64 n
    → n < 8 ^ suc k
    → parse_octal (slice lo hi bytes) ≡ ok n
field_read lo hi k n bytes e fits h = ap parse_octal e ∙ parse_octal-digits k n fits h

-- Where field `i` starts.
abbrev start : List (ℕ × ℕ) → ℕ → ℕ
start [] i = 0
start (f ∷ fs) zero = 0
start (f ∷ fs) (suc i) = f.0 + start fs i

sum : (a b c : ℕ) → a + (b + c) ≡ a + b + c
sum a b c = omega arith

Holds-field :
    (fs : List (ℕ × ℕ)) (rest : Bytes) (i : ℕ) (f : ℕ × ℕ)
    → get_elem? fs i ≡ some f
    → Holds (start fs i) (start fs i + f.0) f.0 f.1 (encode_fields fs rest)
Holds-field [] rest i f e = absurd (cc)
Holds-field (g ∷ fs) rest zero f e =
    let same : g ≡ f = cc in
    let bound : g.0 ≡ 0 + g.0 = omega arith in
    subst (λ (h : ℕ × ℕ). Holds 0 (0 + h.0) h.0 h.1 (octal g.0 g.1 ++ encode_fields fs rest)) same
      (subst (λ w. Holds 0 w g.0 g.1 (octal g.0 g.1 ++ encode_fields fs rest)) bound
        (Holds-first g.0 g.1 (encode_fields fs rest)))
Holds-field (g ∷ fs) rest (suc i) f e =
    subst (λ hi. Holds (g.0 + start fs i) hi f.0 f.1 (octal g.0 g.1 ++ encode_fields fs rest))
      (sum g.0 (start fs i) f.0)
      (Holds-next g.0 g.1 (start fs i) (start fs i + f.0) f.0 f.1 (encode_fields fs rest)
        (Holds-field fs rest i f e))

-- The bytes that fields take.
abbrev total : List (ℕ × ℕ) → ℕ
total [] = 0
total (f ∷ fs) = f.0 + total fs

length-encode_fields :
    (fs : List (ℕ × ℕ)) (rest : Bytes) → length (encode_fields fs rest) ≡ total fs + length rest
length-encode_fields [] rest = omega arith
length-encode_fields (f ∷ fs) rest = omega (
  arith,
  length-append (octal f.0 f.1) (encode_fields fs rest),
  length-digits_of_width 8 f.0 f.1,
  length-encode_fields fs rest,
)

-- What the parser reads of each field.
record Reads (bytes : Bytes) (r : OdcFields) : Type 0 where
  dev : parse_octal (slice 6 12 bytes) ≡ ok r.dev
  rdev : parse_octal (slice 42 48 bytes) ≡ ok r.rdev
  ino : parse_octal (slice 12 18 bytes) ≡ ok r.ino
  mode : parse_octal (slice 18 24 bytes) ≡ ok r.mode
  uid : parse_octal (slice 24 30 bytes) ≡ ok r.uid
  gid : parse_octal (slice 30 36 bytes) ≡ ok r.gid
  nlink : parse_octal (slice 36 42 bytes) ≡ ok r.nlink
  mtime : parse_octal (slice 48 59 bytes) ≡ ok r.mtime
  filesize : parse_octal (slice 65 76 bytes) ≡ ok r.filesize
  namesize : parse_octal (slice 59 65 bytes) ≡ ok r.namesize

as_u32_lem : (n : ℕ) → n < 8 ^ 6 → as_u32 n ≡ n
as_u32_lem n h = omega arith

odc_fields-Reads :
    (bytes : Bytes) (r : OdcFields) → FitsOdc r → Reads bytes r → odc_fields bytes ≡ ok (decoded r)
unfolding odc_fields
odc_fields-Reads bytes r w e = rw (
  e.dev,
  e.rdev,
  e.ino,
  e.mode,
  e.uid,
  e.gid,
  e.nlink,
  e.mtime,
  e.filesize,
  e.namesize,
  as_u32_lem r.mode w.mode,
  as_u32_lem r.nlink w.nlink,
  as_u32_lem r.dev w.dev,
  as_u32_lem r.rdev w.rdev,
  as_u32_lem r.namesize w.namesize,
)

module _ (magic rest : Bytes) (r : OdcFields) (six : length magic ≡ 6) where
  -- Field `i` of the header is read.
  read_at :
      (i k n : ℕ)
      → get_elem? (fields_of r) i ≡ some (suc k, n)
      → n < 8 ^ suc k
      → IsU64 n
      → parse_octal (
          slice
            (6 + start (fields_of r) i)
            (6 + (start (fields_of r) i + suc k))
            (encode_odc magic r rest))
        ≡ ok n
  read_at i k n e h fits =
      field_read (6 + start (fields_of r) i) (6 + (start (fields_of r) i + suc k)) k n
        (encode_odc magic r rest)
        (Holds-past magic (encode_fields (fields_of r) rest) 6 (start (fields_of r) i)
          (start (fields_of r) i + suc k) (suc k) n six
          (Holds-field (fields_of r) rest i (suc k, n) e))
        fits h

  encode_odc-Reads : FitsOdc r → Reads (encode_odc magic r rest) r
  encode_odc-Reads w = record {
    dev = read_at 0 5 r.dev refl w.dev (omega (arith, w.dev));
    rdev = read_at 6 5 r.rdev refl w.rdev (omega (arith, w.rdev));
    ino = read_at 1 5 r.ino refl w.ino (omega (arith, w.ino));
    mode = read_at 2 5 r.mode refl w.mode (omega (arith, w.mode));
    uid = read_at 3 5 r.uid refl w.uid (omega (arith, w.uid));
    gid = read_at 4 5 r.gid refl w.gid (omega (arith, w.gid));
    nlink = read_at 5 5 r.nlink refl w.nlink (omega (arith, w.nlink));
    mtime = read_at 7 10 r.mtime refl w.mtime (omega (arith, w.mtime));
    filesize = read_at 9 10 r.filesize refl w.filesize (omega (arith, w.filesize));
    namesize = read_at 8 5 r.namesize refl w.namesize (omega (arith, w.namesize));
  }

  -- An odc header whose fields are written in octal digits, eleven for the time and the file's size and
  -- six for the others, and fit in them, with any magic of 6 bytes before them and
  -- anything behind, is read back, each field at its place.
  pub parse_odc_header-encode :
      FitsOdc r → parse_odc_header (encode_odc magic r rest) ≡ ok (decoded r)
  unfolding parse_odc_header
  parse_odc_header-encode w =
      rw (le→ltb (length (encode_odc magic r rest)) odc_header_size long)
        (odc_fields-Reads (encode_odc magic r rest) r w (encode_odc-Reads w))
    where
      long : odc_header_size ≤ length (encode_odc magic r rest)
      long = omega (
        arith,
        length-append magic (encode_fields (fields_of r) rest),
        length-encode_fields (fields_of r) rest,
        six,
      )
