-- ===== src/Ar/Parser/Alignment.antt =====
-- src/ar/parser.rs: what a call of `feed` consumes, and the offsets of member headers.
use iluvatar.Common.{
  ℕ, ◌+◌, ◌-◌, ◌%◌, ◌≤◌, ◌≡◌, refl, arith, min, subst, sym, bytes_eq, not, [], ◌∷◌, ◌++◌, length,
  take, length-take, length-append, Bytes, ltb, if◌then◌else◌, if_elim, Bool-cases, inl, inr, ◌==◌,
}
use iluvatar.Common.Sizes.{add_u64}
use iluvatar.Errors.{Result, ok, err, Error, ArProblem}
use iluvatar.Archive.{ArchiveEntry, Event, entry, need_data, fed, failed}
use iluvatar.Archive.Detect.{ar_magic, thin_magic}
use iluvatar.Ar.Header.{ArHeader, header_size, parse_header}
use iluvatar.Common.Search.{starts_with}
use iluvatar.Ar.Parser.{
  symdef, ArState, reading_magic, reading_header, reading_name_table, reading_bsd_name,
  skipping_data, ArParser, new, fill_header_buf, finish_magic, feed_magic, decoded_name, skip,
  finish_header, feed_header, feed_name_table, named_member, inline_member, feed_bsd_name,
  unpadded_name, feed_skip_data, feed_in, feed, member_entry,
}
use iluvatar.Ar.Parser.Members.{
  StateIsAligned, IsAligned, Advanced, Accounts, Between, skip-Accounts, with_header-Accounts,
}

header-Accounts :
    (xs : Bytes) (p : ArParser)
    → p.state ≡ reading_header
    → IsAligned p
    → Accounts p (length xs) (feed_header xs p)
unfolding feed_header finish_header fill_header_buf
header-Accounts xs p e v =
    let n = min (length xs) (header_size - length p.header_buf) in
    let q = record p {
      header_buf = p.header_buf ++ take n xs;
      stream_pos = add_u64 p.stream_pos n;
    } in
    let before = subst (λ st. StateIsAligned st (length p.header_buf) p.stream_pos) e v.even in
    let len_eq : length q.header_buf ≡ length p.header_buf + n =
      omega (arith, length-append p.header_buf (take n xs), length-take n xs) in
    elim (Bool-cases (length q.header_buf == header_size)) [
      | inl full ↦ rw full (
          with_header-Accounts (parse_header q.header_buf) p q (length xs) n (omega arith) refl
            (ground (arith, before, len_eq)))
      | inr part ↦ rw part (record {
        within = omega arith;
        moved = refl;
        aligned = record {
          fits = omega arith;
          even =
              subst (λ st. StateIsAligned st (length q.header_buf) q.stream_pos) (sym e)
                (ground (arith, before, len_eq));
        };
      })
    ]

magic-Accounts :
    (xs : Bytes) (p : ArParser)
    → p.state ≡ reading_magic
    → IsAligned p
    → Accounts p (length xs) (feed_magic xs p)
unfolding feed_magic finish_magic fill_header_buf
magic-Accounts xs p e v =
    let n = min (length xs) (8 - length p.header_buf) in
    let q = record p {
      header_buf = p.header_buf ++ take n xs;
      stream_pos = add_u64 p.stream_pos n;
    } in
    let before = subst (λ st. StateIsAligned st (length p.header_buf) p.stream_pos) e v.even in
    let len_eq : length q.header_buf ≡ length p.header_buf + n =
      omega (arith, length-append p.header_buf (take n xs), length-take n xs) in
    elim (Bool-cases (length q.header_buf == 8)) [
      | inr part ↦ rw part (record {
        within = omega arith;
        moved = refl;
        aligned = record {
          fits = omega arith;
          even =
              subst (λ st. StateIsAligned st (length q.header_buf) q.stream_pos) (sym e)
                (ground (arith, before, len_eq));
        };
      })
      | inl full ↦ rw full (checked n q (omega arith) refl (ground (arith, before, len_eq)))
    ]
  where
    checked :
        (n : ℕ) (q : ArParser)
        → n ≤ length xs
        → q.stream_pos ≡ add_u64 p.stream_pos n
        → q.stream_pos % 2 ≡ 0
        → Accounts p (length xs) (
            if bytes_eq q.header_buf thin_magic
            then failed (Error.invalid_ar_header ArProblem.thin_archive) q
            else if not (bytes_eq q.header_buf ar_magic)
            then failed (Error.invalid_ar_header ArProblem.unrecognized_magic) q
            else fed n need_data (record q { header_buf = []; state = reading_header }))
    checked n q le moved h = ground arith

name_table-Accounts :
    (remaining pad : ℕ) (buf xs : Bytes) (p : ArParser)
    → p.state ≡ reading_name_table remaining pad buf
    → IsAligned p
    → Accounts p (length xs) (feed_name_table remaining pad buf xs p)
unfolding feed_name_table skip
name_table-Accounts remaining pad buf xs p e v =
    let before = subst (λ st. StateIsAligned st (length p.header_buf) p.stream_pos) e v.even in
    ground (arith, before)

named_member-Accounts :
    (r : Result Bytes) (p q : ArParser) (len n size : ℕ) (hdr : ArHeader)
    → Between p q len n
    → (q.stream_pos + size + hdr.size % 2) % 2 ≡ 0
    → Accounts p len (named_member r n size hdr q)
unfolding named_member
named_member-Accounts (err x) p q len n size hdr b h = tt
named_member-Accounts (ok path) p q len n size hdr b h =
    skip-Accounts p q len n size (hdr.size % 2) (entry (member_entry path hdr size q)) b h

inline_member-Accounts :
    (name : Bytes) (p q : ArParser) (len n size : ℕ) (hdr : ArHeader)
    → Between p q len n
    → (q.stream_pos + size + hdr.size % 2) % 2 ≡ 0
    → Accounts p len (inline_member name n size hdr q)
unfolding inline_member
inline_member-Accounts name p q len n size hdr b h =
    if_elim (Accounts p len) (starts_with symdef name)
      (λ table. skip-Accounts p q len n size (hdr.size % 2) need_data b h)
      (λ named. named_member-Accounts (decoded_name name) p q len n size hdr b h)

bsd_name-Accounts :
    (hdr : ArHeader) (remaining : ℕ) (buf xs : Bytes) (p : ArParser)
    → p.state ≡ reading_bsd_name hdr remaining buf
    → IsAligned p
    → Accounts p (length xs) (feed_bsd_name hdr remaining buf xs p)
unfolding feed_bsd_name
bsd_name-Accounts hdr remaining buf xs p e v =
    let n = min (length xs) remaining in
    let kept = buf ++ take n xs in
    let q = record p { stream_pos = add_u64 p.stream_pos n } in
    let before = subst (λ st. StateIsAligned st (length p.header_buf) p.stream_pos) e v.even in
    let len_eq : length kept ≡ length buf + n =
      omega (arith, length-append buf (take n xs), length-take n xs) in
    elim (Bool-cases (ltb 0 (remaining - n))) [
      | inl more ↦ rw more (ground (arith, before, len_eq))
      | inr all ↦ rw all (
          inline_member-Accounts (unpadded_name kept) p (record q { state = reading_header })
            (length xs) n (hdr.size - length kept) hdr
            (record { within = omega arith; moved = refl; no_buf = before.0 })
            (ground (arith, before, len_eq)))
    ]

skip_data-Accounts :
    (remaining pad : ℕ) (xs : Bytes) (p : ArParser)
    → p.state ≡ skipping_data remaining pad
    → IsAligned p
    → Accounts p (length xs) (feed_skip_data remaining pad xs p)
unfolding feed_skip_data
skip_data-Accounts remaining pad xs p e v =
    let before = subst (λ st. StateIsAligned st (length p.header_buf) p.stream_pos) e v.even in
    ground (arith, before)

feed_in-Accounts :
    (st : ArState) (xs : Bytes) (p : ArParser)
    → p.state ≡ st
    → IsAligned p
    → Accounts p (length xs) (feed_in st xs p)
unfolding feed_in
feed_in-Accounts reading_magic xs p e v = magic-Accounts xs p e v
feed_in-Accounts reading_header xs p e v = header-Accounts xs p e v
feed_in-Accounts (reading_name_table remaining pad buf) xs p e v =
    name_table-Accounts remaining pad buf xs p e v
feed_in-Accounts (reading_bsd_name hdr remaining buf) xs p e v =
    bsd_name-Accounts hdr remaining buf xs p e v
feed_in-Accounts (skipping_data remaining pad) xs p e v = skip_data-Accounts remaining pad xs p e v

feed-Accounts : (xs : Bytes) (p : ArParser) → IsAligned p → Accounts p (length xs) (feed xs p)
unfolding feed
feed-Accounts [] p v = record { within = omega arith; moved = omega (arith, v.fits); aligned = v }
feed-Accounts (x ∷ xs) p v = feed_in-Accounts p.state (x ∷ xs) p refl v

-- On a parser that meets the invariant, a call of the ar parser's `feed` that does not fail consumes no more than the chunk, moves the
-- stream position by what it consumes, and keeps the invariant that every member header and the
-- end of every member with its padding stand at an even offset.
pub ar_feed-Advanced :
    (xs : Bytes) (p q : ArParser) (n : ℕ) (ev : Event ArchiveEntry)
    → IsAligned p
    → feed xs p ≡ fed n ev q
    → Advanced p q (length xs) n
ar_feed-Advanced xs p q n ev v e = subst (Accounts p (length xs)) e (feed-Accounts xs p v)

-- The new parser meets the invariant.
pub ar_new-IsAligned : IsAligned new
ar_new-IsAligned = record { fits = omega arith; even = (omega arith, refl) }
