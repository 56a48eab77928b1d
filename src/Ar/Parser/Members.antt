-- ===== src/Ar/Parser/Members.antt =====
-- src/ar/parser.rs: the parser's invariant, and the handling of a member header.
use iluvatar.Common.{
  ℕ, ◌+◌, ◌%◌, ◌≤◌, ◌<◌, ◌≡◌, refl, arith, [], ◌∷◌, Option, none, some, length, Bytes, Option-cases,
  inl, inr,
}
use iluvatar.Common.Sizes.{add_u64, IsU64}
use iluvatar.Common.Search.{strip_prefix}
use iluvatar.Errors.{Result, ok, err}
use iluvatar.Archive.{ArchiveEntry, Event, entry, need_data, fed, failed, panicked}
use iluvatar.Ar.Header.{ArHeader, header_size, parse_name_number}
use iluvatar.Ar.Parser.{
  ArState, reading_magic, reading_header, reading_name_table, reading_bsd_name, skipping_data,
  Member, skip_member, name_table_member, bsd_name, named, ArParser, Outcome, classify,
  classify_slash, classify_bsd, classify_plain, skip, dispatch, with_member, with_header,
  member_entry,
}

-- With `buf_len` bytes of a header read, and the stream at `pos`.
abbrev pub StateIsAligned : ArState → (buf_len pos : ℕ) → Type 0
StateIsAligned reading_magic buf_len pos = (buf_len < 8) × ((pos + buf_len) % 2 ≡ 0)
StateIsAligned reading_header buf_len pos = (buf_len < header_size) × ((pos + buf_len) % 2 ≡ 0)
StateIsAligned (reading_name_table remaining pad buf) buf_len pos =
    (buf_len ≡ 0) × ((pos + remaining + pad) % 2 ≡ 0)
StateIsAligned (reading_bsd_name hdr remaining buf) buf_len pos =
    (buf_len ≡ 0) × ((pos + length buf) % 2 ≡ 0) × (length buf + remaining ≤ hdr.size)
StateIsAligned (skipping_data remaining pad) buf_len pos =
    (buf_len ≡ 0) × ((pos + remaining) % 2 ≡ 0)

pub record IsAligned (p : ArParser) : Type 0 where
  pub fits : IsU64 p.stream_pos
  pub even : StateIsAligned p.state (length p.header_buf) p.stream_pos

-- What a call has done to the parser: it consumed `n` of the chunk's `len` bytes, and the position
-- has moved by them.
pub record Advanced (p q : ArParser) (len n : ℕ) : Type 0 where
  pub within : n ≤ len
  pub moved : q.stream_pos ≡ add_u64 p.stream_pos n
  pub aligned : IsAligned q

abbrev pub Accounts : ArParser → ℕ → Outcome → Type 0
Accounts p len (fed n ev q) = Advanced p q len n
Accounts p len (failed e q) = Unit {0}
Accounts p len panicked = Unit {0}

-- A parser at the end of a member header.
pub record Between (p q : ArParser) (len n : ℕ) : Type 0 where
  pub within : n ≤ len
  pub moved : q.stream_pos ≡ add_u64 p.stream_pos n
  pub no_buf : length q.header_buf ≡ 0

pub skip-Accounts :
    (p q : ArParser) (len n size pad : ℕ) (ev : Event ArchiveEntry)
    → Between p q len n
    → (q.stream_pos + size + pad) % 2 ≡ 0
    → Accounts p len (fed n ev (skip size pad q))
unfolding skip
skip-Accounts p q len n size pad ev b h = ground arith

-- The member that a header stands for fits: an inline name is part of the member.
abbrev MemberFits : ArHeader → Result Member → Type 0
MemberFits hdr (ok (bsd_name len)) = len ≤ hdr.size
MemberFits hdr _ = Unit {0}

classify_bsd-fits : (o : Option ℕ) (hdr : ArHeader) → MemberFits hdr (classify_bsd o hdr)
unfolding classify_bsd
classify_bsd-fits none hdr = tt
classify_bsd-fits (some len) hdr = ground arith

classify_plain-fits : (name : Bytes) (hdr : ArHeader) → MemberFits hdr (classify_plain name)
unfolding classify_plain
classify_plain-fits name hdr = ground arith

classify_slash-fits :
    (o : Option ℕ) (hdr : ArHeader) (p : ArParser) → MemberFits hdr (classify_slash o p)
unfolding classify_slash
classify_slash-fits none hdr p = tt
classify_slash-fits (some offset) hdr p = ground arith

classify-fits : (hdr : ArHeader) (p : ArParser) → MemberFits hdr (classify hdr p)
unfolding classify
classify-fits hdr p = elim (Option-cases (strip_prefix (b'/' ∷ []) hdr.name)) [
  | inr (rest, slash) ↦
      rw slash (ground (arith, classify_slash-fits (parse_name_number rest) hdr p))
  | inl no_slash ↦
      rw no_slash (elim (Option-cases (strip_prefix (b'#' ∷ b'1' ∷ b'/' ∷ []) hdr.name)) [
        | inr (rest, bsd) ↦ rw bsd (ground (arith, classify_bsd-fits (parse_name_number rest) hdr))
        | inl plain ↦ rw plain (ground (arith, classify_plain-fits hdr.name hdr))
      ])
]

dispatch-Accounts :
    (m : Member) (p q : ArParser) (len n : ℕ) (hdr : ArHeader)
    → MemberFits hdr (ok m)
    → Between p q len n
    → q.stream_pos % 2 ≡ 0
    → Accounts p len (dispatch m n hdr q)
unfolding dispatch
dispatch-Accounts skip_member p q len n hdr fits b h =
    skip-Accounts p q len n hdr.size (hdr.size % 2) need_data b (omega (arith, h))
dispatch-Accounts name_table_member p q len n hdr fits b h = ground arith
dispatch-Accounts (bsd_name size) p q len n hdr fits b h = ground arith
dispatch-Accounts (named path) p q len n hdr fits b h =
    skip-Accounts p q len n hdr.size (hdr.size % 2) (entry (member_entry path hdr hdr.size q)) b
      (omega (arith, h))

with_member-Accounts :
    (r : Result Member) (p q : ArParser) (len n : ℕ) (hdr : ArHeader)
    → MemberFits hdr r
    → Between p q len n
    → q.stream_pos % 2 ≡ 0
    → Accounts p len (with_member r n hdr q)
unfolding with_member
with_member-Accounts (ok m) p q len n hdr fits b h = dispatch-Accounts m p q len n hdr fits b h
with_member-Accounts (err x) p q len n hdr fits b h = tt

pub with_header-Accounts :
    (r : Result ArHeader) (p q : ArParser) (len n : ℕ)
    → n ≤ len
    → q.stream_pos ≡ add_u64 p.stream_pos n
    → q.stream_pos % 2 ≡ 0
    → Accounts p len (with_header r n q)
unfolding with_header
with_header-Accounts (err x) p q len n le moved h = tt
with_header-Accounts (ok hdr) p q len n le moved h =
    let q' = record q { header_buf = [] } in
    with_member-Accounts (classify hdr q') p q' len n hdr (classify-fits hdr q')
      (record { within = le; moved = moved; no_buf = refl }) h
