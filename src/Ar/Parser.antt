-- ===== src/Ar/Parser.antt =====
-- src/ar/parser.rs: the incremental ar parser. A method on `&mut self` takes the parser and
-- returns the outcome with the parser as the call leaves it, on errors too.
pub mod Members
pub mod Alignment
pub mod Names
use iluvatar.Common.{
  ℕ, ◌+◌, ◌-◌, ◌*◌, ◌%◌, ◌^◌, min, Bool, true, false, not, ◌&&◌, ◌||◌, List, [], ◌∷◌, ◌++◌, Option,
  none, some, length, is_empty, take, drop, ltb, leb, ◌==◌, bytes_eq, Bytes, if◌then◌else◌,
}
use iluvatar.Common.Sizes.{add_u64}
use iluvatar.Common.Search.{rposition_end, position_or_len, strip_prefix, strip_last, starts_with}
use iluvatar.Common.Utf8.{from_utf8_lossy}
use iluvatar.Errors.{Error, ArProblem, Ending, Result, ok, err, ◌>>=◌}
use iluvatar.Archive.{ArchiveEntry, EntryType, Event, entry, need_data, Fed, fed, failed, panicked}
use iluvatar.Archive.Detect.{ar_magic, thin_magic}
use iluvatar.Ar.Header.{ArHeader, header_size, refuse, parse_header, parse_name_number}

abbrev pub max_name_size : ℕ
max_name_size = 2 ^ 16

abbrev pub max_name_table_size : ℕ
max_name_table_size = 64 * 2 ^ 20

-- `ArState`
pub data ArState : Type 0 where
  reading_magic reading_header : ArState
  reading_name_table : (remaining pad : ℕ) → Bytes → ArState
  reading_bsd_name : ArHeader → (remaining : ℕ) → Bytes → ArState
  skipping_data : (remaining pad : ℕ) → ArState

-- `Member`
pub data Member : Type 0 where
  skip_member name_table_member : Member
  bsd_name : ℕ → Member
  named : Bytes → Member

-- `ArParser`
pub record ArParser : Type 0 where
  pub state : ArState
  pub header_buf : Bytes
  pub stream_pos : ℕ
  pub name_table : Option Bytes

abbrev pub Outcome : Type 0
Outcome = Fed ArParser ArchiveEntry

-- `ArParser::new`
abbrev pub new : ArParser
new = record { state = reading_magic; header_buf = []; stream_pos = 0; name_table = none }

-- `fill_header_buf`: the number of bytes taken, and the parser.
unfoldable pub fill_header_buf : Bytes → ℕ → ArParser → ℕ × ArParser
fill_header_buf bytes size p =
    let n = min (length bytes) (size - length p.header_buf) in
    (n, record p { header_buf = p.header_buf ++ take n bytes; stream_pos = add_u64 p.stream_pos n })

-- `feed_magic`, behind the call of `fill_header_buf`.
unfoldable pub finish_magic : ℕ → ArParser → Outcome
finish_magic n p =
    if not (length p.header_buf == 8)
    then fed n need_data p
    else if bytes_eq p.header_buf thin_magic
    then failed (Error.invalid_ar_header ArProblem.thin_archive) p
    else if not (bytes_eq p.header_buf ar_magic)
    then failed (Error.invalid_ar_header ArProblem.unrecognized_magic) p
    else fed n need_data (record p { header_buf = []; state = reading_header })

unfoldable pub feed_magic : Bytes → ArParser → Outcome
feed_magic bytes p = let r = fill_header_buf bytes 8 p in finish_magic r.0 r.1

-- A member's name without the slash that ends it, unless it is empty.
unfoldable pub decoded_name : Bytes → Result Bytes
decoded_name [] = refuse ArProblem.empty_name
decoded_name (c ∷ cs) = ok (from_utf8_lossy (c ∷ cs))

-- The name that a table holds at an offset.
unfoldable pub name_in_table : ℕ → Bytes → Result Bytes
name_in_table offset table =
    if ltb (length table) offset
    then refuse ArProblem.name_out_of_range
    else (let tail = drop offset table in
        decoded_name
          (strip_last b'/' (take (position_or_len (λ b. b == b'\n' || b == 0) tail) tail)))

unfoldable pub lookup_long_name : ℕ → ArParser → Result Bytes
lookup_long_name offset p = elim p.name_table [
  | none ↦ refuse ArProblem.no_name_table
  | some table ↦ name_in_table offset table
]

-- `/<offset>`, or a special member.
unfoldable pub classify_slash : Option ℕ → ArParser → Result Member
classify_slash none p = ok skip_member
classify_slash (some offset) p = do name ← lookup_long_name offset p; ok (named name)

-- `#1/<len>`
unfoldable pub classify_bsd : Option ℕ → ArHeader → Result Member
classify_bsd none hdr = refuse ArProblem.invalid_bsd_length
classify_bsd (some len) hdr =
    if leb len max_name_size && leb len hdr.size
    then ok (bsd_name len)
    else refuse ArProblem.invalid_bsd_length

abbrev pub symdef : Bytes
symdef = b'_' ∷ b'_' ∷ b'.' ∷ b'S' ∷ b'Y' ∷ b'M' ∷ b'D' ∷ b'E' ∷ b'F' ∷ []

unfoldable pub classify_plain : Bytes → Result Member
classify_plain name =
    if starts_with symdef name
    then ok skip_member
    else (do path ← decoded_name (strip_last b'/' name); ok (named path))

unfoldable pub classify : ArHeader → ArParser → Result Member
classify hdr p =
    if bytes_eq hdr.name (b'/' ∷ b'/' ∷ [])
    then ok name_table_member
    else (elim (strip_prefix (b'/' ∷ []) hdr.name) [
      | some rest ↦ classify_slash (parse_name_number rest) p
      | none ↦ elim (strip_prefix (b'#' ∷ b'1' ∷ b'/' ∷ []) hdr.name) [
        | some rest ↦ classify_bsd (parse_name_number rest) hdr
        | none ↦ classify_plain hdr.name
      ]
    ])

-- `entry`: the entry of a member whose data starts at the current position.
unfoldable pub member_entry : Bytes → ArHeader → ℕ → ArParser → ArchiveEntry
member_entry path hdr size p = record {
  path = path;
  size = size;
  entry_type = EntryType.regular;
  mode = hdr.mode % 4096;
  uid = hdr.uid;
  gid = hdr.gid;
  mtime = hdr.mtime;
  link_target = none;
  data_offset = p.stream_pos;
}

-- `skip`: member bytes followed by padding.
unfoldable pub skip : ℕ → ℕ → ArParser → ArParser
skip size pad p = record p {
  state = if add_u64 size pad == 0 then reading_header else skipping_data (add_u64 size pad) pad;
}

-- The `match` on the member.
unfoldable pub dispatch : Member → ℕ → ArHeader → ArParser → Outcome
dispatch skip_member n hdr p = fed n need_data (skip hdr.size (hdr.size % 2) p)
dispatch name_table_member n hdr p =
    if ltb max_name_table_size hdr.size
    then failed (Error.invalid_ar_header ArProblem.implausible_table_size) p
    else fed n need_data (record p { state = reading_name_table hdr.size (hdr.size % 2) [] })
dispatch (bsd_name len) n hdr p = fed n need_data (record p { state = reading_bsd_name hdr len [] })
dispatch (named path) n hdr p =
    fed n (entry (member_entry path hdr hdr.size p)) (skip hdr.size (hdr.size % 2) p)

-- `?` on the member, and on the parsed header.
unfoldable pub with_member : Result Member → ℕ → ArHeader → ArParser → Outcome
with_member (ok m) n hdr p = dispatch m n hdr p
with_member (err x) n hdr p = failed x p

unfoldable pub with_header : Result ArHeader → ℕ → ArParser → Outcome
with_header (ok hdr) n p =
    let q = record p { header_buf = [] } in with_member (classify hdr q) n hdr q
with_header (err x) n p = failed x p

-- `feed_header`, behind the call of `fill_header_buf`.
unfoldable pub finish_header : ℕ → ArParser → Outcome
finish_header n p =
    if not (length p.header_buf == header_size)
    then fed n need_data p
    else with_header (parse_header p.header_buf) n p

unfoldable pub feed_header : Bytes → ArParser → Outcome
feed_header bytes p = let r = fill_header_buf bytes header_size p in finish_header r.0 r.1

unfoldable pub feed_name_table : (remaining pad : ℕ) → Bytes → Bytes → ArParser → Outcome
feed_name_table remaining pad buf bytes p =
    let n = min (length bytes) remaining in
    let q = record p { stream_pos = add_u64 p.stream_pos n } in
    if ltb 0 (remaining - n)
    then fed n need_data
        (record q { state = reading_name_table (remaining - n) pad (buf ++ take n bytes) })
    else fed n need_data (skip 0 pad (record q { name_table = some (buf ++ take n bytes) }))

-- A member with its inline name. A failure leaves the header state that `mem::replace` put.
unfoldable pub named_member : Result Bytes → ℕ → ℕ → ArHeader → ArParser → Outcome
named_member (err x) n size hdr p = failed x p
named_member (ok path) n size hdr p =
    fed n (entry (member_entry path hdr size p)) (skip size (hdr.size % 2) p)

-- The member behind an inline name: a BSD symbol table is skipped.
unfoldable pub inline_member : Bytes → ℕ → ℕ → ArHeader → ArParser → Outcome
inline_member name n size hdr p =
    if starts_with symdef name
    then fed n need_data (skip size (hdr.size % 2) p)
    else named_member (decoded_name name) n size hdr p

-- `&buf[..name_end]`: the name without its trailing NULs.
unfoldable pub unpadded_name : Bytes → Bytes
unpadded_name buf = take (rposition_end (λ b. not (b == 0)) buf) buf

unfoldable pub feed_bsd_name : ArHeader → (remaining : ℕ) → Bytes → Bytes → ArParser → Outcome
feed_bsd_name hdr remaining buf bytes p =
    let n = min (length bytes) remaining in
    let kept = buf ++ take n bytes in
    let q = record p { stream_pos = add_u64 p.stream_pos n } in
    if ltb 0 (remaining - n)
    then fed n need_data (record q { state = reading_bsd_name hdr (remaining - n) kept })
    else inline_member (unpadded_name kept) n (hdr.size - length kept) hdr
        (record q { state = reading_header })

unfoldable pub feed_skip_data : (remaining pad : ℕ) → Bytes → ArParser → Outcome
feed_skip_data remaining pad bytes p =
    let n = min (length bytes) remaining in
    fed n need_data (record p {
      stream_pos = add_u64 p.stream_pos n;
      state =
          if remaining - n == 0
          then reading_header
          else skipping_data (remaining - n) (min pad (remaining - n));
    })

unfoldable pub feed_in : ArState → Bytes → ArParser → Outcome
feed_in reading_magic bytes p = feed_magic bytes p
feed_in reading_header bytes p = feed_header bytes p
feed_in (reading_name_table remaining pad buf) bytes p = feed_name_table remaining pad buf bytes p
feed_in (reading_bsd_name hdr remaining buf) bytes p = feed_bsd_name hdr remaining buf bytes p
feed_in (skipping_data remaining pad) bytes p = feed_skip_data remaining pad bytes p

-- `ArchiveParser::feed`
unfoldable pub feed : Bytes → ArParser → Outcome
feed [] p = fed 0 need_data p
feed (b ∷ bs) p = feed_in p.state (b ∷ bs) p

unfoldable pub ending_in : ArState → ArParser → Option Ending
ending_in reading_magic p = some Ending.in_magic
ending_in reading_header p = if is_empty p.header_buf then none else some Ending.in_header
ending_in (reading_name_table remaining pad buf) p = some Ending.in_name_table
ending_in (reading_bsd_name hdr remaining buf) p = some Ending.in_name
ending_in (skipping_data remaining pad) p =
    if leb remaining pad then none else some Ending.in_member

-- `ArchiveParser::end_of_stream`
unfoldable pub end_of_stream : ArParser → Result (Unit {0})
end_of_stream p = elim (ending_in p.state p) [
  | none ↦ ok tt
  | some problem ↦ err (Error.truncated_archive problem)
]
