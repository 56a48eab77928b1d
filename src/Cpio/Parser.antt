-- ===== src/Cpio/Parser.antt =====
-- src/cpio/parser.rs: the incremental cpio parser. A method on `&mut self` takes the parser and
-- returns the outcome with the parser as the call leaves it, on errors too.
pub mod Invariant
pub mod Members
pub mod Headers
pub mod Data
pub mod Alignment
use iluvatar.Common.{
  ℕ, ◌+◌, ◌-◌, ◌%◌, ◌^◌, min, Bool, true, false, not, ◌&&◌, ◌||◌, List, [], ◌∷◌, ◌++◌, Option, none,
  some, length, is_empty, take, drop, ltb, leb, ◌==◌, bytes_eq, Bytes, if◌then◌else◌,
}
use iluvatar.Common.Sizes.{add_u64, sub_u64}
use iluvatar.Common.Search.{trim_end}
use iluvatar.Common.Utf8.{from_utf8_lossy}
use iluvatar.Errors.{Error, CpioProblem, Ending, Result, ok, err}
use iluvatar.Archive.{
  ArchiveEntry, EntryType, Event, entry, need_data, end_of_archive, Fed, fed, failed,
}
use iluvatar.Archive.Detect.{cpio_magic}
use iluvatar.Cpio.Header.{
  CpioHeader, newc_header_size, odc_header_size, parse_newc_header, parse_odc_header,
  entry_type_from_mode, align4,
}
use iluvatar.Cpio.Links.{
  InodeKey, inode_key, resolve, push_deferred, deferred_at, without, flatten, as_link, as_links,
}
use iluvatar.Cpio.State.{
  CpioSubFormat, newc, newc_crc, odc, CpioState, reading_header, reading_filename,
  skipping_name_pad, reading_link_target, skipping_data, skipping_data_pad, at_end, CpioParser,
  Outcome,
}
use iluvatar.Cpio.Policy.{is_sym_link, apply_hardlink_policy}
use iluvatar.Cpio.Format.{
  header_size, uses_alignment, padding, sub_format_of, magic_ok, parse_header,
}

abbrev pub max_name_size : ℕ
max_name_size = 2 ^ 16

-- `TRAILER_NAME`
abbrev pub trailer_name : Bytes
trailer_name = b'T' ∷ b'R' ∷ b'A' ∷ b'I' ∷ b'L' ∷ b'E' ∷ b'R' ∷ b'!' ∷ b'!' ∷ b'!' ∷ []

abbrev refuse : CpioProblem → CpioParser → Outcome
refuse problem p = failed (Error.invalid_cpio_header problem) p

-- `?` on the parsed header.
unfoldable pub with_header : Result CpioHeader → ℕ → CpioParser → Outcome
with_header (err x) consumed p = failed x p
with_header (ok hdr) consumed p =
    if ltb max_name_size hdr.namesize
    then refuse CpioProblem.implausible_namesize p
    else fed consumed need_data
        (record p { header_buf = []; state = reading_filename hdr hdr.namesize [] })

unfoldable pub process_header : ℕ → CpioParser → Outcome
process_header consumed p =
    if magic_ok p.sub_format (take 6 p.header_buf)
    then with_header (parse_header p.sub_format p.header_buf) consumed p
    else refuse CpioProblem.bad_magic p

-- `header_buf.extend_from_slice(xs)`, with the position moved.
unfoldable pub extend : Bytes → CpioParser → CpioParser
extend xs p = record p {
  header_buf = p.header_buf ++ xs;
  stream_pos = add_u64 p.stream_pos (length xs);
}

-- `feed_header` with the format known, behind the first `consumed` bytes of the chunk.
unfoldable pub fill_header : ℕ → Bytes → CpioParser → Outcome
fill_header consumed bytes p =
    let available = min (length bytes - consumed) (header_size p - length p.header_buf) in
    let q = extend (take available (drop consumed bytes)) p in
    if ltb (length q.header_buf) (header_size p)
    then fed (consumed + available) need_data q
    else process_header (consumed + available) q

unfoldable pub with_format : Option CpioSubFormat → ℕ → Bytes → CpioParser → Outcome
with_format none consumed bytes p = refuse CpioProblem.unknown_magic p
with_format (some f) consumed bytes p =
    fill_header consumed bytes (record p { sub_format = some f })

-- `feed_header` with the format unknown: six bytes of magic come first.
unfoldable pub detect_header : Bytes → CpioParser → Outcome
detect_header bytes p =
    let taken = min (length bytes) (6 - length p.header_buf) in
    let q = extend (take taken bytes) p in
    if ltb (length q.header_buf) 6
    then fed taken need_data q
    else with_format (sub_format_of (take 6 q.header_buf)) taken bytes q

unfoldable pub header_in : Option CpioSubFormat → Bytes → CpioParser → Outcome
header_in none bytes p = detect_header bytes p
header_in (some f) bytes p = fill_header 0 bytes p

unfoldable pub feed_header : Bytes → CpioParser → Outcome
feed_header [] p = fed 0 need_data p
feed_header (b ∷ bs) p = header_in p.sub_format (b ∷ bs) p

-- The `match` on what the policy returns.
unfoldable pub report : ℕ → Option ArchiveEntry × CpioParser → Outcome
report n (some e, p) = fed n (entry e) p
report n (none, p) = fed n need_data p

-- `transition_to_data`, and the same steps at the end of `feed_skip_name_pad`.
unfoldable pub transition_to_data : ℕ → ArchiveEntry → InodeKey → ℕ → CpioParser → Outcome
transition_to_data n e inode nlink p =
    let e' = record e { data_offset = p.stream_pos } in
    if is_sym_link e.entry_type && ltb 0 e.size
    then (if ltb max_name_size e.size
        then refuse CpioProblem.implausible_target p
        else fed n need_data (record p { state = reading_link_target e' e.size [] }))
    else if ltb 0 e.size
    then report n (
        apply_hardlink_policy e' inode nlink
          (record p { state = skipping_data (add_u64 e.size (padding p e.size)) }))
    else report n (apply_hardlink_policy e' inode nlink (record p { state = reading_header }))

-- `pending.pop_front()`, at the trailer.
unfoldable pub pop_or_end : ℕ → List ArchiveEntry → CpioParser → Outcome
pop_or_end n [] p = fed n end_of_archive p
pop_or_end n (e ∷ es) p = fed n (entry e) (record p { pending = es })

-- The trailer: what is still deferred is queued.
unfoldable pub finish_archive : ℕ → CpioParser → Outcome
finish_archive n p =
    let queue = p.pending ++ flatten p.deferred_links in
    pop_or_end n queue (record p { deferred_links = []; pending = queue; state = at_end })

unfoldable pub member_entry : Bytes → CpioHeader → ℕ → ArchiveEntry
member_entry path hdr data_offset = record {
  path = path;
  size = hdr.filesize;
  entry_type = entry_type_from_mode hdr.mode;
  mode = hdr.mode % 4096;
  uid = hdr.uid;
  gid = hdr.gid;
  mtime = hdr.mtime;
  link_target = none;
  data_offset = data_offset;
}

-- A complete filename that is not the trailer's.
unfoldable pub start_member : ℕ → Bytes → CpioHeader → CpioParser → Outcome
start_member n path hdr p =
    let pad = padding p (header_size p + hdr.namesize) in
    let e = member_entry path hdr (add_u64 p.stream_pos pad) in
    if ltb 0 pad
    then fed n need_data (record p { state = skipping_name_pad e pad (inode_key hdr) hdr.nlink })
    else transition_to_data n e (inode_key hdr) hdr.nlink p

unfoldable pub finish_filename : ℕ → Bytes → CpioHeader → CpioParser → Outcome
finish_filename n filename hdr p =
    if bytes_eq filename trailer_name then finish_archive n p else start_member n filename hdr p

unfoldable pub feed_filename : CpioHeader → (remaining : ℕ) → Bytes → Bytes → CpioParser → Outcome
feed_filename hdr remaining buf [] p = fed 0 need_data p
feed_filename hdr remaining buf (b ∷ bs) p =
    let n = min (length (b ∷ bs)) remaining in
    let kept = buf ++ take n (b ∷ bs) in
    let q = record p {
      stream_pos = add_u64 p.stream_pos n;
      state = reading_filename hdr (remaining - n) kept;
    } in
    if ltb 0 (remaining - n)
    then fed n need_data q
    else finish_filename n (trim_end 0 (from_utf8_lossy kept)) hdr q

unfoldable pub feed_skip_name_pad :
    ArchiveEntry → (remaining : ℕ) → InodeKey → (nlink : ℕ) → Bytes → CpioParser → Outcome
feed_skip_name_pad e remaining inode nlink [] p = fed 0 need_data p
feed_skip_name_pad e remaining inode nlink (b ∷ bs) p =
    let n = min (length (b ∷ bs)) remaining in
    let q = record p { stream_pos = add_u64 p.stream_pos n } in
    if ltb 0 (remaining - n)
    then fed n need_data (record q { state = skipping_name_pad e (remaining - n) inode nlink })
    else transition_to_data n e inode nlink (record q { state = at_end })

-- A complete link target; the member's data is not the data of a file.
unfoldable pub finish_link_target : ℕ → Bytes → ArchiveEntry → CpioParser → Outcome
finish_link_target n target e p =
    let pad = padding p (sub_u64 p.stream_pos e.data_offset) in
    fed n (entry (record e { link_target = some target; size = 0 }))
      (record p { state = if ltb 0 pad then skipping_data_pad pad else reading_header })

unfoldable pub feed_link_target :
    ArchiveEntry → (remaining : ℕ) → Bytes → Bytes → CpioParser → Outcome
feed_link_target e remaining buf [] p = fed 0 need_data p
feed_link_target e remaining buf (b ∷ bs) p =
    let n = min (length (b ∷ bs)) remaining in
    let kept = buf ++ take n (b ∷ bs) in
    let q = record p { stream_pos = add_u64 p.stream_pos n } in
    if ltb 0 (remaining - n)
    then fed n need_data (record q { state = reading_link_target e (remaining - n) kept })
    else finish_link_target n (from_utf8_lossy kept) e q

-- `feed_skip_data` and `feed_skip_data_pad`, with the state that has bytes left.
unfoldable pub feed_skip : (ℕ → CpioState) → (remaining : ℕ) → Bytes → CpioParser → Outcome
feed_skip more remaining [] p = fed 0 need_data p
feed_skip more remaining (b ∷ bs) p =
    let n = min (length (b ∷ bs)) remaining in
    fed n need_data (record p {
      stream_pos = add_u64 p.stream_pos n;
      state = if remaining - n == 0 then reading_header else more (remaining - n);
    })

unfoldable pub feed_in : CpioState → Bytes → CpioParser → Outcome
feed_in reading_header bytes p = feed_header bytes p
feed_in (reading_filename hdr remaining buf) bytes p = feed_filename hdr remaining buf bytes p
feed_in (skipping_name_pad e remaining inode nlink) bytes p =
    feed_skip_name_pad e remaining inode nlink bytes p
feed_in (reading_link_target e remaining buf) bytes p = feed_link_target e remaining buf bytes p
feed_in (skipping_data remaining) bytes p = feed_skip skipping_data remaining bytes p
feed_in (skipping_data_pad remaining) bytes p = feed_skip skipping_data_pad remaining bytes p
feed_in at_end bytes p = fed 0 end_of_archive p

-- Queued entries come first.
unfoldable pub feed_queue : List ArchiveEntry → Bytes → CpioParser → Outcome
feed_queue (e ∷ es) bytes p = fed 0 (entry e) (record p { pending = es })
feed_queue [] bytes p = feed_in p.state bytes p

-- `ArchiveParser::feed`
unfoldable pub feed : Bytes → CpioParser → Outcome
feed bytes p = feed_queue p.pending bytes p

unfoldable pub ending_in : CpioState → CpioParser → Option Ending
ending_in at_end p = none
ending_in reading_header p =
    if is_empty p.header_buf then some Ending.before_trailer else some Ending.in_header
ending_in (reading_filename hdr remaining buf) p = some Ending.in_header
ending_in (skipping_name_pad e remaining inode nlink) p = some Ending.in_member
ending_in (reading_link_target e remaining buf) p = some Ending.in_member
ending_in (skipping_data remaining) p = some Ending.in_member
ending_in (skipping_data_pad remaining) p = some Ending.in_member

-- `ArchiveParser::end_of_stream`
unfoldable pub end_of_stream : CpioParser → Result (Unit {0})
end_of_stream p = elim (ending_in p.state p) [
  | none ↦ ok tt
  | some problem ↦ err (Error.truncated_archive problem)
]
