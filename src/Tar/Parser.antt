-- ===== src/Tar/Parser.antt =====
-- src/tar/parser.rs: the incremental tar parser. A method on `&mut self` takes the parser and
-- returns the outcome with the parser as the call leaves it, on errors too.
pub mod Needed
pub mod Blocks
pub mod Kept
pub mod Metadata
pub mod Partial
pub mod Split
pub mod Chunks
pub mod Invariant
pub mod Accounting
pub mod Streams
pub mod Emission
use iluvatar.Common.{
  ℕ, zero, suc, ◌+◌, ◌-◌, ◌^◌, min, Bool, true, false, not, ◌&&◌, ◌||◌, List, [], ◌∷◌, ◌++◌, Option,
  none, some, length, is_empty, take, replicate, write_at, ltb, leb, ◌==◌, Bytes, if◌then◌else◌,
}
use iluvatar.Common.Sizes.{add_u64}
use iluvatar.Common.Search.{trim_end}
use iluvatar.Common.Utf8.{from_utf8_lossy}
use iluvatar.Errors.{Error, TarProblem, Ending, Result, ok, err}
use iluvatar.Archive.{
  Event, entry, need_data, end_of_archive, Fed, fed, failed, panicked, ArchiveEntry,
}
use iluvatar.Tar.State.{
  ParserState, reading_header, skipping_data, reading_pax_data, reading_gnu_long, one_zero_block,
  at_end, TarParser, Outcome,
}
use iluvatar.Tar.Pax.{parse_pax_data, Walk, walked, crashed, stuck}
use iluvatar.Tar.Entry.{TarEntry, TarEntryType, is_metadata, to_archive_entry}
use iluvatar.Tar.Header.{block_size, parse_header, padded_size, is_zero_block}

abbrev pub max_metadata_size : ℕ
max_metadata_size = 2 ^ 20

-- `header_buf[header_pos..].copy_from_slice(xs)`, with both positions moved.
unfoldable pub fill : Bytes → TarParser → TarParser
fill xs p = record p {
  header_buf = write_at p.header_buf p.header_pos xs;
  header_pos = p.header_pos + length xs;
  stream_pos = add_u64 p.stream_pos (length xs);
}

-- `Option::take`: the value moves into the entry's field, where there is one.
unfoldable pub take_or {ℓ} : {A : Type ℓ} → Option A → A → A
take_or none old = old
take_or (some v) old = v

unfoldable pub take_some : Option Bytes → Option Bytes → Option Bytes
take_some none old = old
take_some (some v) old = some v

-- Pending PAX and GNU attributes, with GNU last.
unfoldable pub apply_pending : TarParser → TarEntry → TarEntry
apply_pending p e = record e {
  path = take_or p.gnu_long_name (take_or p.pax_path e.path);
  link_target = take_some p.gnu_long_link (take_some p.pax_linkpath e.link_target);
  size = take_or p.pax_size e.size;
}

unfoldable pub skip_or_header : ℕ → ParserState
skip_or_header padded = if ltb 0 padded then skipping_data padded else reading_header

-- The end of `process_header`, for an entry that is reported.
unfoldable pub emit : ℕ → TarEntry → TarParser → Outcome
emit available e p =
    let full = apply_pending p e in
    fed available (entry full) (record p {
      pax_path = none;
      pax_linkpath = none;
      pax_size = none;
      gnu_long_name = none;
      gnu_long_link = none;
      state = skip_or_header (padded_size full.size);
    })

-- The `match` on the entry's type.
unfoldable pub dispatch : TarEntryType → ℕ → TarEntry → TarParser → Outcome
dispatch TarEntryType.pax_extended available e p =
    fed available need_data (record p { state = reading_pax_data (padded_size e.size) e.size [] })
dispatch TarEntryType.pax_global available e p =
    fed available need_data (record p { state = skipping_data (padded_size e.size) })
dispatch TarEntryType.gnu_long_name available e p =
    fed available need_data
      (record p { state = reading_gnu_long (padded_size e.size) e.size [] false })
dispatch TarEntryType.gnu_long_link available e p =
    fed available need_data
      (record p { state = reading_gnu_long (padded_size e.size) e.size [] true })
dispatch _ available e p = emit available e p

unfoldable pub handle_entry : ℕ → TarEntry → TarParser → Outcome
handle_entry available e p =
    if is_metadata e.entry_type && ltb max_metadata_size e.size
    then failed (Error.invalid_tar_header TarProblem.implausible_size) p
    else dispatch e.entry_type available e p

-- `?` on the parsed header.
unfoldable pub with_parsed : Result TarEntry → ℕ → TarParser → Outcome
with_parsed (ok e) available p = handle_entry available e p
with_parsed (err x) available p = failed x p

unfoldable pub process_header : ℕ → TarParser → Outcome
process_header available p = with_parsed (parse_header p.header_buf p.stream_pos) available p

-- What `feed_header` does once it has filled the buffer.
unfoldable pub finish_header : ℕ → TarParser → Outcome
finish_header available p =
    if ltb p.header_pos block_size
    then fed available need_data p
    else if is_zero_block p.header_buf
    then fed available need_data (record p { header_pos = 0; state = one_zero_block })
    else process_header available (record p { header_pos = 0 })

unfoldable pub feed_header : Bytes → TarParser → Outcome
feed_header [] p = fed 0 need_data p
feed_header (b ∷ bs) p =
    let available = min (length (b ∷ bs)) (block_size - p.header_pos) in
    finish_header available (fill (take available (b ∷ bs)) p)

unfoldable pub feed_skip : ℕ → Bytes → TarParser → Outcome
feed_skip remaining [] p = fed 0 need_data p
feed_skip remaining (b ∷ bs) p =
    let skip = min (length (b ∷ bs)) remaining in
    fed skip need_data (record p {
      stream_pos = add_u64 p.stream_pos skip;
      state = if remaining - skip == 0 then reading_header else skipping_data (remaining - skip);
    })

-- `buf` with the bytes of the chunk that are no padding.
unfoldable pub accumulate : ℕ → Bytes → ℕ → Bytes → Bytes
accumulate size buf available bytes = buf ++ take (min available (size - length buf)) bytes

-- The parser's fields as `parse_pax_data` leaves them, or its panic.
unfoldable pub after_walk : ℕ → Walk → Outcome
after_walk available (walked p) = fed available need_data (record p { state = reading_header })
after_walk available crashed = panicked
after_walk available stuck = panicked

unfoldable pub finish_pax : ℕ → ℕ → ℕ → Bytes → TarParser → Outcome
finish_pax available remaining size buf p =
    if remaining == 0
    then after_walk available (parse_pax_data buf p)
    else fed available need_data (record p { state = reading_pax_data remaining size buf })

unfoldable pub feed_pax : (remaining size : ℕ) → Bytes → Bytes → TarParser → Outcome
feed_pax remaining size buf [] p = fed 0 need_data p
feed_pax remaining size buf (b ∷ bs) p =
    let available = min (length (b ∷ bs)) remaining in
    finish_pax available (remaining - available) size (accumulate size buf available (b ∷ bs))
      (record p { stream_pos = add_u64 p.stream_pos available })

-- A long name or link, with its NULs trimmed.
unfoldable pub store_long : Bool → Bytes → TarParser → TarParser
store_long true name p = record p { gnu_long_link = some name; state = reading_header }
store_long false name p = record p { gnu_long_name = some name; state = reading_header }

unfoldable pub finish_gnu_long : ℕ → ℕ → ℕ → Bytes → Bool → TarParser → Outcome
finish_gnu_long available remaining size buf is_link p =
    if remaining == 0
    then fed available need_data (store_long is_link (trim_end 0 (from_utf8_lossy buf)) p)
    else fed available need_data (record p { state = reading_gnu_long remaining size buf is_link })

unfoldable pub feed_gnu_long : (remaining size : ℕ) → Bytes → Bool → Bytes → TarParser → Outcome
feed_gnu_long remaining size buf is_link [] p = fed 0 need_data p
feed_gnu_long remaining size buf is_link (b ∷ bs) p =
    let available = min (length (b ∷ bs)) remaining in
    finish_gnu_long available (remaining - available) size (accumulate size buf available (b ∷ bs))
      is_link (record p { stream_pos = add_u64 p.stream_pos available })

unfoldable pub finish_second_zero : ℕ → TarParser → Outcome
finish_second_zero available p =
    if ltb p.header_pos block_size
    then fed available need_data p
    else if is_zero_block p.header_buf
    then fed available end_of_archive (record p { header_pos = 0; state = at_end })
    else process_header available (record p { header_pos = 0 })

unfoldable pub feed_second_zero : Bytes → TarParser → Outcome
feed_second_zero [] p = fed 0 need_data p
feed_second_zero (b ∷ bs) p =
    let available = min (length (b ∷ bs)) (block_size - p.header_pos) in
    finish_second_zero available (fill (take available (b ∷ bs)) p)

unfoldable pub feed_in : ParserState → Bytes → TarParser → Outcome
feed_in reading_header bytes p = feed_header bytes p
feed_in (skipping_data remaining) bytes p = feed_skip remaining bytes p
feed_in (reading_pax_data remaining size buf) bytes p = feed_pax remaining size buf bytes p
feed_in (reading_gnu_long remaining size buf is_link) bytes p =
    feed_gnu_long remaining size buf is_link bytes p
feed_in one_zero_block bytes p = feed_second_zero bytes p
feed_in at_end bytes p = fed 0 end_of_archive p

-- `TarParser::feed_tar`
unfoldable pub feed_tar : Bytes → TarParser → Outcome
feed_tar bytes p = feed_in p.state bytes p

unfoldable pub convert_event : Event TarEntry → Event ArchiveEntry
convert_event (entry e) = entry (to_archive_entry e)
convert_event need_data = need_data
convert_event end_of_archive = end_of_archive

-- `?` and the conversion of the event.
unfoldable pub convert : Outcome → Fed TarParser ArchiveEntry
convert (fed n ev q) = fed n (convert_event ev) q
convert (failed x q) = failed x q
convert panicked = panicked

-- `ArchiveParser::feed`
unfoldable pub feed : Bytes → TarParser → Fed TarParser ArchiveEntry
feed bytes p = convert (feed_tar bytes p)

unfoldable pub is_some {ℓ} : {A : Type ℓ} → Option A → Bool
is_some none = false
is_some (some v) = true

unfoldable pub has_pending : TarParser → Bool
has_pending p =
    is_some p.pax_path
    || is_some p.pax_linkpath
    || is_some p.pax_size
    || is_some p.gnu_long_name
    || is_some p.gnu_long_link

unfoldable pub ending_in : ParserState → TarParser → Option Ending
ending_in reading_header p =
    if p.header_pos == 0
    then (if has_pending p then some Ending.before_entry else none)
    else some Ending.in_header
ending_in one_zero_block p = none
ending_in at_end p = none
ending_in (skipping_data remaining) p = some Ending.in_member
ending_in (reading_pax_data _ _ _) p = some Ending.in_extended_header
ending_in (reading_gnu_long _ _ _ _) p = some Ending.in_extended_header

-- `ArchiveParser::end_of_stream`
unfoldable pub end_of_stream : TarParser → Result (Unit {0})
end_of_stream p = elim (ending_in p.state p) [
  | none ↦ ok tt
  | some problem ↦ err (Error.truncated_archive problem)
]
