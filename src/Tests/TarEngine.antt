-- ===== src/Tests/TarEngine.antt =====
-- The engine's loop over the tar parser on concrete bytes.
use iluvatar.Common.{
  ◌+◌, ◌≡◌, ◌≢◌, refl, arith, Bytes, [], ◌∷◌, ◌++◌, length, replicate, false, drop, write_at, suc,
  bytes_eq,
}
use iluvatar.Common.Numerals.{from_str_radix}
use iluvatar.Common.Search.{position_or_len}
use iluvatar.Common.Utf8.{is_utf8, from_utf8_lossy}
use iluvatar.Errors.{ok}
use iluvatar.Archive.{tar}
use iluvatar.Index.Builder
use iluvatar.Index.Builder.{IndexBuilder}
use iluvatar.Tar.Entry.{TarEntry, TarEntryType, from_byte, is_sparse, is_metadata}
use iluvatar.Tar.Header.{
  block_size, parse_header, parse_octal, padded_size, blocks_for_size, validate_checksum,
  octal_text, digits_of, unsigned_sum, signed_sum, read_fields, checked_entry, full_path,
  parse_string, join_path, ustar_prefix, owner_name, non_empty, is_zero_block,
}
use iluvatar.Tar.State.{new, reading_header}
use iluvatar.Tar.Parser.{fill}
use iluvatar.Tar.Parser.Chunks.{drained}
use iluvatar.Tar.Parser.Accounting.{new-IsValid}
use iluvatar.Engine.{feed_to_parser, drained, starved}
use iluvatar.Engine.Fuel.{feed_to_parser-ne-starved}
use iluvatar.Engine.Tar.{tar_parser, tar_progresses}
use iluvatar.Engine.Tar.Stalls.{feed_to_parser_stalls}
use iluvatar.Tests.TarRuns.{codes, header, file_a}

abbrev builder : IndexBuilder (Unit {0})
builder = Builder.new tt tar 2048

feed_to_parser-ne-starved_example : feed_to_parser tar_parser 1536 header new builder ≢ starved
feed_to_parser-ne-starved_example =
    feed_to_parser-ne-starved tar_parser tar_progresses 1536 header new builder new-IsValid
      (omega arith)

-- The block of a global PAX header of size 0.
abbrev global_header : Bytes
global_header =
    codes "a"
    ++ replicate 99 0
    ++ (codes "0000644" ++ (0 ∷ []))
    ++ (codes "0000000" ++ (0 ∷ []))
    ++ (codes "0000000" ++ (0 ∷ []))
    ++ (codes "00000000000" ++ (0 ∷ []))
    ++ (codes "00000000000" ++ (0 ∷ []))
    ++ (codes "004746" ++ (0 ∷ b' ' ∷ []))
    ++ codes "g"
    ++ replicate 355 0

abbrev empty_global : TarEntry
empty_global = record file_a { size = 0; entry_type = TarEntryType.pax_global }

global_length : length (b'a' ∷ drop 1 global_header) + 0 ≡ block_size
global_length = refl

global_filled : is_zero_block (fill (b'a' ∷ drop 1 global_header) new).header_buf ≡ false
unfolding is_zero_block fill write_at
global_filled = refl

global_parsed :
    parse_header
      (fill (b'a' ∷ drop 1 global_header) new).header_buf
      (fill (b'a' ∷ drop 1 global_header) new).stream_pos
    ≡ ok empty_global
unfolding fill write_at parse_header validate_checksum parse_octal octal_text digits_of unsigned_sum
    signed_sum read_fields checked_entry from_byte is_sparse full_path parse_string join_path
    ustar_prefix owner_name non_empty is_metadata padded_size blocks_for_size from_utf8_lossy
    is_utf8 from_str_radix bytes_eq position_or_len
global_parsed = refl

-- The header of `a`, behind a global header of size 0, is dropped.
feed_to_parser_stalls_example :
    feed_to_parser tar_parser (suc (suc 3072)) ((b'a' ∷ drop 1 global_header) ++ header) new builder
    ≡ drained
        (record (fill (b'a' ∷ drop 1 global_header) new) { header_pos = 0; state = reading_header })
        builder
        false
feed_to_parser_stalls_example =
    feed_to_parser_stalls 3072 b'a' (drop 1 global_header) b'a' (drop 1 header) new empty_global
      builder refl global_length global_filled global_parsed refl refl
