-- ===== src/Tests/ArRuns.antt =====
-- The ar parser, and the engine before its format is known, on concrete bytes.
use Prim.Native.Char.{code}
use Prim.Native.String.{String}
use iluvatar.Common.{◌≡◌, refl, arith, Bytes, [], ◌∷◌, ◌++◌, replicate, bytes_eq, none, some}
use iluvatar.Common.{false}
use iluvatar.Archive.{tar, ar}
use iluvatar.Archive.Detect.{detect_archive_format, is_ar, is_ascii_cpio, is_binary_cpio, has_ustar}
use iluvatar.Index.Builder
use iluvatar.Index.Builder.{set_archive_format}
use iluvatar.Engine.Indexing.{IndexingEngine, create_archive_parser, feed_engine, drain_output}
use iluvatar.Engine.Indexing.Replay.{Undetected, drain_output-replays}
use iluvatar.Errors.{ok}
use iluvatar.Archive.{EntryType, ArchiveEntry, entry, need_data, fed}
use iluvatar.Ar.Header.{ArHeader, parse_header, read_fields, parse_field, field_value, raw_name}
use iluvatar.Common.Numerals.{from_str_radix}
use iluvatar.Common.Search.{rposition_end, trim_end, strip_prefix, starts_with, strip_last}
use iluvatar.Common.Utf8.{is_utf8, from_utf8_lossy}
use iluvatar.Ar.Parser.{
  reading_bsd_name, feed_bsd_name, inline_member, unpadded_name, ArParser, new, lookup_long_name,
  reading_header, skipping_data, feed, feed_in, feed_header, fill_header_buf, finish_header,
  with_header, classify, classify_plain, decoded_name, with_member, dispatch, member_entry, skip,
}
use iluvatar.Ar.Parser.Alignment.{ar_feed-Advanced}
use iluvatar.Ar.Parser.Names.{lookup_long_name-gnu}
use iluvatar.Ar.Parser.Members.{IsAligned, Advanced}

abbrev codes : String → Bytes
codes String.[] = []
codes (String.◌∷◌ c s) = code c ∷ codes s

-- The header of a member `a.o` of three bytes.
abbrev header : Bytes
header = codes "a.o/            1700000000  1000  1000  100644  3         `\n"

-- A parser behind the global header.
abbrev at_header : ArParser
at_header = record new { state = reading_header; stream_pos = 8 }

abbrev behind_header : ArParser
behind_header = record new { state = skipping_data 4 1; stream_pos = 68 }

abbrev file_a : ArchiveEntry
file_a = record {
  path = codes "a.o";
  size = 3;
  entry_type = EntryType.regular;
  mode = 0o644;
  uid = 1000;
  gid = 1000;
  mtime = 1700000000;
  link_target = none;
  data_offset = 68;
}

at_header-IsAligned : IsAligned at_header
at_header-IsAligned = record { fits = omega arith; even = (omega arith, refl) }

header_read : feed header at_header ≡ fed 60 (entry file_a) behind_header
unfolding feed feed_in feed_header fill_header_buf finish_header with_header parse_header
    read_fields parse_field field_value raw_name from_str_radix rposition_end trim_end is_utf8
    bytes_eq classify strip_prefix starts_with strip_last classify_plain decoded_name with_member
    dispatch member_entry skip from_utf8_lossy
header_read = refl

ar_feed-Advanced_example : Advanced at_header behind_header 60 60
ar_feed-Advanced_example =
    ar_feed-Advanced header at_header behind_header 60 (entry file_a) at_header-IsAligned
      header_read

-- A parser that holds a table of two names.
abbrev with_table : ArParser
with_table = record at_header { name_table = some (codes "first_long_name.o/\nlib/b.o/\n") }

lookup_long_name-gnu_example :
    lookup_long_name 19 with_table ≡ ok (from_utf8_lossy (codes "lib/b.o"))
lookup_long_name-gnu_example =
    lookup_long_name-gnu (codes "first_long_name.o/\n") (codes "lib/b.o") [] with_table refl
      (refl, (refl, (refl, (refl, (refl, (refl, (refl, tt))))))) (omega arith)

-- An engine that has seen nothing, and the global header in two chunks.
abbrev engine : IndexingEngine (Unit {0})
engine = record {
  archive_parser = none;
  index_builder = Builder.new tt tar 2048;
  detect_buf = [];
  done = false;
}

magic-Undetected : Undetected [] (codes "!<ar" ∷ [])
unfolding detect_archive_format is_ar is_ascii_cpio is_binary_cpio has_ustar bytes_eq
magic-Undetected = (refl, tt)

magic_detected : detect_archive_format (codes "!<arch>\n") ≡ some ar
unfolding detect_archive_format is_ar bytes_eq
magic_detected = refl

drain_output-replays_example :
    drain_output 24 (codes "!<ar" ∷ codes "ch>\n" ∷ []) engine
    ≡ feed_engine 24
        (codes "!<arch>\n")
        (create_archive_parser ar)
        (record engine { index_builder = set_archive_format ar engine.index_builder })
drain_output-replays_example =
    drain_output-replays 24 (codes "!<ar" ∷ []) (codes "ch>\n") ar engine refl magic-Undetected
      magic_detected

-- The header of a BSD symbol table of 4 bytes, behind an inline name of 20.
abbrev table_header : ArHeader
table_header = record { name = codes "#1/20"; mtime = 0; uid = 0; gid = 0; mode = 0o644; size = 24 }

-- The inline name of a symbol table makes the member skipped.
symbol_table_skipped :
    feed
      (codes "__.SYMDEF SORTED" ++ replicate 4 0)
      (record at_header { state = reading_bsd_name table_header 20 [] })
    ≡ fed 20 need_data (record at_header { state = skipping_data 4 0; stream_pos = 28 })
unfolding feed feed_in feed_bsd_name inline_member unpadded_name rposition_end starts_with skip
symbol_table_skipped = refl
