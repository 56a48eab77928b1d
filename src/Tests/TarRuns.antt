-- ===== src/Tests/TarRuns.antt =====
-- The tar parser on concrete bytes.
use Prim.Native.Char.{code}
use Prim.Native.String.{String}
use iluvatar.Common.{
  ◌+◌, ◌≤◌, ◌<◌, ◌≡◌, ◌≢◌, refl, arith, Bytes, [], ◌∷◌, ◌++◌, length, replicate, none, some, take,
  drop, write_at, List, suc, bytes_eq, All, ◌==◌,
}
use iluvatar.Common.Numerals.{from_str_radix}
use iluvatar.Common.Search.{strip_last, position, position_or_len}
use iluvatar.Common.Utf8.{is_utf8, from_utf8_lossy}
use iluvatar.Archive.{entry, need_data, fed, and_then}
use iluvatar.Tar.Entry.{TarEntry, TarEntryType, from_byte, is_sparse, is_metadata}
use iluvatar.Tar.Header.{
  parse_header, parse_octal, padded_size, blocks_for_size, validate_checksum, octal_text, digits_of,
  unsigned_sum, signed_sum, read_fields, checked_entry, full_path, parse_string, join_path,
  ustar_prefix, owner_name, non_empty, is_zero_block,
}
use iluvatar.Tar.State.{TarParser, new, skipping_data}
use iluvatar.Tar.Pax.{
  parse_pax_data, record_len, pax_round, with_space, with_len, apply_record, split_record,
  set_attribute, set_size, pax_loop, walked, crashed, stuck,
}
use iluvatar.Tar.Pax.Walks.{PaxRecord, IsRecord, encode_all, apply_all, parse_pax_data-encode_all}
use iluvatar.Tar.Pax.Ends.{parse_pax_data-ne-stuck, pax_loop_panics}
use iluvatar.Tar.Parser.{
  feed_tar, fill, feed_in, feed_header, finish_header, process_header, with_parsed, handle_entry,
  dispatch, emit, apply_pending, take_or, take_some, skip_or_header,
}
use iluvatar.Tar.Parser.Needed.{needed, needed_in}
use iluvatar.Tar.Parser.Split.{feed_tar-append, feed_tar-append_past, feed_tar_partial}
use iluvatar.Tar.Parser.Invariant.{Advanced}
use iluvatar.Tar.Parser.Chunks.{
  Run, drained, calls, After, reports, asks, Finish, any_size, Agree, Run-Agree,
}
use iluvatar.Tar.Parser.Streams.{Runs, feed_tar-Runs}
use iluvatar.Common.{subst, sym}
use iluvatar.Tar.Parser.Accounting.{feed_tar-Advanced, new-IsValid}
use iluvatar.Tar.Parser.Emission.{Emitted, feed_tar-Emitted}
use iluvatar.Engine.{drained}

abbrev pub codes : String → Bytes
codes String.[] = []
codes (String.◌∷◌ c s) = code c ∷ codes s

-- The header block of a file `a` of three bytes.
abbrev pub header : Bytes
header =
    codes "a"
    ++ replicate 99 0
    ++ (codes "0000644" ++ (0 ∷ []))
    ++ (codes "0000000" ++ (0 ∷ []))
    ++ (codes "0000000" ++ (0 ∷ []))
    ++ (codes "00000000003" ++ (0 ∷ []))
    ++ (codes "00000000000" ++ (0 ∷ []))
    ++ (codes "004662" ++ (0 ∷ b' ' ∷ []))
    ++ codes "0"
    ++ replicate 355 0

abbrev pub file_a : TarEntry
file_a = record {
  path = codes "a";
  size = 3;
  entry_type = TarEntryType.regular;
  mode = 0o644;
  uid = 0;
  gid = 0;
  mtime = 0;
  uname = none;
  gname = none;
  link_target = none;
  data_offset = 512;
}

abbrev after_header : TarParser
after_header = record new { header_buf = header; stream_pos = 512; state = skipping_data 512 }

length-header : length header ≡ 512
length-header = refl

header_read : feed_tar header new ≡ fed 512 (entry file_a) after_header
unfolding feed_tar feed_in feed_header fill write_at finish_header is_zero_block process_header
    with_parsed parse_header validate_checksum parse_octal octal_text digits_of unsigned_sum
    signed_sum read_fields checked_entry from_byte is_sparse full_path parse_string join_path
    ustar_prefix owner_name non_empty handle_entry is_metadata dispatch emit apply_pending take_or
    take_some skip_or_header padded_size blocks_for_size from_utf8_lossy is_utf8 from_str_radix
    bytes_eq position_or_len
header_read = refl

-- The header, cut behind its first 100 bytes.
abbrev front : Bytes
front = codes "a" ++ replicate 99 0

short_front : length front < needed new
unfolding needed_in
short_front = omega arith

feed_tar-append_example :
    feed_tar (front ++ drop 100 header) new
    ≡ and_then (feed_tar front new) (feed_tar (drop 100 header))
feed_tar-append_example = feed_tar-append front (drop 100 header) new short_front

long_header : needed new ≤ length (b'a' ∷ drop 1 header)
unfolding needed_in
long_header = omega arith

feed_tar-append_past_example :
    feed_tar ((b'a' ∷ drop 1 header) ++ codes "abc") new ≡ feed_tar (b'a' ∷ drop 1 header) new
feed_tar-append_past_example =
    feed_tar-append_past b'a' (drop 1 header) (codes "abc") new long_header

feed_tar_partial_example :
    (q : TarParser) × (feed_tar (b'a' ∷ replicate 99 0) new ≡ fed 100 need_data q)
    × (needed q + 100 ≡ needed new)
feed_tar_partial_example = feed_tar_partial b'a' (replicate 99 0) new short_front

-- The header in one call, and in two.
whole_run : Run any_size new header (file_a ∷ []) (Finish.ran_out after_header)
whole_run = calls 511 b'a' (drop 1 header) new (
    subst (λ r. After any_size r header (file_a ∷ []) (Finish.ran_out after_header))
      (sym header_read) (reports 512 file_a after_header (drained after_header)))

front_read : feed_tar front new ≡ fed 100 need_data (fill front new)
unfolding feed_tar feed_in feed_header fill write_at finish_header
front_read = refl

rest_read : feed_tar (b'0' ∷ drop 101 header) (fill front new) ≡ fed 412 (entry file_a) after_header
unfolding feed_tar feed_in feed_header fill write_at finish_header is_zero_block process_header
    with_parsed parse_header validate_checksum parse_octal octal_text digits_of unsigned_sum
    signed_sum read_fields checked_entry from_byte is_sparse full_path parse_string join_path
    ustar_prefix owner_name non_empty handle_entry is_metadata dispatch emit apply_pending take_or
    take_some skip_or_header padded_size blocks_for_size from_utf8_lossy is_utf8 from_str_radix
    bytes_eq position_or_len
rest_read = refl

split_run : Run any_size new header (file_a ∷ []) (Finish.ran_out after_header)
split_run = calls 99 b'a' (drop 1 header) new (
    subst (λ r. After any_size r header (file_a ∷ []) (Finish.ran_out after_header))
      (sym front_read)
      (asks 100 (fill front new) (
        calls 411 b'0' (drop 101 header) (fill front new) (
          subst
            (λ r.
              After any_size r (b'0' ∷ drop 101 header) (file_a ∷ []) (Finish.ran_out after_header))
            (sym rest_read) (reports 412 file_a after_header (drained after_header))))))

Run-Agree_example :
    Agree (file_a ∷ []) (Finish.ran_out after_header) (file_a ∷ []) (Finish.ran_out after_header)
Run-Agree_example = Run-Agree whole_run split_run

feed_tar-Runs_example : Runs new header
feed_tar-Runs_example = feed_tar-Runs header new new-IsValid

feed_tar-Advanced_example : Advanced new after_header 512 512
feed_tar-Advanced_example =
    feed_tar-Advanced header new after_header 512 (entry file_a) new-IsValid header_read

feed_tar-Emitted_example : Emitted file_a after_header
feed_tar-Emitted_example = feed_tar-Emitted header new after_header 512 file_a header_read

-- Records with a newline and a space in a value.
abbrev records : List PaxRecord
records =
    record { digits = codes "12"; key = codes "path"; value = codes "a\nb" }
    ∷ record { digits = codes "11"; key = codes "size"; value = codes "70" }
    ∷ []

records-IsRecord : All IsRecord records
unfolding record_len from_str_radix is_utf8
records-IsRecord = (
  record {
    len = refl;
    no_space = (refl, (refl, tt));
    no_equals = (refl, (refl, (refl, (refl, tt))));
  },
  (
    record {
      len = refl;
      no_space = (refl, (refl, tt));
      no_equals = (refl, (refl, (refl, (refl, tt))));
    },
    tt,
  ),
)

parse_pax_data-encode_all_example :
    parse_pax_data (encode_all records) new ≡ walked (apply_all records new)
parse_pax_data-encode_all_example =
    parse_pax_data-encode_all records new records-IsRecord (omega arith)

apply_all_run :
    apply_all records new ≡ record new { pax_path = some (codes "a\nb"); pax_size = some 70 }
unfolding set_attribute set_size bytes_eq from_utf8_lossy from_str_radix
apply_all_run = refl

parse_pax_data-ne-stuck_example : parse_pax_data (codes "7 a=b\nx") new ≢ stuck
parse_pax_data-ne-stuck_example = parse_pax_data-ne-stuck (codes "7 a=b\nx") new

-- A record of 6 bytes, and one with the length 2 ^ 64 - 5.
abbrev overflowing : Bytes
overflowing = codes "6 a=b\n18446744073709551611 x=y\n"

overflowing_space : position (λ b. b == b' ') (drop 6 overflowing) ≡ some 20
unfolding position
overflowing_space = refl

overflowing_len : record_len (take 20 (drop 6 overflowing)) ≡ some 18446744073709551611
unfolding record_len from_str_radix is_utf8
overflowing_len = refl

pax_loop_panics_example : pax_loop (suc 30) 6 overflowing new ≡ crashed
pax_loop_panics_example =
    pax_loop_panics 30 6 20 18446744073709551611 overflowing new (omega arith) (omega arith)
      overflowing_space overflowing_len (omega arith) (omega arith)

-- The whole walk over that header panics.
parse_pax_data_run : parse_pax_data overflowing new ≡ crashed
unfolding parse_pax_data pax_loop with_space with_len record_len pax_round position from_str_radix
    is_utf8 apply_record strip_last split_record set_attribute bytes_eq
parse_pax_data_run = refl
