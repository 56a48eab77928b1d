-- ===== src/Tests/CpioRuns.antt =====
-- Cpio headers and the cpio parser on concrete bytes.
use Prim.Native.Char.{code}
use Prim.Native.String.{String}
use iluvatar.Common.{◌≡◌, refl, arith, Bytes, [], ◌∷◌}
use iluvatar.Errors.{ok}
use iluvatar.Cpio.Header.{parse_odc_header, entry_type_from_mode}
use iluvatar.Cpio.Header.RoundTrip.{
  OdcFields, FitsOdc, encode_odc, decoded, parse_odc_header-encode,
}
use mathlib.Core.List.{Perm}
use iluvatar.Common.{◌++◌, none, some, false, bytes_eq}
use iluvatar.Common.Search.{trim_end}
use iluvatar.Common.Utf8.{from_utf8_lossy}
use iluvatar.Archive.{EntryType, ArchiveEntry, need_data, fed, cpio}
use iluvatar.Index.Builder
use iluvatar.Index.Builder.{IndexBuilder, add_entry}
use iluvatar.Cpio.Header.{CpioHeader}
use iluvatar.Cpio.Links.{InodeKey, key_eq, deferred_at, flatten, as_link, as_links}
use iluvatar.Cpio.State.{CpioParser, new, odc, reading_filename}
use iluvatar.Cpio.Policy.{apply_hardlink_policy, canonical, is_regular}
use iluvatar.Cpio.Policy.Conserves.{member, members, listed, held, apply_hardlink_policy-perm}
use iluvatar.Cpio.Format.{sub_format_of, header_size_of}
use iluvatar.Cpio.Parser.{
  trailer_name, extend, fill_header, with_format, detect_header, header_in, feed_header, feed_in,
  feed_queue, feed, end_of_stream,
}
use iluvatar.Cpio.Parser.Invariant.{Advanced}
use iluvatar.Cpio.Parser.Alignment.{cpio_feed-Advanced, cpio_new-IsValid}
use iluvatar.Engine.{feed_to_parser, drained}
use iluvatar.Engine.Cpio.{cpio_parser}
use iluvatar.Engine.Cpio.Trailer.{behind_trailer, feed_to_parser_loses}

abbrev codes : String → Bytes
codes String.[] = []
codes (String.◌∷◌ c s) = code c ∷ codes s

abbrev fields : OdcFields
fields = record {
  dev = 0o4001;
  ino = 7;
  mode = 0o100644;
  uid = 1000;
  gid = 1000;
  nlink = 1;
  rdev = 0;
  mtime = 1700000000;
  namesize = 2;
  filesize = 3;
}

fields-FitsOdc : FitsOdc fields
fields-FitsOdc = record {
  dev = omega arith;
  ino = omega arith;
  mode = omega arith;
  uid = omega arith;
  gid = omega arith;
  nlink = omega arith;
  rdev = omega arith;
  mtime = omega arith;
  namesize = omega arith;
  filesize = omega arith;
}

encoded_text :
    encode_odc (codes "070707") fields []
    ≡ codes "0707070040010000071006440017500017500000010000001452477040000000200000000003"
encoded_text = refl

parse_odc_header-encode_example :
    parse_odc_header (encode_odc (codes "070707") fields []) ≡ ok (decoded fields)
parse_odc_header-encode_example =
    parse_odc_header-encode (codes "070707") [] fields refl fields-FitsOdc

regular_mode : entry_type_from_mode 0o100644 ≡ EntryType.regular
unfolding entry_type_from_mode
regular_mode = refl

-- Two members of a hard-link set, without data.
abbrev first_link : ArchiveEntry
first_link = record {
  path = codes "a";
  size = 0;
  entry_type = EntryType.regular;
  mode = 0o644;
  uid = 0;
  gid = 0;
  mtime = 0;
  link_target = none;
  data_offset = 112;
}

abbrev second_link : ArchiveEntry
second_link = record first_link { path = codes "b"; data_offset = 224 }

abbrev links_key : InodeKey
links_key = record { devmajor = 8; devminor = 1; ino = 7 }

-- A parser that has deferred both.
abbrev deferring : CpioParser
deferring = record new { deferred_links = (links_key, first_link ∷ second_link ∷ []) ∷ [] }

-- The data member of the set.
abbrev data_member : ArchiveEntry
data_member = record first_link { path = codes "c"; size = 5; data_offset = 336 }

apply_hardlink_policy-perm_example :
    Perm
      (members (listed (apply_hardlink_policy data_member links_key 3 deferring).0)
        ++ held (apply_hardlink_policy data_member links_key 3 deferring).1)
      (member data_member ∷ held deferring)
apply_hardlink_policy-perm_example = apply_hardlink_policy-perm data_member links_key 3 deferring

-- What the policy leaves in the queue.
data_member_run :
    (apply_hardlink_policy data_member links_key 3 deferring).1.pending
    ≡ as_link (codes "c") first_link ∷ as_link (codes "c") second_link ∷ []
unfolding apply_hardlink_policy canonical is_regular deferred_at key_eq as_links as_link
data_member_run = refl

-- The first six bytes of a header name the format.
abbrev behind_magic : CpioParser
behind_magic = record new { sub_format = some odc; header_buf = codes "070707"; stream_pos = 6 }

magic_read : feed (codes "070707") new ≡ fed 6 need_data behind_magic
unfolding feed feed_queue feed_in feed_header header_in detect_header extend with_format fill_header
    sub_format_of bytes_eq header_size_of
magic_read = refl

cpio_feed-Advanced_example : Advanced new behind_magic 6 6
cpio_feed-Advanced_example =
    cpio_feed-Advanced (codes "070707") new behind_magic 6 need_data cpio_new-IsValid magic_read

-- A parser that has all of the trailer's name but its last byte and the NUL.
abbrev trailer_header : CpioHeader
trailer_header = decoded (record fields { namesize = 11 })

abbrev in_trailer : CpioParser
in_trailer = record deferring {
  sub_format = some odc;
  state = reading_filename trailer_header 2 (codes "TRAILER!!");
}

trailer_text : trim_end 0 (from_utf8_lossy (codes "TRAILER!!" ++ (b'!' ∷ 0 ∷ []))) ≡ trailer_name
unfolding trim_end from_utf8_lossy
trailer_text = refl

both_deferred : flatten in_trailer.deferred_links ≡ first_link ∷ second_link ∷ []
unfolding flatten
both_deferred = refl

abbrev builder : IndexBuilder (Unit {0})
builder = Builder.new tt cpio 2048

feed_to_parser_loses_example :
    (feed_to_parser cpio_parser 7 (b'!' ∷ 0 ∷ []) in_trailer builder
      ≡ drained
          (behind_trailer 2 (second_link ∷ []) in_trailer)
          (add_entry first_link builder)
          false)
    × (end_of_stream (behind_trailer 2 (second_link ∷ []) in_trailer) ≡ ok tt)
feed_to_parser_loses_example =
    feed_to_parser_loses 6 b'!' (0 ∷ []) (codes "TRAILER!!") trailer_header first_link
      (second_link ∷ []) in_trailer builder refl trailer_text refl both_deferred
