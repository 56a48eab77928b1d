-- ===== src/Tests/IndexRuns.antt =====
-- Detection, the checkpoint table and the index on concrete values.
use Prim.Native.Char.{code}
use Prim.Native.String.{String}
use iluvatar.Common.{
  ℕ, ◌≡◌, ◌<◌, refl, arith, Bytes, List, [], ◌∷◌, ◌++◌, length, bytes_eq, none, some, true, inr,
}
use iluvatar.Common.Search.{starts_with}
use iluvatar.Errors.{ok}
use iluvatar.Archive.{EntryType, cpio, tar}
use iluvatar.Archive.Detect.{
  detect_archive_format, min_detect_bytes, is_ar, is_ascii_cpio, is_binary_cpio,
}
use iluvatar.Archive.Detect.Stable.{detect-append, detect_decides}
use iluvatar.Compress.{gzip}
use iluvatar.Compress.Detect.{
  detect_format, detect_min_bytes, has_tar_magic, detect_format-append, detect_format_decides,
}
use iluvatar.Stream.Index.{
  Checkpoint, StreamIndex, validate, validate_checkpoints, has_descent, thin,
  best_checkpoint_for_offset,
}
use iluvatar.Stream.Index.Best.{Nearest, best_checkpoint_for_offset-Nearest}
use iluvatar.Stream.Index.Thinning.{Thinned, thin-Thinned}
use iluvatar.Index.Store
use iluvatar.Index.Store.{
  IndexEntry, IndexMetadata, index_version, get, or_else, other_spelling, below,
}
use iluvatar.Index.Store.Lookup.{find_last, get-find_last, IsBelow, below-IsBelow, IsBelow-below}
use iluvatar.Index.Builder
use iluvatar.Index.Builder.{finish, to_index_entry}
use iluvatar.Index.Builder.Assembly.{AllPointBack, finish-AllPointBack}

abbrev codes : String → Bytes
codes String.[] = []
codes (String.◌∷◌ c s) = code c ∷ codes s

cpio_detected : detect_archive_format (codes "070701") ≡ some cpio
unfolding detect_archive_format is_ar is_ascii_cpio bytes_eq
cpio_detected = refl

detect-append_example : detect_archive_format (codes "070701" ++ codes "0000") ≡ some cpio
detect-append_example = detect-append (codes "070701") (codes "0000") cpio cpio_detected

undecided : detect_archive_format (codes "abc") ≡ none
unfolding detect_archive_format is_ar is_ascii_cpio is_binary_cpio bytes_eq
undecided = refl

detect_decides_example : length (codes "abc") < min_detect_bytes
detect_decides_example = detect_decides (codes "abc") undecided

abbrev point : ℕ → Checkpoint (Unit {0})
point n = record { compressed_offset = n; bit_offset = 0; uncompressed_offset = n; state = tt }

abbrev stream : StreamIndex (Unit {0}) (Unit {0})
stream = record {
  codec = tt;
  compressed_len = none;
  unpacked_len = none;
  checkpoints = point 0 ∷ point 100 ∷ point 200 ∷ [];
  indexed_to = 300;
  complete = true;
}

stream_valid : validate stream ≡ ok tt
unfolding validate validate_checkpoints has_descent
stream_valid = refl

best_checkpoint_for_offset-Nearest_example :
    Nearest 150 stream.checkpoints (best_checkpoint_for_offset stream 150).0
best_checkpoint_for_offset-Nearest_example =
    best_checkpoint_for_offset-Nearest stream 150 stream_valid

thin-Thinned_example :
    Thinned stream.checkpoints (thin stream).0.checkpoints × (validate (thin stream).0 ≡ ok tt)
thin-Thinned_example = thin-Thinned stream stream_valid (omega arith)

abbrev file : String → ℕ → IndexEntry
file path offset = record {
  path = codes path;
  size = 3;
  entry_type = EntryType.regular;
  mode = 0o644;
  uid = 0;
  gid = 0;
  mtime = 0;
  link_target = none;
  uncompressed_offset = offset;
  checkpoint_index = 0;
}

abbrev files : List IndexEntry
files = file "a" 0 ∷ file "dir/" 120 ∷ file "a" 250 ∷ []

abbrev metadata : IndexMetadata (Unit {0})
metadata = record {
  version = index_version;
  compression = tt;
  archive_format = tar;
  archive_size = 300;
  uncompressed_size = 300;
  complete = true;
}

get-find_last_example :
    get (Store.new metadata stream files) (codes "dir")
    ≡ or_else (find_last (codes "dir") files) (find_last (other_spelling (codes "dir")) files)
get-find_last_example = get-find_last metadata stream files (codes "dir")

below_run : below (codes "dir") (codes "dir/a") ≡ true
unfolding below starts_with
below_run = refl

below-IsBelow_example : IsBelow (codes "dir") (codes "dir/a")
below-IsBelow_example = below-IsBelow (codes "dir") (codes "dir/a") below_run

IsBelow-below_example : below (codes "dir") (codes "dir/a") ≡ true
IsBelow-below_example = IsBelow-below (codes "dir") (codes "dir/a") (inr (codes "a", refl))

finish-AllPointBack_example :
    AllPointBack stream files
      (finish (record (Builder.new tt tar 300) { entries = files }) stream true).entries
    × ((finish (record (Builder.new tt tar 300) { entries = files }) stream true).stream ≡ stream)
finish-AllPointBack_example =
    finish-AllPointBack stream stream_valid (record (Builder.new tt tar 300) { entries = files })
      true

abbrev gzip_start : Bytes
gzip_start = 0x1f ∷ 0x8b ∷ []

gzip_detected : detect_format gzip_start ≡ some gzip
unfolding detect_format starts_with
gzip_detected = refl

detect_format-append_example : detect_format (gzip_start ++ (8 ∷ 0 ∷ [])) ≡ some gzip
detect_format-append_example = detect_format-append gzip_start (8 ∷ 0 ∷ []) gzip gzip_detected

abbrev zstd_half : Bytes
zstd_half = 0x28 ∷ 0xb5 ∷ []

undecided_stream : detect_format zstd_half ≡ none
unfolding detect_format starts_with has_tar_magic
undecided_stream = refl

detect_format_decides_example : length zstd_half < detect_min_bytes
detect_format_decides_example = detect_format_decides zstd_half undecided_stream
