-- ===== src/Index/Builder.antt =====
-- src/index/builder.rs: entries are collected, then assembled into an index.
pub mod Assembly
use iluvatar.Common.{
  ℕ, Bool, true, false, List, [], ◌∷◌, ◌++◌, map, Option, none, some, length, Bytes,
}
use iluvatar.Archive.{ArchiveFormat, ArchiveEntry}
use iluvatar.Stream.Index.{StreamIndex, best_checkpoint_for_offset}
use iluvatar.Index.Store
use iluvatar.Index.Store.{IndexEntry, IndexMetadata, ArchiveIndex, index_version}

-- `IndexBuilder`, over the type of compression formats.
pub record IndexBuilder (F : Type 0) : Type 0 where
  pub entries : List IndexEntry
  pub compression : F
  pub archive_format : ArchiveFormat
  pub archive_size : ℕ
  pub last_entry_path : Option Bytes

-- `IndexBuilder::new`
abbrev pub new : {F : Type 0} → F → ArchiveFormat → ℕ → IndexBuilder F
new compression archive_format archive_size = record {
  entries = [];
  compression = compression;
  archive_format = archive_format;
  archive_size = archive_size;
  last_entry_path = none;
}

unfoldable pub to_index_entry : ArchiveEntry → IndexEntry
to_index_entry e = record {
  path = e.path;
  size = e.size;
  entry_type = e.entry_type;
  mode = e.mode;
  uid = e.uid;
  gid = e.gid;
  mtime = e.mtime;
  link_target = e.link_target;
  uncompressed_offset = e.data_offset;
  checkpoint_index = 0;
}

module _ {F : Type 0} where
  unfoldable pub set_archive_format : ArchiveFormat → IndexBuilder F → IndexBuilder F
  set_archive_format format b = record b { archive_format = format }

  unfoldable pub add_entry : ArchiveEntry → IndexBuilder F → IndexBuilder F
  add_entry e b = record b {
    last_entry_path = some e.path;
    entries = b.entries ++ (to_index_entry e ∷ []);
  }

  unfoldable pub entry_count : IndexBuilder F → ℕ
  entry_count b = length b.entries

module _ {C S : Type 0} where
  -- The loop of `assemble` over the entries.
  unfoldable pub with_checkpoint : StreamIndex C S → IndexEntry → IndexEntry
  with_checkpoint stream e = record e {
    checkpoint_index = (best_checkpoint_for_offset stream e.uncompressed_offset).0;
  }

module _ {F C S : Type 0} where
  unfoldable pub assemble :
      List IndexEntry → F → ArchiveFormat → ℕ → StreamIndex C S → Bool → ArchiveIndex F C S
  assemble entries compression archive_format archive_size stream complete =
      Store.new
        (record {
          version = index_version;
          compression = compression;
          archive_format = archive_format;
          archive_size = archive_size;
          uncompressed_size = stream.indexed_to;
          complete = complete;
        })
        stream (map (with_checkpoint stream) entries)

  -- `snapshot`
  unfoldable pub snapshot : IndexBuilder F → StreamIndex C S → ArchiveIndex F C S
  snapshot b stream = assemble b.entries b.compression b.archive_format b.archive_size stream false

  -- `finish`
  unfoldable pub finish : IndexBuilder F → StreamIndex C S → Bool → ArchiveIndex F C S
  finish b stream complete =
      assemble b.entries b.compression b.archive_format b.archive_size stream complete
