-- ===== src/Archive.antt =====
-- src/archive/: the types that the tar, cpio and ar parsers share (entry.rs, mod.rs, parser.rs).
-- Detection of the format is in Detect, its theorems in Detect/Stable.
pub mod Detect
use iluvatar.Common.{ℕ, ◌+◌, Bool, true, false, Bytes, Option}
use iluvatar.Errors.{Error}

-- `ArchiveFormat`
pub data ArchiveFormat : Type 0 where
  tar cpio ar : ArchiveFormat

-- `EntryType`
pub data EntryType : Type 0 where
  regular hard_link sym_link char_device block_device directory fifo socket : EntryType
  other : ℕ → EntryType

-- `ArchiveEntry`
pub record ArchiveEntry : Type 0 where
  pub path : Bytes
  pub size : ℕ
  pub entry_type : EntryType
  pub mode : ℕ
  pub uid : ℕ
  pub gid : ℕ
  pub mtime : ℕ
  pub link_target : Option Bytes
  pub data_offset : ℕ

-- `ArchiveEvent`, for any type of entries: `TarEvent` is the same enum over `TarEntry`.
pub data Event (E : Type 0) : Type 0 where
  entry : E → Event E
  need_data end_of_archive : Event E

-- What a call of `feed` does to a parser of type `P`: it consumes bytes and reports an event, or
-- it fails, or it panics. The parser behind the call is the last argument of the first two.
pub data Fed (P E : Type 0) : Type 0 where
  fed : ℕ → Event E → P → Fed P E
  failed : Error → P → Fed P E
  panicked : Fed P E

-- The outcome of a call on the rest of a chunk of which `k` bytes went before.
abbrev pub advance : {P E : Type 0} → ℕ → Fed P E → Fed P E
advance k (fed n ev p) = fed (k + n) ev p
advance k (failed e p) = failed e p
advance k panicked = panicked

-- A second call behind a first.
abbrev pub and_then : {P E : Type 0} → Fed P E → (P → Fed P E) → Fed P E
and_then (fed n ev p) next = advance n (next p)
and_then (failed e p) next = failed e p
and_then panicked next = panicked
