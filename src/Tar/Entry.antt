-- ===== src/Tar/Entry.antt =====
-- src/tar/entry.rs: the types of tar entries, and their conversion to archive entries.
use iluvatar.Common.{ℕ, ◌%◌, Bool, true, false, ◌||◌, Bytes, Option, ◌==◌, if◌then◌else◌}
use iluvatar.Archive.{EntryType, ArchiveEntry}

-- `TarEntryType`
pub data TarEntryType : Type 0 where
  regular hard_link sym_link char_device block_device directory fifo : TarEntryType
  gnu_long_name gnu_long_link pax_extended pax_global : TarEntryType
  other : ℕ → TarEntryType

-- `TarEntryType::from_byte`
unfoldable pub from_byte : ℕ → TarEntryType
from_byte b =
    if b == b'0' || b == 0 || b == b'7'
    then regular
    else if b == b'1'
    then hard_link
    else if b == b'2'
    then sym_link
    else if b == b'3'
    then char_device
    else if b == b'4'
    then block_device
    else if b == b'5'
    then directory
    else if b == b'6'
    then fifo
    else if b == b'L'
    then gnu_long_name
    else if b == b'K'
    then gnu_long_link
    else if b == b'x'
    then pax_extended
    else if b == b'g'
    then pax_global
    else other b

unfoldable pub is_regular : TarEntryType → Bool
is_regular regular = true
is_regular _ = false

unfoldable pub is_metadata : TarEntryType → Bool
is_metadata gnu_long_name = true
is_metadata gnu_long_link = true
is_metadata pax_extended = true
is_metadata pax_global = true
is_metadata _ = false

-- `entry_type == TarEntryType::Other(b'S')`
unfoldable pub is_sparse : TarEntryType → Bool
is_sparse (other b) = b == b'S'
is_sparse _ = false

-- `TarEntry`
pub record TarEntry : Type 0 where
  pub path : Bytes
  pub size : ℕ
  pub entry_type : TarEntryType
  pub mode : ℕ
  pub uid : ℕ
  pub gid : ℕ
  pub mtime : ℕ
  pub uname : Option Bytes
  pub gname : Option Bytes
  pub link_target : Option Bytes
  pub data_offset : ℕ

-- `From<TarEntryType> for EntryType`
unfoldable pub to_entry_type : TarEntryType → EntryType
to_entry_type regular = EntryType.regular
to_entry_type hard_link = EntryType.hard_link
to_entry_type sym_link = EntryType.sym_link
to_entry_type char_device = EntryType.char_device
to_entry_type block_device = EntryType.block_device
to_entry_type directory = EntryType.directory
to_entry_type fifo = EntryType.fifo
to_entry_type gnu_long_name = EntryType.other b'L'
to_entry_type gnu_long_link = EntryType.other b'K'
to_entry_type pax_extended = EntryType.other b'x'
to_entry_type pax_global = EntryType.other b'g'
to_entry_type (other b) = EntryType.other b

-- `From<TarEntry> for ArchiveEntry`; the low twelve bits of the mode are kept.
unfoldable pub to_archive_entry : TarEntry → ArchiveEntry
to_archive_entry e = record {
  path = e.path;
  size = e.size;
  entry_type = to_entry_type e.entry_type;
  mode = e.mode % 0o10000;
  uid = e.uid;
  gid = e.gid;
  mtime = e.mtime;
  link_target = e.link_target;
  data_offset = e.data_offset;
}
