-- ===== src/Cpio/Policy.antt =====
-- src/cpio/parser.rs, `apply_hardlink_policy`: which member of a hard-link set is reported when.
pub mod Conserves
use iluvatar.Common.{
  ℕ, ◌+◌, ◌-◌, ◌%◌, ◌^◌, min, Bool, true, false, not, ◌&&◌, ◌||◌, List, [], ◌∷◌, ◌++◌, Option, none,
  some, length, is_empty, take, drop, ltb, leb, ◌==◌, bytes_eq, Bytes, if◌then◌else◌,
}
use iluvatar.Common.Sizes.{add_u64, sub_u64}
use iluvatar.Common.Search.{trim_end}
use iluvatar.Common.Utf8.{from_utf8_lossy}
use iluvatar.Errors.{Error, CpioProblem, Ending, Result, ok, err}
use iluvatar.Archive.{
  ArchiveEntry, EntryType, Event, entry, need_data, end_of_archive, Fed, fed, failed,
}
use iluvatar.Archive.Detect.{cpio_magic}
use iluvatar.Cpio.Header.{
  CpioHeader, newc_header_size, odc_header_size, parse_newc_header, parse_odc_header,
  entry_type_from_mode, align4,
}
use iluvatar.Cpio.Links.{
  InodeKey, inode_key, resolve, push_deferred, deferred_at, without, flatten, as_link, as_links,
}
use iluvatar.Cpio.State.{
  CpioSubFormat, newc, newc_crc, odc, CpioState, reading_header, reading_filename,
  skipping_name_pad, reading_link_target, skipping_data, skipping_data_pad, at_end, CpioParser,
  Outcome,
}

unfoldable pub is_regular : EntryType → Bool
is_regular EntryType.regular = true
is_regular _ = false

unfoldable pub is_sym_link : EntryType → Bool
is_sym_link EntryType.sym_link = true
is_sym_link _ = false

-- A member of a set that carries no data: behind the data member, or deferred.
unfoldable pub link_or_defer :
    Option Bytes → ArchiveEntry → InodeKey → CpioParser → Option ArchiveEntry × CpioParser
link_or_defer (some path) e inode p = (some (as_link path e), p)
link_or_defer none e inode p =
    (none, record p { deferred_links = push_deferred inode e p.deferred_links })

-- The data member of a set: its deferred members are queued.
unfoldable pub canonical : ArchiveEntry → InodeKey → CpioParser → CpioParser
canonical e inode p = record p {
  resolved_inodes = resolve inode e.path p.resolved_inodes;
  deferred_links = without inode p.deferred_links;
  pending = p.pending ++ as_links e.path (deferred_at inode p.deferred_links);
}

-- `apply_hardlink_policy`
unfoldable pub apply_hardlink_policy :
    ArchiveEntry → InodeKey → ℕ → CpioParser → Option ArchiveEntry × CpioParser
apply_hardlink_policy e inode nlink p =
    if not (is_regular e.entry_type) || leb nlink 1
    then (some e, p)
    else if ltb 0 e.size
    then (some e, canonical e inode p)
    else link_or_defer (p.resolved_inodes inode) e inode p
