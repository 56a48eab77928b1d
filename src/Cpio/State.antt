-- ===== src/Cpio/State.antt =====
-- src/cpio/parser.rs: the parser's state.
use iluvatar.Common.{ℕ, List, [], Option, none, Bytes}
use iluvatar.Archive.{ArchiveEntry, Fed}
use iluvatar.Cpio.Header.{CpioHeader}
use iluvatar.Cpio.Links.{InodeKey, Resolved, Deferred}

-- `CpioSubFormat` of src/cpio/header.rs
pub data CpioSubFormat : Type 0 where
  newc newc_crc odc : CpioSubFormat

-- `CpioState`
pub data CpioState : Type 0 where
  reading_header : CpioState
  reading_filename : CpioHeader → (remaining : ℕ) → Bytes → CpioState
  skipping_name_pad : ArchiveEntry → (remaining : ℕ) → InodeKey → (nlink : ℕ) → CpioState
  reading_link_target : ArchiveEntry → (remaining : ℕ) → Bytes → CpioState
  skipping_data : (remaining : ℕ) → CpioState
  skipping_data_pad : (remaining : ℕ) → CpioState
  at_end : CpioState

-- `CpioParser`
pub record CpioParser : Type 0 where
  pub state : CpioState
  pub header_buf : Bytes
  pub stream_pos : ℕ
  pub sub_format : Option CpioSubFormat
  pub resolved_inodes : Resolved
  pub deferred_links : Deferred
  pub pending : List ArchiveEntry

abbrev pub Outcome : Type 0
Outcome = Fed CpioParser ArchiveEntry

-- `CpioParser::new`
abbrev pub new : CpioParser
new = record {
  state = reading_header;
  header_buf = [];
  stream_pos = 0;
  sub_format = none;
  resolved_inodes = λ _. none;
  deferred_links = [];
  pending = [];
}
