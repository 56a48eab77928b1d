-- ===== src/Stream.antt =====
-- src/stream/: the checkpoint table of one compressed stream (Index), the interface of its decoder
-- (Decoder) and the reader of a range of it (Reader).
pub mod Index
pub mod Decoder
pub mod Reader
use iluvatar.Common.{ℕ, ◌*◌}

-- `BUF_SIZE`
abbrev pub buf_size : ℕ
buf_size = 64 * 1024
