-- ===== src/Cpio/Parser/Invariant.antt =====
-- src/cpio/parser.rs: the parser's invariant, and what a call consumes.
use iluvatar.Common.{
  ℕ, ◌+◌, ◌%◌, ◌≤◌, ◌<◌, ◌≡◌, ◌∙◌, arith, true, Option, none, some, length, Bytes,
}
use iluvatar.Common.Sizes.{add_u64, IsU64}
use iluvatar.Archive.{ArchiveEntry, fed, failed, panicked}
use iluvatar.Cpio.Header.{newc_header_size, align4}
use iluvatar.Cpio.Links.{InodeKey}
use iluvatar.Cpio.State.{
  CpioState, reading_header, reading_filename, skipping_name_pad, reading_link_target,
  skipping_data, skipping_data_pad, at_end, CpioParser, Outcome,
}
use iluvatar.Cpio.Policy.{link_or_defer, canonical, apply_hardlink_policy}
use iluvatar.Cpio.Format.{header_size, uses_alignment, padding}
use iluvatar.Cpio.Parser.{max_name_size, report}

-- Where an aligned archive stands: headers, and the data behind names, at multiples of four.
abbrev pub InStep : CpioState → (buf_len pos : ℕ) → Type 0
InStep reading_header buf_len pos = pos % 4 ≡ buf_len % 4
InStep (reading_filename hdr remaining buf) buf_len pos =
    pos % 4 ≡ (newc_header_size + length buf) % 4
InStep (skipping_name_pad e remaining inode nlink) buf_len pos = (pos + remaining) % 4 ≡ 0
InStep (reading_link_target e remaining buf) buf_len pos = e.data_offset % 4 ≡ 0
InStep (skipping_data remaining) buf_len pos = (pos + remaining) % 4 ≡ 0
InStep (skipping_data_pad remaining) buf_len pos = (pos + remaining) % 4 ≡ 0
InStep at_end buf_len pos = Unit {0}

-- What holds in every format, with `size` the size of a header.
abbrev pub InBounds : CpioState → (size buf_len pos : ℕ) → Type 0
InBounds reading_header size buf_len pos = buf_len < size
InBounds (reading_filename hdr remaining buf) size buf_len pos =
    (buf_len ≡ 0) × (length buf + remaining ≡ hdr.namesize)
InBounds (reading_link_target e remaining buf) size buf_len pos =
    (buf_len ≡ 0)
    × (pos ≡ add_u64 e.data_offset (length buf))
    × IsU64 e.data_offset
    × (length buf + remaining ≤ max_name_size)
InBounds _ size buf_len pos = buf_len ≡ 0

pub record IsValid (p : CpioParser) : Type 0 where
  pub fits : IsU64 p.stream_pos
  pub fresh : p.sub_format ≡ none → (p.state ≡ reading_header) × (length p.header_buf < 6)
  pub bounds : InBounds p.state (header_size p) (length p.header_buf) p.stream_pos
  pub aligned : uses_alignment p ≡ true → InStep p.state (length p.header_buf) p.stream_pos

-- What a call has done to the parser: it consumed `n` of the chunk's `len` bytes, and the position
-- has moved by them.
pub record Advanced (p q : CpioParser) (len n : ℕ) : Type 0 where
  pub within : n ≤ len
  pub moved : q.stream_pos ≡ add_u64 p.stream_pos n
  pub valid : IsValid q

abbrev pub Accounts : CpioParser → ℕ → Outcome → Type 0
Accounts p len (fed n ev q) = Advanced p q len n
Accounts p len (failed e q) = Unit {0}
Accounts p len panicked = Unit {0}

-- The policy leaves the fields that the invariant reads.
pub record Same (p q : CpioParser) : Type 0 where
  pub state : q.state ≡ p.state
  pub header_buf : q.header_buf ≡ p.header_buf
  pub stream_pos : q.stream_pos ≡ p.stream_pos
  pub sub_format : q.sub_format ≡ p.sub_format

link_or_defer-Same :
    (o : Option Bytes) (e : ArchiveEntry) (inode : InodeKey) (p : CpioParser)
    → Same p (link_or_defer o e inode p).1
unfolding link_or_defer
link_or_defer-Same none e inode p = ground arith
link_or_defer-Same (some path) e inode p = ground arith

apply_hardlink_policy-Same :
    (e : ArchiveEntry) (inode : InodeKey) (nlink : ℕ) (p : CpioParser)
    → Same p (apply_hardlink_policy e inode nlink p).1
unfolding apply_hardlink_policy canonical
apply_hardlink_policy-Same e inode nlink p =
    ground (arith, link_or_defer-Same (p.resolved_inodes inode) e inode p)

Same-IsValid : (p q : CpioParser) → Same p q → IsValid p → IsValid q
Same-IsValid p q s v = ground arith

pub report-Accounts :
    (p r : CpioParser) (len n : ℕ) (e : ArchiveEntry) (inode : InodeKey) (nlink : ℕ)
    → Advanced p r len n
    → Accounts p len (report n (apply_hardlink_policy e inode nlink r))
report-Accounts p r len n e inode nlink a =
    go (apply_hardlink_policy e inode nlink r) (apply_hardlink_policy-Same e inode nlink r)
  where
    go : (o : Option ArchiveEntry × CpioParser) → Same r o.1 → Accounts p len (report n o)
    go (none, q) s =
        unfold report in
        record {
          within = a.within;
          moved = s.stream_pos ∙ a.moved;
          valid = Same-IsValid r q s a.valid;
        }
    go (some e', q) s =
        unfold report in
        record {
          within = a.within;
          moved = s.stream_pos ∙ a.moved;
          valid = Same-IsValid r q s a.valid;
        }

-- Padding brings a length to the next multiple of four.
pub padding_lem :
    (p : CpioParser) (n : ℕ)
    → (padding p n < 4) × (uses_alignment p ≡ true → (n + padding p n) % 4 ≡ 0)
unfolding padding align4
padding_lem p n = ground arith
