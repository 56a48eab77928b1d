-- ===== src/Tar/State.antt =====
-- src/tar/parser.rs: the parser's state.
use iluvatar.Common.{ℕ, Bool, Option, none, replicate, Bytes}
use iluvatar.Archive.{Fed}
use iluvatar.Tar.Entry.{TarEntry}
use iluvatar.Tar.Header.{block_size}

-- `ParserState`
pub data ParserState : Type 0 where
  reading_header : ParserState
  skipping_data : ℕ → ParserState
  reading_pax_data : (remaining size : ℕ) → Bytes → ParserState
  reading_gnu_long : (remaining size : ℕ) → Bytes → (is_link : Bool) → ParserState
  one_zero_block : ParserState
  at_end : ParserState

-- `TarParser`
pub record TarParser : Type 0 where
  pub state : ParserState
  pub header_buf : Bytes
  pub header_pos : ℕ
  pub stream_pos : ℕ
  pub pax_path : Option Bytes
  pub pax_linkpath : Option Bytes
  pub pax_size : Option ℕ
  pub gnu_long_name : Option Bytes
  pub gnu_long_link : Option Bytes

abbrev pub Outcome : Type 0
Outcome = Fed TarParser TarEntry

-- `TarParser::new`
abbrev pub new : TarParser
new = record {
  state = reading_header;
  header_buf = replicate block_size 0;
  header_pos = 0;
  stream_pos = 0;
  pax_path = none;
  pax_linkpath = none;
  pax_size = none;
  gnu_long_name = none;
  gnu_long_link = none;
}
