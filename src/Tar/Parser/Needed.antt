-- ===== src/Tar/Parser/Needed.antt =====
-- How far the parser is from its next change of state.
use iluvatar.Common.{ℕ, ◌-◌}
use iluvatar.Tar.Header.{block_size}
use iluvatar.Tar.State.{
  ParserState, reading_header, skipping_data, reading_pax_data, reading_gnu_long, one_zero_block,
  at_end, TarParser,
}

-- The bytes that the parser takes before it changes state.
unfoldable pub needed_in : ParserState → TarParser → ℕ
needed_in reading_header p = block_size - p.header_pos
needed_in (skipping_data remaining) p = remaining
needed_in (reading_pax_data remaining _ _) p = remaining
needed_in (reading_gnu_long remaining _ _ _) p = remaining
needed_in one_zero_block p = block_size - p.header_pos
needed_in at_end p = 0

abbrev pub needed : TarParser → ℕ
needed p = needed_in p.state p
