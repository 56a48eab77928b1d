-- ===== src/Engine/Tar/Stalls.antt =====
-- src/engine/state_machine.rs and src/tar/parser.rs: the loop behind a global header of no data.
use iluvatar.Common.{
  refl, ◌-◌, ◌++◌, min, take, take-length, drop-append, ◌≤◌, ◌+◌, ℕ, suc, ◌<◌, ◌≡◌, ap, ◌∙◌, arith,
  false, ◌∷◌, length, Bytes, ◌==◌, ◌^◌,
}
use iluvatar.Archive.{need_data, fed}
use iluvatar.Index.Builder.{IndexBuilder}
use iluvatar.Common.Sizes.{add_u64}
use iluvatar.Errors.{ok}
use iluvatar.Tar.Entry.{TarEntry, TarEntryType, is_metadata}
use iluvatar.Tar.Header.{block_size, is_zero_block, parse_header, padded_size, blocks_for_size}
use iluvatar.Tar.State.{reading_header, skipping_data, TarParser}
use iluvatar.Tar.Parser.{
  fill, handle_entry, dispatch, finish_header, process_header, with_parsed, feed_header, feed,
  feed_tar, feed_in, feed_skip, convert, convert_event,
}
use iluvatar.Tar.Parser.Needed.{needed, needed_in}
use iluvatar.Tar.Parser.Split.{feed_tar-append_past}
use iluvatar.Engine.{drained, feed_round, feed_to_parser}
use iluvatar.Engine.Tar.{tar_parser}

feed_skip_nothing :
    (x : ℕ) (xs : Bytes) (p : TarParser)
    → p.stream_pos < 2 ^ 64
    → feed_skip 0 (x ∷ xs) p ≡ fed 0 need_data (record p { state = reading_header })
unfolding feed_skip
feed_skip_nothing x xs p h = ground arith

feed_nothing :
    (x : ℕ) (xs : Bytes) (p : TarParser)
    → p.state ≡ skipping_data 0
    → p.stream_pos < 2 ^ 64
    → feed (x ∷ xs) p ≡ fed 0 need_data (record p { state = reading_header })
unfolding feed feed_tar feed_in convert convert_event
feed_nothing x xs p e h =
    ap (λ st. convert (feed_in st (x ∷ xs) p)) e ∙ ap convert (feed_skip_nothing x xs p h)

-- With 0 bytes to skip, the loop ends before the parser has taken a byte.
nothing_stalls :
    {F : Type 0} (fuel x : ℕ) (xs : Bytes) (p : TarParser) (b : IndexBuilder F)
    → p.state ≡ skipping_data 0
    → p.stream_pos < 2 ^ 64
    → feed_to_parser tar_parser (suc fuel) (x ∷ xs) p b
      ≡ drained (record p { state = reading_header }) b false
unfolding feed_to_parser feed_round
nothing_stalls fuel x xs p b e h = rw (feed_nothing x xs p e h)

-- The parser behind a header block, with its `n` bytes of data to skip.
abbrev behind_global : Bytes → ℕ → TarParser → TarParser
behind_global block n p = record (fill block p) { header_pos = 0; state = skipping_data n }

handle_empty_global :
    (n : ℕ) (e : TarEntry) (p : TarParser)
    → e.entry_type ≡ TarEntryType.pax_global
    → e.size ≡ 0
    → handle_entry n e p ≡ fed n need_data (record p { state = skipping_data 0 })
unfolding handle_entry dispatch is_metadata padded_size blocks_for_size
handle_empty_global n e p t z = rw (t, z)

finish_empty_global :
    (n : ℕ) (e : TarEntry) (p : TarParser)
    → p.header_pos ≡ block_size
    → is_zero_block p.header_buf ≡ false
    → parse_header p.header_buf p.stream_pos ≡ ok e
    → e.entry_type ≡ TarEntryType.pax_global
    → e.size ≡ 0
    → finish_header n p ≡ fed n need_data (record p { header_pos = 0; state = skipping_data 0 })
unfolding finish_header process_header with_parsed
finish_empty_global n e p full filled parsed t z =
    rw (full, filled, parsed) (handle_empty_global n e (record p { header_pos = 0 }) t z)

feed_empty_global :
    (y : ℕ) (ys : Bytes) (p : TarParser) (e : TarEntry)
    → p.state ≡ reading_header
    → length (y ∷ ys) + p.header_pos ≡ block_size
    → is_zero_block (fill (y ∷ ys) p).header_buf ≡ false
    → parse_header (fill (y ∷ ys) p).header_buf (fill (y ∷ ys) p).stream_pos ≡ ok e
    → e.entry_type ≡ TarEntryType.pax_global
    → e.size ≡ 0
    → feed_tar (y ∷ ys) p ≡ fed (length (y ∷ ys)) need_data (behind_global (y ∷ ys) 0 p)
unfolding feed_tar feed_in feed_header
feed_empty_global y ys p e st len filled parsed t z =
    let n = length (y ∷ ys) in
    let whole : min n (block_size - p.header_pos) ≡ n = omega arith in
    ap (λ state. feed_in state (y ∷ ys) p) st
    ∙ ap (λ m. finish_header m (fill (take m (y ∷ ys)) p)) whole
    ∙ ap (λ block. finish_header n (fill block p)) (take-length n (y ∷ ys) (omega arith))
    ∙ finish_empty_global n e (fill (y ∷ ys) p) (unfold fill in omega arith) filled parsed t z

-- A chunk that begins with the rest of a header block, where the parser stands at that block: if the
-- block, once filled, is that of a global PAX header of size 0 and more bytes follow, then the
-- engine's loop, with fuel for two rounds, ends with no error before the parser has taken a byte
-- behind the block. The parser stands at a header, the builder is as before, and the archive is not
-- done.
pub feed_to_parser_stalls :
    {F : Type 0} (fuel y : ℕ) (ys : Bytes) (x : ℕ) (xs : Bytes) (p : TarParser) (e : TarEntry)
    (b : IndexBuilder F)
    → p.state ≡ reading_header
    → length (y ∷ ys) + p.header_pos ≡ block_size
    → is_zero_block (fill (y ∷ ys) p).header_buf ≡ false
    → parse_header (fill (y ∷ ys) p).header_buf (fill (y ∷ ys) p).stream_pos ≡ ok e
    → e.entry_type ≡ TarEntryType.pax_global
    → e.size ≡ 0
    → feed_to_parser tar_parser (suc (suc fuel)) ((y ∷ ys) ++ (x ∷ xs)) p b
      ≡ drained (record (fill (y ∷ ys) p) { header_pos = 0; state = reading_header }) b false
unfolding feed_to_parser feed_round
feed_to_parser_stalls fuel y ys x xs p e b st len filled parsed t z =
    let fits : needed p ≤ length (y ∷ ys) = rw st (unfold needed_in in omega arith) in
    let round : feed ((y ∷ ys) ++ (x ∷ xs)) p
        ≡ fed (length (y ∷ ys)) need_data (behind_global (y ∷ ys) 0 p) =
      unfold feed convert convert_event in
      ap convert (
        feed_tar-append_past y ys (x ∷ xs) p fits
        ∙ feed_empty_global y ys p e st len filled parsed t z) in
    let consumed : (length (y ∷ ys) == 0) ≡ false = ground arith in
    rw (round, consumed, drop-append (y ∷ ys) (x ∷ xs))
      (nothing_stalls fuel x xs (behind_global (y ∷ ys) 0 p) b refl
        (unfold fill add_u64 in omega arith))
