-- ===== src/Engine/Tar.antt =====
-- src/tar/parser.rs, `impl ArchiveParser for TarParser`: the tar parser behind the interface.
pub mod Stalls
use iluvatar.Common.{
  refl, ◌-◌, ◌++◌, min, take, take-length, drop-append, ◌≤◌, ◌+◌, ◌*◌, ℕ, suc, ◌<◌, ◌≡◌, ap, ◌∙◌,
  subst, arith, Bool, false, [], ◌∷◌, length, Bytes, Bool-cases, inl, inr, ◌==◌, ◌^◌,
}
use iluvatar.Archive.{ArchiveEntry, Event, entry, need_data, end_of_archive, fed, failed, panicked}
use iluvatar.Index.Builder.{IndexBuilder}
use iluvatar.Common.Sizes.{add_u64}
use iluvatar.Errors.{ok}
use iluvatar.Tar.Entry.{TarEntry, TarEntryType, is_metadata}
use iluvatar.Tar.Header.{block_size, is_zero_block, parse_header, padded_size, blocks_for_size}
use iluvatar.Tar.State.{
  ParserState, reading_header, skipping_data, reading_pax_data, reading_gnu_long, one_zero_block,
  at_end, TarParser, Outcome,
}
use iluvatar.Tar.Pax.{Walk, walked, crashed, stuck, parse_pax_data}
use iluvatar.Tar.Parser.{
  fill, handle_entry, dispatch, finish_header, process_header, with_parsed, feed_header, feed,
  feed_tar, feed_in, feed_skip, feed_pax, feed_gnu_long, finish_pax, finish_gnu_long, after_walk,
  convert, convert_event, end_of_stream,
}
use iluvatar.Tar.Parser.Needed.{needed, needed_in}
use iluvatar.Tar.Parser.Split.{feed_tar-append_past}
use iluvatar.Tar.Parser.Invariant.{IsValid, PosIsValid}
use iluvatar.Tar.Parser.Accounting.{feed_tar-Advanced}
use iluvatar.Engine.{ArchiveParser, drained, feed_round, feed_to_parser}
use iluvatar.Engine.Fuel.{GoesOn, Progresses}

-- `impl ArchiveParser for TarParser`
abbrev pub tar_parser : ArchiveParser TarParser
tar_parser = record { feed = feed; stream_pos = λ p. p.stream_pos; end_of_stream = end_of_stream }

-- Some call of `feed_tar` is behind every outcome of `feed`.
feed-feed_tar :
    (xs : Bytes) (p q : TarParser) (n : ℕ) (ev : Event ArchiveEntry)
    → feed xs p ≡ fed n ev q
    → (ev' : Event TarEntry) × (feed_tar xs p ≡ fed n ev' q) × (convert_event ev' ≡ ev)
unfolding feed convert
feed-feed_tar xs p q n ev h = go (feed_tar xs p) h
  where
    go :
        (r : Outcome)
        → convert r ≡ fed n ev q
        → (ev' : Event TarEntry) × (r ≡ fed n ev' q) × (convert_event ev' ≡ ev)
    go (fed n' ev' q') e = (ev', ground arith, ground arith)
    go (failed x q') e = absurd (cc)
    go panicked e = absurd (cc)

-- Entries come only from a filled header block.
abbrev NoEntry : Outcome → Type 0
NoEntry (fed n (entry e) q) = ⊥
NoEntry _ = Unit {0}

after_walk-NoEntry : (n : ℕ) (w : Walk) → NoEntry (after_walk n w)
unfolding after_walk
after_walk-NoEntry n (walked p) = tt
after_walk-NoEntry n crashed = tt
after_walk-NoEntry n stuck = tt

finish_pax-NoEntry :
    (n remaining size : ℕ) (buf : Bytes) (p : TarParser)
    → NoEntry (finish_pax n remaining size buf p)
unfolding finish_pax
finish_pax-NoEntry n remaining size buf p = elim (Bool-cases (remaining == 0)) [
  | inl last ↦ rw last (after_walk-NoEntry n (parse_pax_data buf p))
  | inr more ↦ rw more tt
]

finish_gnu_long-NoEntry :
    (n remaining size : ℕ) (buf : Bytes) (is_link : Bool) (p : TarParser)
    → NoEntry (finish_gnu_long n remaining size buf is_link p)
unfolding finish_gnu_long
finish_gnu_long-NoEntry n remaining size buf is_link p = elim (Bool-cases (remaining == 0)) [
  | inl last ↦ rw last tt
  | inr more ↦ rw more tt
]

-- A valid parser that reports an entry had a header block to fill.
entry-needed :
    (st : ParserState) (xs : Bytes) (p q : TarParser) (n : ℕ) (e : TarEntry)
    → PosIsValid st p.header_pos
    → feed_in st xs p ≡ fed n (entry e) q
    → 0 < needed_in st p
unfolding feed_in needed_in feed_pax feed_gnu_long feed_skip
entry-needed reading_header xs p q n e v h = omega arith
entry-needed (skipping_data r) [] p q n e v h = absurd (cc)
entry-needed (skipping_data r) (x ∷ xs) p q n e v h = absurd (cc)
entry-needed (reading_pax_data r size buf) [] p q n e v h = absurd (cc)
entry-needed (reading_pax_data r size buf) (x ∷ xs) p q n e v h =
    absurd (subst NoEntry h (finish_pax-NoEntry _ _ _ _ _))
entry-needed (reading_gnu_long r size buf is_link) [] p q n e v h = absurd (cc)
entry-needed (reading_gnu_long r size buf is_link) (x ∷ xs) p q n e v h =
    absurd (subst NoEntry h (finish_gnu_long-NoEntry _ _ _ _ _ _))
entry-needed one_zero_block xs p q n e v h = omega arith
entry-needed at_end xs p q n e v h = absurd (cc)

pub tar_feed-consumes :
    (xs : Bytes) (p q : TarParser) (n : ℕ) (e : ArchiveEntry)
    → IsValid p
    → 0 < length xs
    → feed xs p ≡ fed n (entry e) q
    → 0 < n
unfolding convert_event
tar_feed-consumes xs p q n e v nonempty h = go (feed-feed_tar xs p q n (entry e) h)
  where
    go :
        ((ev' : Event TarEntry) × (feed_tar xs p ≡ fed n ev' q) × (convert_event ev' ≡ entry e))
        → 0 < n
    go (entry e', eq, _) = omega (
      arith,
      entry-needed p.state xs p q n e' v.pos_ok (unfold feed_tar in eq),
      (feed_tar-Advanced xs p q n (entry e') v eq).within,
    )
    go (need_data, eq, c) = absurd (cc)
    go (end_of_archive, eq, c) = absurd (cc)

pub feed-keeps :
    (xs : Bytes) (p q : TarParser) (n : ℕ) (ev : Event ArchiveEntry)
    → IsValid p
    → feed xs p ≡ fed n ev q
    → IsValid q
feed-keeps xs p q n ev v h =
    let (ev', eq, _) = feed-feed_tar xs p q n ev h in (feed_tar-Advanced xs p q n ev' v eq).valid

pub tar_feed-pays :
    (x : ℕ) (xs : Bytes) (p q : TarParser) (n : ℕ) (ev : Event ArchiveEntry)
    → IsValid p
    → feed (x ∷ xs) p ≡ fed n ev q
    → GoesOn n ev
    → (n ≤ length (x ∷ xs)) × (0 < 3 * n + 0)
tar_feed-pays x xs p q n ev v h on =
    let (ev', eq, _) = feed-feed_tar (x ∷ xs) p q n ev h in
    let within = (feed_tar-Advanced (x ∷ xs) p q n ev' v eq).within in
    (omega (arith, within), omega (arith, positive ev h on))
  where
    positive : (ev : Event ArchiveEntry) → feed (x ∷ xs) p ≡ fed n ev q → GoesOn n ev → 0 < n
    positive (entry e) h on = tar_feed-consumes (x ∷ xs) p q n e v (omega arith) h
    positive need_data h on = on
    positive end_of_archive h on = absurd on

-- The tar parser's invariant makes it progress.
abbrev pub tar_progresses : Progresses tar_parser
tar_progresses = record {
  IsGood = IsValid;
  keeps = feed-keeps;
  debt = λ p. 0;
  pays = tar_feed-pays;
}
