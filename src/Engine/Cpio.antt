-- ===== src/Engine/Cpio.antt =====
-- src/cpio/parser.rs, `impl ArchiveParser for CpioParser`: the cpio parser behind the interface.
pub mod Debt
pub mod Trailer
use iluvatar.Common.{
  ℕ, ◌+◌, ◌-◌, ◌*◌, ◌≤◌, ◌<◌, ◌≡◌, refl, sym, subst, ap, ◌∙◌, arith, Bool, true, false, List, [],
  ◌∷◌, ◌++◌, length, length-append, min, Bytes, Bool-cases, inl, inr, ltb, take, ltb→le, ltb→lt,
  if◌then◌else◌, Option, none, some, bytes_eq, not, ◌||◌, ◌&&◌, ◌==◌, leb, drop, suc,
}
use iluvatar.Common.Search.{trim_end}
use iluvatar.Common.Sizes.{add_u64, sub_u64}
use iluvatar.Common.Utf8.{from_utf8_lossy}
use iluvatar.Errors.{Result, ok, err}
use iluvatar.Archive.{
  ArchiveEntry, Event, entry, need_data, end_of_archive, Fed, fed, failed, panicked,
}
use iluvatar.Cpio.Header.{CpioHeader}
use iluvatar.Cpio.Links.{
  InodeKey, inode_key, key_eq, key_lt, Deferred, push_deferred, deferred_at, without, flatten,
  as_links,
}
use iluvatar.Cpio.State.{
  CpioSubFormat, CpioState, reading_header, reading_filename, skipping_name_pad,
  reading_link_target, skipping_data, skipping_data_pad, at_end, CpioParser, Outcome,
}
use iluvatar.Cpio.Policy.{is_regular, is_sym_link, link_or_defer, canonical, apply_hardlink_policy}
use iluvatar.Cpio.Format.{header_size, padding, parse_header, sub_format_of, magic_ok}
use iluvatar.Cpio.Parser.{
  max_name_size, report, transition_to_data, pop_or_end, finish_archive, member_entry, start_member,
  finish_filename, trailer_name, with_header, process_header, extend, fill_header, with_format,
  detect_header, header_in, feed_header, feed_filename, feed_skip_name_pad, finish_link_target,
  feed_link_target, feed_skip, feed_in, feed_queue, feed, end_of_stream,
}
use iluvatar.Cpio.Parser.Invariant.{IsValid, InBounds, Advanced}
use iluvatar.Cpio.Parser.Alignment.{cpio_feed-Advanced}
use iluvatar.Engine.{ArchiveParser}
use iluvatar.Engine.Fuel.{GoesOn, Progresses}
use iluvatar.Engine.Cpio.Debt.{cpio_debt, Pays, feed_queue-Pays}

-- `impl ArchiveParser for CpioParser`
abbrev pub cpio_parser : ArchiveParser CpioParser
cpio_parser = record { feed = feed; stream_pos = λ p. p.stream_pos; end_of_stream = end_of_stream }

pub cpio_feed-keeps :
    (xs : Bytes) (p q : CpioParser) (n : ℕ) (ev : Event ArchiveEntry)
    → IsValid p
    → feed xs p ≡ fed n ev q
    → IsValid q
cpio_feed-keeps xs p q n ev v h = (cpio_feed-Advanced xs p q n ev v h).valid

pub cpio_feed-pays :
    (x : ℕ) (xs : Bytes) (p q : CpioParser) (n : ℕ) (ev : Event ArchiveEntry)
    → IsValid p
    → feed (x ∷ xs) p ≡ fed n ev q
    → GoesOn n ev
    → (n ≤ length (x ∷ xs)) × (cpio_debt q < 3 * n + cpio_debt p)
unfolding feed
cpio_feed-pays x xs p q n ev v h on =
    ((cpio_feed-Advanced (x ∷ xs) p q n ev v (unfold feed in h)).within, paid h)
  where
    paid : feed_queue p.pending (x ∷ xs) p ≡ fed n ev q → cpio_debt q < 3 * n + cpio_debt p
    paid eq = subst (Pays (cpio_debt p)) eq (feed_queue-Pays p.pending x xs p refl) on

-- The cpio parser's invariant makes it progress.
abbrev pub cpio_progresses : Progresses cpio_parser
cpio_progresses = record {
  IsGood = IsValid;
  debt = cpio_debt;
  keeps = cpio_feed-keeps;
  pays = cpio_feed-pays;
}
