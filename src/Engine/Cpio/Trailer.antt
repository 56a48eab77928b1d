-- ===== src/Engine/Cpio/Trailer.antt =====
-- src/cpio/parser.rs, `feed_filename`, and src/engine/state_machine.rs, `feed_to_parser`: a stream that
-- ends with the trailer's name.
use iluvatar.Common.{
  ℕ, suc, ◌-◌, ◌≡◌, refl, ap, ◌∙◌, arith, min, false, List, [], ◌∷◌, ◌++◌, length, take, drop,
  take-length, Bytes, bytes_eq,
}
use iluvatar.Common.Sizes.{add_u64}
use iluvatar.Common.Search.{trim_end}
use iluvatar.Common.Utf8.{from_utf8_lossy}
use iluvatar.Errors.{ok}
use iluvatar.Archive.{ArchiveEntry, entry, fed}
use iluvatar.Index.Builder.{IndexBuilder, add_entry}
use iluvatar.Cpio.Header.{CpioHeader}
use iluvatar.Cpio.Links.{flatten}
use iluvatar.Cpio.State.{CpioParser, reading_filename, at_end}
use iluvatar.Cpio.Parser.{
  feed, feed_queue, feed_in, feed_filename, finish_filename, finish_archive, pop_or_end,
  end_of_stream, ending_in, trailer_name,
}
use iluvatar.Engine.{drained, feed_round, feed_to_parser}
use iluvatar.Engine.Cpio.{cpio_parser}

-- The parser behind the trailer's name, with entries in its queue.
abbrev pub behind_trailer : ℕ → List ArchiveEntry → CpioParser → CpioParser
behind_trailer n es p = record p {
  stream_pos = add_u64 p.stream_pos n;
  state = at_end;
  deferred_links = [];
  pending = es;
}

finish_archive_lem :
    (n : ℕ) (e : ArchiveEntry) (es : List ArchiveEntry) (p : CpioParser)
    → p.pending ≡ []
    → flatten p.deferred_links ≡ e ∷ es
    → finish_archive n p
      ≡ fed n (entry e) (record p { deferred_links = []; pending = es; state = at_end })
unfolding finish_archive pop_or_end
finish_archive_lem n e es p pending deferred = rw (pending, deferred) refl

feed_filename-trailer :
    (x : ℕ) (xs buf : Bytes) (hdr : CpioHeader) (e : ArchiveEntry) (es : List ArchiveEntry)
    (p : CpioParser)
    → trim_end 0 (from_utf8_lossy (buf ++ (x ∷ xs))) ≡ trailer_name
    → p.pending ≡ []
    → flatten p.deferred_links ≡ e ∷ es
    → feed_filename hdr (length (x ∷ xs)) buf (x ∷ xs) p
      ≡ fed (length (x ∷ xs)) (entry e) (behind_trailer (length (x ∷ xs)) es p)
unfolding feed_filename finish_filename bytes_eq
feed_filename-trailer x xs buf hdr e es p name pending deferred =
    let all : min (length (x ∷ xs)) (length (x ∷ xs)) ≡ length (x ∷ xs) = omega arith in
    let none_left : length (x ∷ xs) - length (x ∷ xs) ≡ 0 = omega arith in
    let whole : take (length (x ∷ xs)) (x ∷ xs) ≡ x ∷ xs =
      take-length (length (x ∷ xs)) (x ∷ xs) (omega arith) in
    rw (all, none_left, whole, name) (finish_archive_lem (length (x ∷ xs)) e es _ pending deferred)

nothing_left : (xs : Bytes) → drop (length xs) xs ≡ []
nothing_left [] = refl
nothing_left (x ∷ xs) = nothing_left xs

feed-trailer :
    (x : ℕ) (xs buf : Bytes) (hdr : CpioHeader) (e : ArchiveEntry) (es : List ArchiveEntry)
    (p : CpioParser)
    → p.state ≡ reading_filename hdr (length (x ∷ xs)) buf
    → trim_end 0 (from_utf8_lossy (buf ++ (x ∷ xs))) ≡ trailer_name
    → p.pending ≡ []
    → flatten p.deferred_links ≡ e ∷ es
    → feed (x ∷ xs) p ≡ fed (length (x ∷ xs)) (entry e) (behind_trailer (length (x ∷ xs)) es p)
unfolding feed feed_queue feed_in
feed-trailer x xs buf hdr e es p state name pending deferred =
    ap (λ l. feed_queue l (x ∷ xs) p) pending
    ∙ ap (λ st. feed_in st (x ∷ xs) p) state
    ∙ feed_filename-trailer x xs buf hdr e es p name pending deferred

-- On a chunk that ends with the name of the trailer, with an empty queue and at least one deferred
-- member, the engine's loop with fuel for a round reports the first deferred member only: the others
-- stay queued in the parser, the archive is not done, and the end of the stream is accepted.
pub feed_to_parser_loses :
    {F : Type 0} (fuel x : ℕ) (xs buf : Bytes) (hdr : CpioHeader) (e : ArchiveEntry)
    (es : List ArchiveEntry) (p : CpioParser) (b : IndexBuilder F)
    → p.state ≡ reading_filename hdr (length (x ∷ xs)) buf
    → trim_end 0 (from_utf8_lossy (buf ++ (x ∷ xs))) ≡ trailer_name
    → p.pending ≡ []
    → flatten p.deferred_links ≡ e ∷ es
    → (feed_to_parser cpio_parser (suc fuel) (x ∷ xs) p b
        ≡ drained (behind_trailer (length (x ∷ xs)) es p) (add_entry e b) false)
      × (end_of_stream (behind_trailer (length (x ∷ xs)) es p) ≡ ok tt)
unfolding feed_to_parser feed_round end_of_stream ending_in
feed_to_parser_loses fuel x xs buf hdr e es p b state name pending deferred =
    let q = behind_trailer (length (x ∷ xs)) es p in
    (
      ap (feed_round cpio_parser (feed_to_parser cpio_parser fuel) (x ∷ xs) b)
            (feed-trailer x xs buf hdr e es p state name pending deferred)
          ∙ ap (λ ys. feed_to_parser cpio_parser fuel ys q (add_entry e b)) (nothing_left (x ∷ xs)),
      refl,
    )
