-- ===== src/Engine/Indexing.antt =====
-- src/engine/state_machine.rs, `IndexingEngine`: detection and the parser, over the chunks that the
-- stream indexer hands out. A boxed parser is one of the three.
pub mod Replay
use iluvatar.Common.{
  ℕ, ◌+◌, Bool, true, false, not, ◌||◌, List, [], ◌∷◌, ◌++◌, Option, none, some, is_empty, Bytes,
  if◌then◌else◌,
}
use iluvatar.Errors.{Error, Result, ok, err}
use iluvatar.Archive.{ArchiveFormat, tar, cpio, ar, ArchiveEntry, Event, Fed, fed, failed, panicked}
use iluvatar.Archive.Detect.{detect_archive_format}
use iluvatar.Index.Builder.{IndexBuilder, set_archive_format}
use iluvatar.Tar.State.{TarParser}
use iluvatar.Tar.State as TarState
use iluvatar.Ar.Parser.{ArParser}
use iluvatar.Ar.Parser as ArState
use iluvatar.Cpio.State.{CpioParser}
use iluvatar.Cpio.State as CpioState
use iluvatar.Engine.{ArchiveParser, Feeding, drained, refused, crashed, starved, feed_to_parser}
use iluvatar.Engine.Tar.{tar_parser}
use iluvatar.Engine.Ar.{ar_parser}
use iluvatar.Engine.Cpio.{cpio_parser}

-- `Box<dyn ArchiveParser>`
pub data BoxedParser : Type 0 where
  tar_box : TarParser → BoxedParser
  cpio_box : CpioParser → BoxedParser
  ar_box : ArParser → BoxedParser

-- An outcome, with the parser in its box again.
abbrev pub boxed :
    {P : Type 0} → (P → BoxedParser) → Fed P ArchiveEntry → Fed BoxedParser ArchiveEntry
boxed box (fed n ev q) = fed n ev (box q)
boxed box (failed e q) = failed e (box q)
boxed box panicked = panicked

unfoldable pub feed_boxed : Bytes → BoxedParser → Fed BoxedParser ArchiveEntry
feed_boxed bytes (tar_box p) = boxed tar_box (tar_parser.feed bytes p)
feed_boxed bytes (cpio_box p) = boxed cpio_box (cpio_parser.feed bytes p)
feed_boxed bytes (ar_box p) = boxed ar_box (ar_parser.feed bytes p)

unfoldable pub boxed_pos : BoxedParser → ℕ
boxed_pos (tar_box p) = tar_parser.stream_pos p
boxed_pos (cpio_box p) = cpio_parser.stream_pos p
boxed_pos (ar_box p) = ar_parser.stream_pos p

unfoldable pub boxed_end : BoxedParser → Result (Unit {0})
boxed_end (tar_box p) = tar_parser.end_of_stream p
boxed_end (cpio_box p) = cpio_parser.end_of_stream p
boxed_end (ar_box p) = ar_parser.end_of_stream p

abbrev pub boxed_parser : ArchiveParser BoxedParser
boxed_parser = record { feed = feed_boxed; stream_pos = boxed_pos; end_of_stream = boxed_end }

-- `create_archive_parser`
unfoldable pub create_archive_parser : ArchiveFormat → BoxedParser
create_archive_parser tar = tar_box TarState.new
create_archive_parser cpio = cpio_box CpioState.new
create_archive_parser ar = ar_box ArState.new

-- `IndexingEngine`, without the stream indexer and the scratch buffer.
pub record IndexingEngine (F : Type 0) : Type 0 where
  pub archive_parser : Option BoxedParser
  pub index_builder : IndexBuilder F
  pub detect_buf : Bytes
  pub done : Bool

-- What a call does to the engine.
pub data Call (F : Type 0) : Type 0 where
  returns : IndexingEngine F → Call F
  fails : Error → IndexingEngine F → Call F
  panics out_of_fuel : Call F

module _ {F : Type 0} where
  -- The engine behind the loop over the parser.
  unfoldable pub settle : Feeding BoxedParser F → IndexingEngine F → Call F
  settle (drained p b at_end) e =
      returns (record e { archive_parser = some p; index_builder = b; done = e.done || at_end })
  settle (refused x p b) e = fails x (record e { archive_parser = some p; index_builder = b })
  settle crashed e = panics
  settle starved e = out_of_fuel

  -- `feed_to_parser`, on the parser that the engine holds.
  unfoldable pub feed_engine : (fuel : ℕ) → Bytes → BoxedParser → IndexingEngine F → Call F
  feed_engine fuel bytes p e = settle (feed_to_parser boxed_parser fuel bytes p e.index_builder) e

  -- The format is known, or not yet: then the bytes so far are replayed through the parser, or kept.
  unfoldable pub detected : Option ArchiveFormat → (fuel : ℕ) → IndexingEngine F → Call F
  detected none fuel e = returns e
  detected (some af) fuel e =
      feed_engine fuel e.detect_buf (create_archive_parser af)
        (record e { detect_buf = []; index_builder = set_archive_format af e.index_builder })

  unfoldable pub drain_into : Option BoxedParser → (fuel : ℕ) → Bytes → IndexingEngine F → Call F
  drain_into none fuel chunk e =
      detected (detect_archive_format (e.detect_buf ++ chunk)) fuel
        (record e { detect_buf = e.detect_buf ++ chunk })
  drain_into (some p) fuel chunk e = if e.done then returns e else feed_engine fuel chunk p e

  unfoldable pub and_then : Call F → (IndexingEngine F → Call F) → Call F
  and_then (returns e) rest = rest e
  and_then (fails x e) rest = fails x e
  and_then panics rest = panics
  and_then out_of_fuel rest = out_of_fuel

  -- `drain_output`, over the chunks that `read_output` answers before it answers 0. Once the archive
  -- is done the chunks that are left are not looked at.
  unfoldable pub drain_output : (fuel : ℕ) → List Bytes → IndexingEngine F → Call F
  drain_output fuel [] e = returns e
  drain_output fuel (chunk ∷ chunks) e =
      and_then (drain_into e.archive_parser fuel chunk e) (drain_output fuel chunks)

  -- The answer of the parser's `end_of_stream`.
  unfoldable pub judged : Result (Unit {0}) → IndexingEngine F → Call F
  judged (ok _) e = returns e
  judged (err x) e = fails x e

  unfoldable pub parser_end : Option BoxedParser → IndexingEngine F → Call F
  parser_end none e = panics
  parser_end (some p) e = judged (boxed_end p) e

  -- `end_of_stream`: a stream too short for detection is judged by the tar parser.
  unfoldable pub end_in : Option BoxedParser → (fuel : ℕ) → IndexingEngine F → Call F
  end_in (some p) fuel e = parser_end (some p) e
  end_in none fuel e =
      if is_empty e.detect_buf
      then returns e
      else and_then (detected (some tar) fuel e)
          (λ q. if q.done then returns q else parser_end q.archive_parser q)

  abbrev pub end_of_stream : (fuel : ℕ) → IndexingEngine F → Call F
  end_of_stream fuel e = end_in e.archive_parser fuel e
