-- ===== src/Engine.antt =====
-- src/archive/parser.rs and src/engine/state_machine.rs: the interface of the archive parsers, and
-- the loop that feeds decompressed data to one and collects its entries.
pub mod Request
pub mod Read
pub mod Indexing
pub mod Fuel
pub mod Tar
pub mod Ar
pub mod Cpio
use iluvatar.Common.{
  ℕ, zero, suc, Bool, true, false, List, [], ◌∷◌, drop, ◌==◌, Bytes, if◌then◌else◌,
}
use iluvatar.Errors.{Error, Result}
use iluvatar.Archive.{
  ArchiveEntry, Event, entry, need_data, end_of_archive, Fed, fed, failed, panicked,
}
use iluvatar.Index.Builder.{IndexBuilder, add_entry}

-- `trait ArchiveParser`, for parsers of type `P`.
pub record ArchiveParser (P : Type 0) : Type 0 where
  pub feed : Bytes → P → Fed P ArchiveEntry
  pub stream_pos : P → ℕ
  pub end_of_stream : P → Result (Unit {0})

-- What the loop does to the engine: it ends with the parser, the builder and the flag `done`, or
-- with the error of a call, or with its panic. `starved` is the loop cut off by its fuel.
pub data Feeding (P F : Type 0) : Type 0 where
  drained : P → IndexBuilder F → (done : Bool) → Feeding P F
  refused : Error → P → IndexBuilder F → Feeding P F
  crashed starved : Feeding P F

module _ {P F : Type 0} (parser : ArchiveParser P) where
  -- The body of the loop, with the loop on the rest of the data as `next`.
  unfoldable pub feed_round :
      (Bytes → P → IndexBuilder F → Feeding P F)
      → Bytes
      → IndexBuilder F
      → Fed P ArchiveEntry
      → Feeding P F
  feed_round next bytes b (fed n (entry e) q) = next (drop n bytes) q (add_entry e b)
  feed_round next bytes b (fed n need_data q) =
      if n == 0 then drained q b false else next (drop n bytes) q b
  feed_round next bytes b (fed n end_of_archive q) = drained q b true
  feed_round next bytes b (failed e q) = refused e q b
  feed_round next bytes b panicked = crashed

  -- `feed_to_parser`
  unfoldable pub feed_to_parser : (fuel : ℕ) → Bytes → P → IndexBuilder F → Feeding P F
  feed_to_parser fuel [] p b = drained p b false
  feed_to_parser zero (x ∷ xs) p b = starved
  feed_to_parser (suc fuel) (x ∷ xs) p b =
      feed_round (feed_to_parser fuel) (x ∷ xs) b (parser.feed (x ∷ xs) p)
