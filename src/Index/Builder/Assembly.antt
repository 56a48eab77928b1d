-- ===== src/Index/Builder/Assembly.antt =====
-- src/index/builder.rs, `assemble`: the checkpoints that entries name.
use iluvatar.Common.{◌≡◌, refl, Bool, List, [], ◌∷◌, map}
use iluvatar.Errors.{ok}
use iluvatar.Stream.Index.{StreamIndex, validate}
use iluvatar.Stream.Index.Best.{Nearest, best_checkpoint_for_offset-Nearest}
use iluvatar.Index.Store
use iluvatar.Index.Store.{IndexEntry, ArchiveIndex}
use iluvatar.Index.Builder.{IndexBuilder, with_checkpoint, assemble, finish}

module _ {C S : Type 0} (stream : StreamIndex C S) where
  -- Entry `f` is the builder's `e`, with the checkpoint chosen for its data.
  pub record PointsBack (e f : IndexEntry) : Type 0 where
    pub same : f ≡ record e { checkpoint_index = f.checkpoint_index }
    pub nearest : Nearest e.uncompressed_offset stream.checkpoints f.checkpoint_index

  -- The two lists in step.
  abbrev pub AllPointBack : List IndexEntry → List IndexEntry → Type 0
  AllPointBack [] [] = Unit {0}
  AllPointBack (e ∷ es) (f ∷ fs) = PointsBack e f × AllPointBack es fs
  AllPointBack _ _ = ⊥

module _ {C S : Type 0} (stream : StreamIndex C S) (valid : validate stream ≡ ok tt) where
  AllPointBack-with_checkpoint :
      (es : List IndexEntry) → AllPointBack stream es (map (with_checkpoint stream) es)
  unfolding with_checkpoint
  AllPointBack-with_checkpoint [] = tt
  AllPointBack-with_checkpoint (e ∷ es) = (
    record {
      same = refl;
      nearest = best_checkpoint_for_offset-Nearest stream e.uncompressed_offset valid;
    },
    AllPointBack-with_checkpoint es,
  )

  -- The entries of a finished index, over a stream index that validates, are those of the builder,
  -- each of them and in their order, unchanged but for the checkpoint they name: it stands at or
  -- before the entry's data, and every later one of the table past the data's start. The stream
  -- index is the one given.
  pub finish-AllPointBack :
      {F : Type 0} (b : IndexBuilder F) (complete : Bool)
      → AllPointBack stream b.entries (finish b stream complete).entries
        × ((finish b stream complete).stream ≡ stream)
  unfolding finish assemble Store.new
  finish-AllPointBack b complete = (AllPointBack-with_checkpoint b.entries, refl)
