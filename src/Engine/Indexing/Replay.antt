-- ===== src/Engine/Indexing/Replay.antt =====
-- src/engine/state_machine.rs, `drain_output`: the chunks before the archive's format is known.
use iluvatar.Common.{ℕ, ◌≡◌, refl, sym, ap, ◌∙◌, List, [], ◌∷◌, ◌++◌, none, some, Bytes}
use mathlib.Core.List.{append_assoc, append-nil}
use iluvatar.Archive.{ArchiveFormat}
use iluvatar.Archive.Detect.{detect_archive_format}
use iluvatar.Index.Builder.{set_archive_format}
use iluvatar.Engine.Indexing.{
  create_archive_parser, IndexingEngine, Call, returns, fails, panics, out_of_fuel, feed_engine,
  detected, drain_into, and_then, drain_output,
}

-- Chunks behind `buf` after none of which the format is known.
abbrev pub Undetected : Bytes → List Bytes → Type 0
Undetected buf [] = Unit {0}
Undetected buf (chunk ∷ chunks) =
    (detect_archive_format (buf ++ chunk) ≡ none) × Undetected (buf ++ chunk) chunks

abbrev pub concat : List Bytes → Bytes
concat [] = []
concat (chunk ∷ chunks) = chunk ++ concat chunks

module _ {F : Type 0} where
  and_then-returns : (c : Call F) → and_then c returns ≡ c
  unfolding and_then
  and_then-returns (returns e) = refl
  and_then-returns (fails x e) = refl
  and_then-returns panics = refl
  and_then-returns out_of_fuel = refl

  -- While the format is not known, chunks are only kept.
  drain_output-keeps :
      (fuel : ℕ) (chunks rest : List Bytes) (e : IndexingEngine F)
      → e.archive_parser ≡ none
      → Undetected e.detect_buf chunks
      → drain_output fuel (chunks ++ rest) e
        ≡ drain_output fuel rest (record e { detect_buf = e.detect_buf ++ concat chunks })
  unfolding drain_output
  drain_output-keeps fuel [] rest e h u =
      ap (λ b. drain_output fuel rest (record e { detect_buf = b })) (sym (append-nil e.detect_buf))
  drain_output-keeps fuel (chunk ∷ chunks) rest e h (u, us) =
      ap (λ p. and_then (drain_into p fuel chunk e) (drain_output fuel (chunks ++ rest))) h
      ∙ kept
      ∙ drain_output-keeps fuel chunks rest (record e { detect_buf = e.detect_buf ++ chunk }) h us
      ∙ ap (λ b. drain_output fuel rest (record e { detect_buf = b }))
          (append_assoc e.detect_buf chunk (concat chunks))
    where
      kept :
          and_then (drain_into none fuel chunk e) (drain_output fuel (chunks ++ rest))
          ≡ drain_output fuel (chunks ++ rest) (record e { detect_buf = e.detect_buf ++ chunk })
      kept =
          unfold drain_into detected and_then in
          ap
            (λ d.
              and_then (detected d fuel (record e { detect_buf = e.detect_buf ++ chunk }))
                (drain_output fuel (chunks ++ rest)))
            u

  -- The chunks of an engine with no parser yet, of which the last makes the format known and none
  -- before does: the parser of that format is fed all bytes so far at once, from a new parser on, and
  -- the engine's buffer is given up.
  pub drain_output-replays :
      (fuel : ℕ) (chunks : List Bytes) (last : Bytes) (af : ArchiveFormat) (e : IndexingEngine F)
      → e.archive_parser ≡ none
      → Undetected e.detect_buf chunks
      → detect_archive_format ((e.detect_buf ++ concat chunks) ++ last) ≡ some af
      → drain_output fuel (chunks ++ (last ∷ [])) e
        ≡ feed_engine fuel
            ((e.detect_buf ++ concat chunks) ++ last)
            (create_archive_parser af)
            (record e { detect_buf = []; index_builder = set_archive_format af e.index_builder })
  unfolding drain_output
  drain_output-replays fuel chunks last af e h u found =
      let q = record e { detect_buf = e.detect_buf ++ concat chunks } in
      drain_output-keeps fuel chunks (last ∷ []) e h u
      ∙ ap (λ p. and_then (drain_into p fuel last q) returns) h
      ∙ and_then-returns (drain_into none fuel last q)
      ∙ now
    where
      now :
          drain_into none fuel last (record e { detect_buf = e.detect_buf ++ concat chunks })
          ≡ feed_engine fuel
              ((e.detect_buf ++ concat chunks) ++ last)
              (create_archive_parser af)
              (record e { detect_buf = []; index_builder = set_archive_format af e.index_builder })
      now =
          unfold drain_into detected in
          ap
            (λ d.
              detected d fuel (record e { detect_buf = (e.detect_buf ++ concat chunks) ++ last }))
            found
