-- ===== src/Engine/Fuel.antt =====
-- src/engine/state_machine.rs, `feed_to_parser`: the rounds of the loop.
use iluvatar.Common.{
  ◌+◌, ◌*◌, ℕ, zero, suc, ◌<◌, ◌≤◌, ◌≡◌, ◌≢◌, refl, arith, [], ◌∷◌, length, drop, length-drop,
  Bytes, ◌==◌, Bool-cases, inl, inr,
}
use iluvatar.Archive.{
  ArchiveEntry, Event, entry, need_data, end_of_archive, Fed, fed, failed, panicked,
}
use iluvatar.Index.Builder.{IndexBuilder, add_entry}
use iluvatar.Engine.{ArchiveParser, Feeding, starved, feed_round, feed_to_parser}

-- The loop goes on behind an entry, and behind a call that asks for more data and has consumed some.
abbrev pub GoesOn : ℕ → Event ArchiveEntry → Type 0
GoesOn n (entry e) = Unit {0}
GoesOn n need_data = 0 < n
GoesOn n end_of_archive = ⊥

-- What the loop needs of a parser to end: a property of its states that every call keeps, and a
-- count of the calls that a state may answer without consuming, which grows by less than three for
-- each byte consumed and falls where nothing is.
pub record Progresses {P : Type 0} (parser : ArchiveParser P) : Type 1 where
  pub IsGood : P → Type 0
  pub debt : P → ℕ
  pub keeps :
      (xs : Bytes) (p q : P) (n : ℕ) (ev : Event ArchiveEntry)
      → IsGood p
      → parser.feed xs p ≡ fed n ev q
      → IsGood q
  pub pays :
      (x : ℕ) (xs : Bytes) (p q : P) (n : ℕ) (ev : Event ArchiveEntry)
      → IsGood p
      → parser.feed (x ∷ xs) p ≡ fed n ev q
      → GoesOn n ev
      → (n ≤ length (x ∷ xs)) × (debt q < 3 * n + debt p)

module _ {P : Type 0} (parser : ArchiveParser P) (progress : Progresses parser) where
  -- The calls that feeding `xs` takes at most.
  abbrev pub calls : Bytes → P → ℕ
  calls xs p = 3 * length xs + progress.debt p

  calls_fall :
      (x : ℕ) (xs : Bytes) (p q : P) (n : ℕ) (ev : Event ArchiveEntry)
      → progress.IsGood p
      → parser.feed (x ∷ xs) p ≡ fed n ev q
      → GoesOn n ev
      → calls (drop n (x ∷ xs)) q < calls (x ∷ xs) p
  calls_fall x xs p q n ev good eq on =
      omega (arith, length-drop n (x ∷ xs), progress.pays x xs p q n ev good eq on)

module _ {P F : Type 0} (parser : ArchiveParser P) (progress : Progresses parser) where
  -- What the loop does with less left to do.
  abbrev NeverStarves : ℕ → (Bytes → P → IndexBuilder F → Feeding P F) → Type 0
  NeverStarves bound next =
      (xs : Bytes) (p : P) (b : IndexBuilder F)
      → progress.IsGood p
      → calls parser progress xs p < bound
      → next xs p b ≢ starved

  feed_round-ne-starved :
      (next : Bytes → P → IndexBuilder F → Feeding P F) (x : ℕ) (xs : Bytes) (p : P)
      (b : IndexBuilder F) (r : Fed P ArchiveEntry)
      → NeverStarves (calls parser progress (x ∷ xs) p) next
      → progress.IsGood p
      → parser.feed (x ∷ xs) p ≡ r
      → feed_round parser next (x ∷ xs) b r ≢ starved
  unfolding feed_round
  feed_round-ne-starved next x xs p b (fed n (entry e) q) loop good eq =
      loop (drop n (x ∷ xs)) q (add_entry e b) (progress.keeps (x ∷ xs) p q n (entry e) good eq)
        (calls_fall parser progress x xs p q n (entry e) good eq tt)
  feed_round-ne-starved next x xs p b (fed n need_data q) loop good eq =
      elim (Bool-cases (n == 0)) [
        | inl none_taken ↦ rw none_taken (λ e. cc)
        | inr some_taken ↦ rw some_taken (
            loop (drop n (x ∷ xs)) q b (progress.keeps (x ∷ xs) p q n need_data good eq) (
              calls_fall parser progress x xs p q n need_data good eq (ground (arith, some_taken))))
      ]
  feed_round-ne-starved next x xs p b (fed n end_of_archive q) loop good eq = λ e. cc
  feed_round-ne-starved next x xs p b (failed e q) loop good eq = λ e. cc
  feed_round-ne-starved next x xs p b panicked loop good eq = λ e. cc

  -- From a good state of a parser that makes progress, the loop is never cut off by its fuel, if that
  -- is three calls for each byte of the data and those that the state may answer without consuming.
  pub feed_to_parser-ne-starved :
      (fuel : ℕ) (xs : Bytes) (p : P) (b : IndexBuilder F)
      → progress.IsGood p
      → 3 * length xs + progress.debt p ≤ fuel
      → feed_to_parser parser fuel xs p b ≢ starved
  unfolding feed_to_parser
  feed_to_parser-ne-starved fuel [] p b good h = λ e. cc
  feed_to_parser-ne-starved zero (x ∷ xs) p b good h = absurd (omega arith)
  feed_to_parser-ne-starved (suc fuel) (x ∷ xs) p b good h =
      feed_round-ne-starved (feed_to_parser parser fuel) x xs p b (parser.feed (x ∷ xs) p)
        (λ ys q c g l. feed_to_parser-ne-starved fuel ys q c g (omega arith)) good refl
