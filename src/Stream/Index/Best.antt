-- ===== src/Stream/Index/Best.antt =====
-- src/stream/index.rs, `best_checkpoint_for_offset`: the checkpoint that a read restores.
use iluvatar.Common.{
  ℕ, suc, ◌+◌, ◌-◌, ◌≤◌, ◌<◌, ◌≡◌, refl, arith, false, List, [], ◌∷◌, some, get_elem?, drop, leb,
  All, subst, leb→le, leb→lt, le→leb, Bool-cases, inl, inr,
}
use iluvatar.Errors.{ok}
use iluvatar.Stream.Index.{
  Checkpoint, StreamIndex, partition_point, best_index, has_descent, validate_checkpoints,
  best_checkpoint_for_offset, validate,
}

module _ {S : Type 0} where
  -- Offsets do not fall from `low` on.
  abbrev pub Ascends : ℕ → List (Checkpoint S) → Type 0
  Ascends low [] = Unit {0}
  Ascends low (c ∷ cs) = (low ≤ c.uncompressed_offset) × Ascends c.uncompressed_offset cs

  -- There is a checkpoint at offset 0, and offsets do not fall.
  abbrev pub IsValid : List (Checkpoint S) → Type 0
  IsValid [] = ⊥
  IsValid (c ∷ cs) = (c.uncompressed_offset ≡ 0) × Ascends c.uncompressed_offset cs

  has_descent-Ascends :
      (c : Checkpoint S) (cs : List (Checkpoint S))
      → has_descent (c ∷ cs) ≡ false
      → Ascends c.uncompressed_offset cs
  unfolding has_descent
  has_descent-Ascends c [] h = tt
  has_descent-Ascends c (d ∷ cs) h = ground (arith, has_descent-Ascends d cs)

  pub validate-IsValid : (cs : List (Checkpoint S)) → validate_checkpoints cs ≡ ok tt → IsValid cs
  unfolding validate_checkpoints
  validate-IsValid [] h = absurd (cc)
  validate-IsValid (c ∷ cs) h = ground (arith, has_descent-Ascends c cs)

  Ascends-has_descent :
      (c : Checkpoint S) (cs : List (Checkpoint S))
      → Ascends c.uncompressed_offset cs
      → has_descent (c ∷ cs) ≡ false
  unfolding has_descent
  Ascends-has_descent c [] h = refl
  Ascends-has_descent c (d ∷ cs) (le, h) = ground (arith, Ascends-has_descent d cs h)

  pub IsValid-validate : (cs : List (Checkpoint S)) → IsValid cs → validate_checkpoints cs ≡ ok tt
  unfolding validate_checkpoints
  IsValid-validate [] h = absurd h
  IsValid-validate (c ∷ cs) (z, h) = ground (arith, Ascends-has_descent c cs h)

  -- Checkpoint `i` stands at or before the offset, and every later one past it.
  pub record Nearest (offset : ℕ) (cs : List (Checkpoint S)) (i : ℕ) : Type 0 where
    pub best : Checkpoint S
    pub found : get_elem? cs i ≡ some best
    pub before : best.uncompressed_offset ≤ offset
    pub later : All (λ c. offset < c.uncompressed_offset) (drop (suc i) cs)

  Ascends-above :
      (low offset : ℕ) (cs : List (Checkpoint S))
      → Ascends low cs
      → offset < low
      → All (λ c. offset < c.uncompressed_offset) cs
  Ascends-above low offset [] a lt = tt
  Ascends-above low offset (d ∷ cs) (le, a) lt =
      (omega arith, Ascends-above d.uncompressed_offset offset cs a (omega arith))

  Nearest-cons :
      (offset : ℕ) (c : Checkpoint S) (cs : List (Checkpoint S)) (i : ℕ)
      → Nearest offset cs i
      → Nearest offset (c ∷ cs) (suc i)
  Nearest-cons offset c cs i r = record {
    best = r.best;
    found = r.found;
    before = r.before;
    later = r.later;
  }

  -- Only the first checkpoint stands at or before the offset.
  Nearest-first :
      (offset : ℕ) (c : Checkpoint S) (cs : List (Checkpoint S)) (low : ℕ)
      → c.uncompressed_offset ≤ offset
      → offset < low
      → Ascends low cs
      → Nearest offset (c ∷ cs) 0
  Nearest-first offset c cs low le lt a = record {
    best = c;
    found = refl;
    before = le;
    later = Ascends-above low offset cs a lt;
  }

  Nearest-from :
      (offset : ℕ) (c : Checkpoint S) (cs : List (Checkpoint S))
      → c.uncompressed_offset ≤ offset
      → Ascends c.uncompressed_offset cs
      → Nearest offset (c ∷ cs) (partition_point offset cs)
  unfolding partition_point
  Nearest-from offset c [] le a = Nearest-first offset c [] (offset + 1) le (omega arith) tt
  Nearest-from offset c (d ∷ cs) le (up, a) = elim (Bool-cases (leb d.uncompressed_offset offset)) [
    | inl near ↦ rw near (
        Nearest-cons offset c (d ∷ cs) (partition_point offset cs)
          (Nearest-from offset d cs (leb→le _ _ near) a))
    | inr far ↦
        rw far (
          Nearest-first offset c (d ∷ cs) d.uncompressed_offset le (leb→lt _ _ far)
            (omega arith, a))
  ]

  best_index-Nearest :
      (offset : ℕ) (cs : List (Checkpoint S))
      → IsValid cs
      → Nearest offset cs (best_index offset cs)
  unfolding best_index partition_point
  best_index-Nearest offset [] h = absurd h
  best_index-Nearest offset (c ∷ cs) (z, a) =
      rw (le→leb c.uncompressed_offset offset (omega arith)) (
        subst (Nearest offset (c ∷ cs)) (one_off (partition_point offset cs))
          (Nearest-from offset c cs (omega arith) a))
    where
      one_off : (n : ℕ) → n ≡ suc n - 1
      one_off n = omega arith

module _ {C S : Type 0} where
  -- On an index that validates, `best_checkpoint_for_offset` answers the index of a checkpoint of
  -- the table at or before the offset, such that every later checkpoint stands past it.
  pub best_checkpoint_for_offset-Nearest :
      (s : StreamIndex C S) (offset : ℕ)
      → validate s ≡ ok tt
      → Nearest offset s.checkpoints (best_checkpoint_for_offset s offset).0
  unfolding validate best_checkpoint_for_offset
  best_checkpoint_for_offset-Nearest s offset h =
      best_index-Nearest offset s.checkpoints (validate-IsValid s.checkpoints h)
