-- ===== src/Stream/Index.antt =====
-- src/stream/index.rs: the checkpoint table. The codec and the decoder states that checkpoints hold
-- are never looked at here, so their types are parameters.
pub mod Best
pub mod Thinning
use iluvatar.Common.{
  ℕ, zero, suc, ◌+◌, ◌-◌, ◌%◌, Bool, true, false, ◌||◌, ◌&&◌, not, List, [], ◌∷◌, Option, none,
  some, length, get_elem?, leb, ltb, ◌==◌, if◌then◌else◌,
}
use iluvatar.Errors.{Error, Result, ok, err}

-- `Checkpoint` of src/compress/checkpoint.rs
pub record Checkpoint (S : Type 0) : Type 0 where
  pub compressed_offset : ℕ
  pub bit_offset : ℕ
  pub uncompressed_offset : ℕ
  pub state : S

-- `StreamIndex`
pub record StreamIndex (C S : Type 0) : Type 0 where
  pub codec : C
  pub compressed_len : Option ℕ
  pub unpacked_len : Option ℕ
  pub checkpoints : List (Checkpoint S)
  pub indexed_to : ℕ
  pub complete : Bool

-- `StreamIndex::new`; the state is `CheckpointState::None`.
abbrev pub new : {C S : Type 0} → S → C → Option ℕ → StreamIndex C S
new no_state codec compressed_len = record {
  codec = codec;
  compressed_len = compressed_len;
  unpacked_len = none;
  checkpoints =
      record { compressed_offset = 0; bit_offset = 0; uncompressed_offset = 0; state = no_state }
      ∷ [];
  indexed_to = 0;
  complete = false;
}

module _ {S : Type 0} where
  -- `partition_point(|cp| cp.uncompressed_offset <= offset)`: how many lead the list. On a list
  -- that is not partitioned the library leaves the answer open.
  unfoldable pub partition_point : ℕ → List (Checkpoint S) → ℕ
  partition_point offset [] = 0
  partition_point offset (c ∷ cs) =
      if leb c.uncompressed_offset offset then suc (partition_point offset cs) else 0

  -- `best_checkpoint_for_offset`: the index; the slice access panics if there is none.
  unfoldable pub best_index : ℕ → List (Checkpoint S) → ℕ
  best_index offset cs = partition_point offset cs - 1

  unfoldable pub last : List (Checkpoint S) → Option (Checkpoint S)
  last [] = none
  last (c ∷ []) = some c
  last (c ∷ d ∷ cs) = last (d ∷ cs)

  -- `retain`: checkpoint `i` stays if `i` is even or the last.
  unfoldable pub retain_from : ℕ → ℕ → List (Checkpoint S) → List (Checkpoint S)
  retain_from n i [] = []
  retain_from n i (c ∷ cs) =
      let rest = retain_from n (suc i) cs in if i % 2 == 0 || i == n - 1 then c ∷ rest else rest

  -- The checkpoints that `thin` leaves, and whether any was dropped.
  unfoldable pub thin_checkpoints : List (Checkpoint S) → List (Checkpoint S) × Bool
  thin_checkpoints [] = ([], false)
  thin_checkpoints (c ∷ []) = (c ∷ [], false)
  thin_checkpoints (c ∷ d ∷ []) = (c ∷ [], true)
  thin_checkpoints (c ∷ d ∷ e ∷ cs) =
      (retain_from (length (c ∷ d ∷ e ∷ cs)) 0 (c ∷ d ∷ e ∷ cs), true)

  -- `windows(2).any(|w| w[0].uncompressed_offset > w[1].uncompressed_offset)`
  unfoldable pub has_descent : List (Checkpoint S) → Bool
  has_descent [] = false
  has_descent (c ∷ []) = false
  has_descent (c ∷ d ∷ cs) = ltb d.uncompressed_offset c.uncompressed_offset || has_descent (d ∷ cs)

  unfoldable pub validate_checkpoints : List (Checkpoint S) → Result (Unit {0})
  validate_checkpoints [] = err Error.index_error
  validate_checkpoints (c ∷ cs) =
      if not (c.uncompressed_offset == 0)
      then err Error.index_error
      else if has_descent (c ∷ cs)
      then err Error.index_error
      else ok tt

module _ {C S : Type 0} where
  -- `best_checkpoint_for_offset`
  unfoldable pub best_checkpoint_for_offset : StreamIndex C S → ℕ → ℕ × Option (Checkpoint S)
  best_checkpoint_for_offset s offset =
      let i = best_index offset s.checkpoints in (i, get_elem? s.checkpoints i)

  -- `last_checkpoint`; `none` is the panic of `expect`.
  unfoldable pub last_checkpoint : StreamIndex C S → Option (Checkpoint S)
  last_checkpoint s = last s.checkpoints

  -- `thin`
  unfoldable pub thin : StreamIndex C S → StreamIndex C S × Bool
  thin s =
      let (cs, dropped) = thin_checkpoints s.checkpoints in (record s { checkpoints = cs }, dropped)

  -- `validate`
  unfoldable pub validate : StreamIndex C S → Result (Unit {0})
  validate s = validate_checkpoints s.checkpoints
