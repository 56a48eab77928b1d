-- ===== src/Stream/Reader/Invariant.antt =====
-- src/stream/reader.rs: the reader's invariant, over a stream and the content that it unpacks to.
use iluvatar.Common.{
  ℕ, ◌+◌, ◌-◌, ◌≤◌, ◌≡◌, ◌⊎◌, Bool, true, false, [], Option, none, some, length, take, drop, Bytes,
  ◌++◌,
}
use iluvatar.Engine.Request.{EngineRequest, need_input, seek_and_read, output_ready, done, error}
use iluvatar.Stream.Decoder.{Decompressor, Decodes, Restores}
use iluvatar.Stream.Reader.{
  State, seek_to_checkpoint, skipping, emitting, need_input_skipping, need_input_emitting, finished,
  StreamReader, buffered,
}

-- The range that a reader is aimed at, and whether it is known to exist.
pub record Aim : Type 0 where
  pub offset : ℕ
  pub len : ℕ
  pub full : Bool

module _ {D S : Type 0} where
  -- The decoded bytes that are not handed out yet.
  abbrev pub unread : StreamReader D S → Bytes
  unread p = drop p.output_read p.output

  -- The bytes of the range that have been handed out.
  abbrev pub served : StreamReader D S → ℕ
  served p = p.target_len - p.range_left

  -- What is buffered starts where the range goes on.
  abbrev pub InStep : StreamReader D S → Type 0
  InStep p = p.unpacked_pos ≡ p.target_offset + served p + buffered p

  -- All the input has been given to the decoder.
  abbrev pub Exhausted : StreamReader D S → Type 0
  Exhausted p = drop p.input_pos p.input_buf ≡ []

  pub record Skips (remaining : ℕ) (p : StreamReader D S) : Type 0 where
    pub empty : buffered p ≡ 0
    pub ahead : p.unpacked_pos + remaining ≡ p.target_offset
    pub untouched : p.range_left ≡ p.target_len

  pub record Emits (remaining : ℕ) (p : StreamReader D S) : Type 0 where
    pub left : remaining + buffered p ≡ p.range_left
    pub in_step : InStep p

  abbrev pub InState : State → StreamReader D S → Type 0
  InState seek_to_checkpoint p = p.started ≡ false
  InState (skipping remaining) p = Skips remaining p × (p.started ≡ true)
  InState (emitting remaining) p = Emits remaining p × (p.started ≡ true)
  InState (need_input_skipping remaining) p = Skips remaining p × (p.started ≡ true) × Exhausted p
  InState (need_input_emitting remaining) p = Emits remaining p × (p.started ≡ true) × Exhausted p
  InState finished p = (buffered p ≡ 0) ⊎ InStep p

  -- A reader before its first step.
  pub record Fresh (p : StreamReader D S) : Type 0 where
    pub empty : p.output ≡ []
    pub no_input : p.input_buf ≡ []
    pub no_eof : p.eof ≡ false
    pub untouched : p.range_left ≡ p.target_len
    pub behind : p.checkpoint.uncompressed_offset ≤ p.target_offset

module _ {D S : Type 0} {dec : Decompressor D S} {content : Bytes} (decoder : Decodes dec content)
    (stream : Bytes) where
  -- A reader whose decoder stands at its unpacked position, ahead of compressed bytes that are
  -- partly in the input buffer, and whose buffered output is the content before that position.
  pub record Live (p : StreamReader D S) : Type 0 where
    pub more : Bytes
    pub more_ok : more ≡ drop p.compressed_pos stream
    pub compressed_le : p.compressed_pos ≤ length stream
    pub at_eof : p.eof ≡ true → more ≡ []
    pub decoding : decoder.At (drop p.input_pos p.input_buf ++ more) p.unpacked_pos p.decompressor
    pub unpacked_le : p.unpacked_pos ≤ length content
    pub buffered_le : buffered p ≤ p.unpacked_pos
    pub unread_ok : unread p ≡ take (buffered p) (drop (p.unpacked_pos - buffered p) content)

module _ {D S : Type 0} {dec : Decompressor D S} {content : Bytes} (decoder : Decodes dec content)
    (stream : Bytes) (aim : Aim) where
  -- The invariant of a reader that has handed out `got` since it was aimed at its range.
  pub record IsValid (got : Bytes) (p : StreamReader D S) : Type 0 where
    pub at_offset : p.target_offset ≡ aim.offset
    pub at_len : p.target_len ≡ aim.len
    pub at_full : p.require_full ≡ aim.full
    pub restores : Restores decoder stream p.checkpoint
    pub checkpoint_le : p.checkpoint.compressed_offset ≤ length stream
    pub checkpoint_within : p.checkpoint.uncompressed_offset ≤ length content
    pub served_le : p.range_left ≤ p.target_len
    pub got_ok : got ≡ take (served p) (drop p.target_offset content)
    pub got_len : length got ≡ served p
    pub fresh : p.started ≡ false → Fresh p
    pub live : p.started ≡ true → Live decoder stream p
    pub in_state : InState p.state p

  -- What a round of the loop leaves: nothing is claimed behind an error, and a reader that asks for
  -- input has used what it had.
  abbrev pub Sound : Bytes → Option EngineRequest × StreamReader D S → Type 0
  Sound got (none, q) = IsValid got q
  Sound got (some need_input, q) = IsValid got q × (q.started ≡ true) × Exhausted q
  Sound got (some (seek_and_read offset len), q) =
      IsValid got q × (q.started ≡ true) × Exhausted q × (offset ≡ q.compressed_pos)
  Sound got (some output_ready, q) = IsValid got q
  Sound got (some done, q) = IsValid got q
  Sound got (some (error e), q) = Unit {0}
