-- ===== src/Stream/Reader.antt =====
-- src/stream/reader.rs: the reader of an unpacked range. A method on `&mut self` takes the reader
-- and returns it as the call leaves it. `output` stands for the first `output_len` bytes of the
-- output buffer; the skip buffer is scratch.
pub mod Invariant
pub mod Decoding
pub mod Rounds
pub mod Steps
pub mod Serving
pub mod Delivery
pub mod Range
pub mod Retargeting
pub mod Fuel
use iluvatar.Common.{
  ℕ, zero, suc, ◌+◌, ◌-◌, ◌≡◌, min, Bool, true, false, not, ◌&&◌, List, [], Option, none, some,
  length, take, drop, ltb, leb, ◌==◌, is_empty, Bytes, if◌then◌else◌,
}
use iluvatar.Common.Sizes.{add_u64}
use iluvatar.Errors.{Error, Result, ok, err}
use iluvatar.Engine.Request.{EngineRequest, need_input, seek_and_read, output_ready, done, error}
use iluvatar.Stream.Index.{Checkpoint, StreamIndex, best_checkpoint_for_offset}
use iluvatar.Stream.Decoder.{
  DecompressStatus, continues, stream_end, DecompressResult, Decompressor,
}
use iluvatar.Stream.{buf_size}

-- `State`
pub data State : Type 0 where
  seek_to_checkpoint : State
  skipping : (remaining : ℕ) → State
  emitting : (remaining : ℕ) → State
  need_input_skipping : (remaining : ℕ) → State
  need_input_emitting : (remaining : ℕ) → State
  finished : State

-- `StreamReader`
pub record StreamReader (D S : Type 0) : Type 0 where
  pub decompressor : D
  pub checkpoint : Checkpoint S
  pub target_offset : ℕ
  pub target_len : ℕ
  pub state : State
  pub output : Bytes
  pub output_read : ℕ
  pub range_left : ℕ
  pub input_buf : Bytes
  pub input_pos : ℕ
  pub compressed_pos : ℕ
  pub unpacked_pos : ℕ
  pub eof : Bool
  pub stream_ended : Bool
  pub started : Bool
  pub unpacked_len : Option ℕ
  pub require_full : Bool

unfoldable pub clamp_len : Option ℕ → (offset len : ℕ) → ℕ
clamp_len (some total) offset len = min len (total - offset)
clamp_len none offset len = len

unfoldable pub is_stream_end : DecompressStatus → Bool
is_stream_end stream_end = true
is_stream_end continues = false

unfoldable pub is_some {ℓ} : {A : Type ℓ} → Option A → Bool
is_some none = false
is_some (some v) = true

unfoldable pub state_behind : (remaining beyond : ℕ) → (stream_ended : Bool) → State
state_behind remaining beyond stream_ended =
    if remaining == 0
    then finished
    else if stream_ended
    then finished
    else if ltb 0 beyond
    then skipping beyond
    else emitting remaining

unfoldable pub provided_state : State → State
provided_state (need_input_skipping remaining) = skipping remaining
provided_state (need_input_emitting remaining) = emitting remaining
provided_state st = st

unfoldable pub waiting_state : State → State
waiting_state (skipping remaining) = need_input_skipping remaining
waiting_state (emitting remaining) = need_input_emitting remaining
waiting_state st = st

-- What a step of the decoder did, of which neither count is left.
abbrev pub made_no_progress : DecompressResult → Bool
made_no_progress r = r.bytes_consumed == 0 && is_empty r.output

module _ {D S : Type 0} where
  -- The reader that `StreamReader::new` builds.
  abbrev pub fresh : D → Checkpoint S → Option ℕ → (offset len : ℕ) → StreamReader D S
  fresh decompressor checkpoint unpacked_len offset len = record {
    decompressor = decompressor;
    checkpoint = checkpoint;
    target_offset = offset;
    target_len = len;
    state = if len == 0 then finished else seek_to_checkpoint;
    output = [];
    output_read = 0;
    range_left = len;
    input_buf = [];
    input_pos = 0;
    compressed_pos = checkpoint.compressed_offset;
    unpacked_pos = 0;
    eof = false;
    stream_ended = false;
    started = false;
    unpacked_len = unpacked_len;
    require_full = is_some unpacked_len;
  }

  -- The decoder and the checkpoint, or the panic of the slice access.
  unfoldable pub with_parts :
      Result D
      → Option (Checkpoint S)
      → Option ℕ
      → (offset len : ℕ) → Option (Result (StreamReader D S))
  with_parts (err e) cp unpacked_len offset len = some (err e)
  with_parts (ok d) none unpacked_len offset len = none
  with_parts (ok d) (some cp) unpacked_len offset len =
      some (ok (fresh d cp unpacked_len offset (clamp_len unpacked_len offset len)))

  -- `StreamReader::new`, over what `codec.create` answers; `none` is a panic.
  unfoldable pub new :
      {C : Type 0}
      → (create : C → Result D) → StreamIndex C S
      → (offset len : ℕ) → Option (Result (StreamReader D S))
  new create index offset len =
      with_parts (create index.codec) (best_checkpoint_for_offset index offset).1 index.unpacked_len
        offset len

  -- `output_len - output_read`
  abbrev pub buffered : StreamReader D S → ℕ
  buffered p = length p.output - p.output_read

  unfoldable pub serveable : StreamReader D S → ℕ
  serveable p = min (buffered p) p.range_left

  unfoldable pub position : StreamReader D S → ℕ
  position p = if not p.started then p.target_offset else p.unpacked_pos - buffered p

  -- The fields that both cases of `seek_forward` set.
  abbrev pub retarget : (offset len : ℕ) → StreamReader D S → StreamReader D S
  retarget offset len p = record p { target_offset = offset; target_len = len; range_left = len }

  -- Output that has all been served is given up.
  unfoldable pub settle : StreamReader D S → StreamReader D S
  settle p =
      if leb (length p.output) p.output_read then record p { output = []; output_read = 0 } else p

  -- `seek_forward` on a reader that has been stepped, to an offset not behind its position.
  unfoldable pub seek_from : (position offset len : ℕ) → StreamReader D S → StreamReader D S
  seek_from position offset len p =
      let dropped = min (offset - position) (buffered p) in
      let q = settle (record p { output_read = p.output_read + dropped }) in
      let r = retarget offset (clamp_len p.unpacked_len offset len) q in
      record r {
        state =
            state_behind (r.target_len - serveable r) (offset - position - dropped) r.stream_ended;
      }

  unfoldable pub seek_forward :
      (offset len : ℕ) → StreamReader D S → Result (Unit {0}) × StreamReader D S
  seek_forward offset len p =
      if not p.started
      then (if ltb offset p.target_offset then (err Error.invalid_state, p) else (
        ok tt,
        record (retarget offset (clamp_len p.unpacked_len offset len) p) {
          state = if clamp_len p.unpacked_len offset len == 0 then finished else seek_to_checkpoint;
        },
      ))
      else if ltb offset (position p)
      then (err Error.invalid_state, p)
      else (ok tt, seek_from (position p) offset len p)

  unfoldable pub provide_data : Bytes → StreamReader D S → StreamReader D S
  provide_data bytes p = record p {
    input_buf = bytes;
    input_pos = 0;
    compressed_pos = add_u64 p.compressed_pos (length bytes);
    state = provided_state p.state;
  }

  unfoldable pub signal_eof : StreamReader D S → StreamReader D S
  signal_eof p = record p { eof = true }

  -- `read_output` into a buffer of `len` bytes: what is copied.
  unfoldable pub read_output : (len : ℕ) → StreamReader D S → Bytes × StreamReader D S
  read_output len p =
      let n = min (serveable p) len in
      if n == 0 then ([], p) else (
        take n (drop p.output_read p.output),
        settle (record p { output_read = p.output_read + n; range_left = p.range_left - n }),
      )

  abbrev pub end_stream : StreamReader D S → StreamReader D S
  end_stream p = record p { stream_ended = true; state = finished }

  -- `after_decode`
  unfoldable pub after_decode :
      DecompressResult
      → (had_input : Bool) → StreamReader D S
      → Option EngineRequest × StreamReader D S
  after_decode r had_input p =
      if is_stream_end r.status && had_input
      then (some done, end_stream p)
      else if leb (length p.input_buf) p.input_pos
      then (if p.eof
          then (if made_no_progress r
              then (if ltb 0 p.compressed_pos && not (is_stream_end r.status)
                  then (some (error Error.truncated_input), p)
                  else (some done, end_stream p))
              else (some need_input, p))
          else (some need_input, record p { state = waiting_state p.state }))
      else if made_no_progress r
      then (some (error Error.decompression_error), p)
      else (none, p)

  -- The reader behind a step of the decoder, before anything is made of its output.
  abbrev pub decoded : DecompressResult → StreamReader D S → StreamReader D S
  decoded r p = record p {
    input_pos = p.input_pos + r.bytes_consumed;
    unpacked_pos = add_u64 p.unpacked_pos (length r.output);
  }

  -- The end of the stream, once output is kept.
  unfoldable pub keep_end : DecompressStatus → StreamReader D S → StreamReader D S
  keep_end status p = if is_stream_end status then end_stream p else p

  unfoldable pub skipped :
      Result DecompressResult
      → (remaining : ℕ) → (had_input : Bool) → StreamReader D S
      → Option EngineRequest × StreamReader D S
  skipped (err e) remaining had_input p = (some (error e), p)
  skipped (ok r) remaining had_input p =
      let q = decoded r p in
      let left = q.target_len - length (drop remaining r.output) in
      if ltb remaining (length r.output)
      then (
        some output_ready,
        keep_end r.status (record q {
          output = drop remaining r.output;
          output_read = 0;
          state = if left == 0 then finished else emitting left;
        }),
      )
      else after_decode r had_input (record q {
        state =
            if remaining - length r.output == 0
            then emitting q.target_len
            else skipping (remaining - length r.output);
      })

  unfoldable pub emitted :
      Result DecompressResult
      → (remaining : ℕ) → (had_input : Bool) → StreamReader D S
      → Option EngineRequest × StreamReader D S
  emitted (err e) remaining had_input p = (some (error e), p)
  emitted (ok r) remaining had_input p =
      let q = decoded r p in
      let left = remaining - length r.output in
      if ltb 0 (length r.output)
      then (
        some output_ready,
        keep_end r.status (record q {
          output = r.output;
          output_read = 0;
          state = if left == 0 then finished else emitting left;
        }),
      )
      else after_decode r had_input (record q { state = emitting remaining })

  -- The arm for `SeekToCheckpoint`, behind the restoring.
  unfoldable pub restored :
      Result (Unit {0}) → StreamReader D S → Option EngineRequest × StreamReader D S
  restored (err e) p = (some (error e), p)
  restored (ok _) p =
      let ahead = p.target_offset - p.checkpoint.uncompressed_offset in
      (
        some (seek_and_read p.checkpoint.compressed_offset buf_size),
        record p {
          started = true;
          compressed_pos = p.checkpoint.compressed_offset;
          unpacked_pos = p.checkpoint.uncompressed_offset;
          state =
              if ltb 0 ahead then need_input_skipping ahead else need_input_emitting p.target_len;
        },
      )

  -- A range that is known to exist and was not delivered in full.
  unfoldable pub check_full : EngineRequest → StreamReader D S → EngineRequest
  check_full done p =
      if ltb 0 p.range_left && p.require_full then error Error.truncated_input else done
  check_full request p = request

  -- The body of the loop, with the loop as `next`.
  unfoldable pub answer :
      (StreamReader D S → Option (EngineRequest × StreamReader D S))
      → Option EngineRequest × StreamReader D S
      → Option (EngineRequest × StreamReader D S)
  answer next (some request, q) = some (check_full request q, q)
  answer next (none, q) = next q

  module _ (dec : Decompressor D S) where
    -- `skip`
    unfoldable pub skip :
        (remaining : ℕ) → StreamReader D S → Option EngineRequest × StreamReader D S
    skip remaining p =
        let input = drop p.input_pos p.input_buf in
        if is_empty input && not p.eof
        then (some need_input, record p { state = need_input_skipping remaining })
        else let (r, d) = dec.decompress input buf_size p.decompressor in
          skipped r remaining (not (is_empty input)) (record p { decompressor = d })

    -- `emit`
    unfoldable pub emit :
        (remaining : ℕ) → StreamReader D S → Option EngineRequest × StreamReader D S
    emit remaining p =
        let input = drop p.input_pos p.input_buf in
        if is_empty input && not p.eof
        then (some need_input, record p { state = need_input_emitting remaining })
        else let (r, d) = dec.decompress input (min remaining buf_size) p.decompressor in
          emitted r remaining (not (is_empty input)) (record p { decompressor = d })

    unfoldable pub step_in : State → StreamReader D S → Option EngineRequest × StreamReader D S
    step_in seek_to_checkpoint p =
        let (r, d) = dec.restore p.checkpoint p.decompressor in
        restored r (record p { decompressor = d })
    step_in (need_input_skipping remaining) p =
        if p.eof
        then skip remaining (record p { state = skipping remaining })
        else (some need_input, p)
    step_in (need_input_emitting remaining) p =
        if p.eof
        then emit remaining (record p { state = emitting remaining })
        else (some need_input, p)
    step_in (skipping remaining) p = skip remaining p
    step_in (emitting remaining) p = emit remaining p
    step_in finished p = (some done, p)

    unfoldable pub step_once : StreamReader D S → Option EngineRequest × StreamReader D S
    step_once p = if ltb 0 (serveable p) then (some output_ready, p) else step_in p.state p

    -- `step`; `none` is the loop cut off by its fuel.
    unfoldable pub step : (fuel : ℕ) → StreamReader D S → Option (EngineRequest × StreamReader D S)
    step zero p = none
    step (suc fuel) p = answer (step fuel) (step_once p)
