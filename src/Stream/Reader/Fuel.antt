-- ===== src/Stream/Reader/Fuel.antt =====
-- src/stream/reader.rs, `step`: the rounds of the loop.
use iluvatar.Common.{
  ℕ, zero, suc, ◌+◌, ◌-◌, ◌≤◌, ◌<◌, ◌≡◌, ◌≢◌, refl, ap, arith, Bool, false, not, ◌&&◌, [], ◌∷◌,
  length, length-drop, drop, Bytes, if_elim, ltb, ltb→le, leb, leb→lt, ◌==◌, is_empty, Option, none,
  some,
}
use iluvatar.Errors.{Result, ok, err}
use iluvatar.Engine.Request.{EngineRequest}
use iluvatar.Stream.Decoder.{DecompressResult, Decompressor}
use iluvatar.Stream.Reader.{
  State, seek_to_checkpoint, skipping, emitting, need_input_skipping, need_input_emitting, finished,
  StreamReader, serveable, is_stream_end, made_no_progress, after_decode, decoded, skipped, emitted,
  skip, emit, restored, step_in, step_once, answer, step,
}

-- The unpacked bytes that a state has still to skip.
abbrev pub to_skip : State → ℕ
to_skip (skipping remaining) = remaining
to_skip (need_input_skipping remaining) = remaining
to_skip _ = 0

-- What is left to do with the input that the reader has.
abbrev pub work : {D S : Type 0} → StreamReader D S → ℕ
work p = length (drop p.input_pos p.input_buf) + to_skip p.state

-- A round that answers nothing leaves less work.
abbrev Falls : {D S : Type 0} → ℕ → Option EngineRequest × StreamReader D S → Type 0
Falls bound (none, q) = work q < bound
Falls bound (some request, q) = Unit {0}

progress_lem :
    (r : DecompressResult) → made_no_progress r ≡ false → 0 < r.bytes_consumed + length r.output
progress_lem r h = go r.output refl
  where
    go : (o : Bytes) → r.output ≡ o → 0 < r.bytes_consumed + length r.output
    go [] e = ground (arith, h, e)
    go (x ∷ xs) e = omega (arith, ap length e)

module _ {D S : Type 0} where
  after_decode-Falls :
      (bound : ℕ) (r : DecompressResult) (had_input : Bool) (p : StreamReader D S)
      → (made_no_progress r ≡ false → p.input_pos < length p.input_buf → work p < bound)
      → Falls bound (after_decode r had_input p)
  unfolding after_decode
  after_decode-Falls bound r had_input p h =
      if_elim (Falls bound) (is_stream_end r.status && had_input) (λ _. tt)
        (λ _.
          if_elim (Falls bound) (leb (length p.input_buf) p.input_pos)
            (λ _.
              if_elim (Falls bound) p.eof
                (λ _.
                  if_elim (Falls bound) (made_no_progress r)
                    (λ _.
                      if_elim (Falls bound) (ltb 0 p.compressed_pos && not (is_stream_end r.status))
                        (λ _. tt) (λ _. tt))
                    (λ _. tt))
                (λ _. tt))
            (λ left.
              if_elim (Falls bound) (made_no_progress r) (λ _. tt)
                (λ busy. h busy (leb→lt _ _ left))))

  skipped-Falls :
      (r : Result DecompressResult) (remaining : ℕ) (had_input : Bool) (p : StreamReader D S)
      → Falls (length (drop p.input_pos p.input_buf) + remaining) (skipped r remaining had_input p)
  unfolding skipped
  skipped-Falls (err e) m had_input p = tt
  skipped-Falls (ok r) m had_input p =
      let bound = length (drop p.input_pos p.input_buf) + m in
      if_elim (Falls bound) (ltb m (length r.output)) (λ _. tt)
        (λ short.
          let le = ltb→le _ _ short in
          if_elim
            (λ st. Falls bound (after_decode r had_input (record (decoded r p) { state = st })))
            (m - length r.output == 0)
            (λ all. after_decode-Falls bound r had_input _ (λ busy more. omega (
              arith,
              progress_lem r busy,
              more,
              le,
              length-drop p.input_pos p.input_buf,
              length-drop (p.input_pos + r.bytes_consumed) p.input_buf,
            )))
            (λ part. after_decode-Falls bound r had_input _ (λ busy more. omega (
              arith,
              progress_lem r busy,
              more,
              le,
              length-drop p.input_pos p.input_buf,
              length-drop (p.input_pos + r.bytes_consumed) p.input_buf,
            ))))

  emitted-Falls :
      (r : Result DecompressResult) (remaining : ℕ) (had_input : Bool) (p : StreamReader D S)
      → Falls (length (drop p.input_pos p.input_buf)) (emitted r remaining had_input p)
  unfolding emitted
  emitted-Falls (err e) m had_input p = tt
  emitted-Falls (ok r) m had_input p =
      let bound = length (drop p.input_pos p.input_buf) in
      if_elim (Falls bound) (ltb 0 (length r.output)) (λ _. tt)
        (λ nothing_out. after_decode-Falls bound r had_input _ (λ busy more. omega (
          arith,
          progress_lem r busy,
          more,
          ltb→le _ _ nothing_out,
          length-drop p.input_pos p.input_buf,
          length-drop (p.input_pos + r.bytes_consumed) p.input_buf,
        )))

  module _ (dec : Decompressor D S) where
    skip-Falls :
        (remaining : ℕ) (p : StreamReader D S)
        → Falls (length (drop p.input_pos p.input_buf) + remaining) (skip dec remaining p)
    unfolding skip
    skip-Falls m p =
        if_elim (Falls (length (drop p.input_pos p.input_buf) + m))
          (is_empty (drop p.input_pos p.input_buf) && not p.eof) (λ _. tt)
          (λ _. skipped-Falls _ m _ _)

    emit-Falls :
        (remaining : ℕ) (p : StreamReader D S)
        → Falls (length (drop p.input_pos p.input_buf)) (emit dec remaining p)
    unfolding emit
    emit-Falls m p =
        if_elim (Falls (length (drop p.input_pos p.input_buf)))
          (is_empty (drop p.input_pos p.input_buf) && not p.eof) (λ _. tt)
          (λ _. emitted-Falls _ m _ _)

    restored-Falls :
        (bound : ℕ) (r : Result (Unit {0})) (p : StreamReader D S) → Falls bound (restored r p)
    unfolding restored
    restored-Falls bound (err e) p = tt
    restored-Falls bound (ok u) p = tt

    Falls-le :
        (m n : ℕ) (o : Option EngineRequest × StreamReader D S) → m ≤ n → Falls m o → Falls n o
    Falls-le m n (none, q) h f = omega (arith, f)
    Falls-le m n (some request, q) h f = tt

    step_in-Falls :
        (st : State) (p : StreamReader D S)
        → Falls (length (drop p.input_pos p.input_buf) + to_skip st) (step_in dec st p)
    unfolding step_in
    step_in-Falls seek_to_checkpoint p = restored-Falls _ _ _
    step_in-Falls (skipping m) p = skip-Falls m p
    step_in-Falls (emitting m) p = Falls-le _ _ _ (omega arith) (emit-Falls m p)
    step_in-Falls (need_input_skipping m) p =
        if_elim (Falls (length (drop p.input_pos p.input_buf) + m)) p.eof (λ _. skip-Falls m _)
          (λ _. tt)
    step_in-Falls (need_input_emitting m) p =
        if_elim (Falls (length (drop p.input_pos p.input_buf) + 0)) p.eof
          (λ _. Falls-le _ _ _ (omega arith) (emit-Falls m _)) (λ _. tt)
    step_in-Falls finished p = tt

    step_once-Falls : (p : StreamReader D S) → Falls (work p) (step_once dec p)
    unfolding step_once
    step_once-Falls p =
        if_elim (Falls (work p)) (ltb 0 (serveable p)) (λ _. tt) (λ _. step_in-Falls p.state p)

    answer-ne-none :
        (next : StreamReader D S → Option (EngineRequest × StreamReader D S)) (bound : ℕ)
        (o : Option EngineRequest × StreamReader D S)
        → ((q : StreamReader D S) → work q < bound → next q ≢ none)
        → Falls bound o
        → answer next o ≢ none
    unfolding answer
    answer-ne-none next bound (some request, q) loop f = λ e. cc
    answer-ne-none next bound (none, q) loop f = loop q f

    -- A step returns, whatever the decoder does: the loop is never cut off by its fuel, if that is
    -- more than the bytes of input that the reader holds and the unpacked bytes it has to skip.
    pub step-ne-none :
        (fuel : ℕ) (p : StreamReader D S)
        → length (drop p.input_pos p.input_buf) + to_skip p.state < fuel
        → step dec fuel p ≢ none
    unfolding step
    step-ne-none zero p h = absurd (omega arith)
    step-ne-none (suc fuel) p h =
        answer-ne-none (step dec fuel) (work p) (step_once dec p)
          (λ q less. step-ne-none fuel q (omega (arith, less))) (step_once-Falls p)
