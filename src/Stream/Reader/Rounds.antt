-- ===== src/Stream/Reader/Rounds.antt =====
-- src/stream/reader.rs, `step_once`: each round of the loop keeps the invariant.
use iluvatar.Common.{
  ℕ, ◌+◌, ◌-◌, ◌≤◌, ◌≡◌, refl, sym, subst, arith, min, Bool, true, not, ◌&&◌, length, length-drop,
  drop, drop_all, Bytes, if_elim, inl, inr, ltb, leb, ltb→lt, ltb→le, leb→le, ◌==◌,
}
use iluvatar.Common.Sizes.{add_u64, IsU64}
use iluvatar.Errors.{ok}
use iluvatar.Stream.{buf_size}
use iluvatar.Stream.Decoder.{DecompressResult, Decompressor, Decodes}
use iluvatar.Stream.Reader.{
  State, skipping, emitting, finished, StreamReader, buffered, is_stream_end, waiting_state,
  made_no_progress, end_stream, after_decode, decoded, keep_end, skipped, emitted,
}
use iluvatar.Stream.Reader.Invariant.{Aim, Exhausted, Skips, Emits, InState, IsValid, Sound}
use iluvatar.Stream.Reader.Decoding.{DecodedFrom, kept-Live, passed-Live, restated-Live}

module _ {D S : Type 0} {dec : Decompressor D S} {content : Bytes} (decoder : Decodes dec content)
    (stream : Bytes) (aim : Aim) (content_fits : IsU64 (length content)) where
  -- A reader that has been started, in another state.
  pub restated :
      (st : State) (b : Bool) (got : Bytes) (p : StreamReader D S)
      → p.started ≡ true
      → InState st (record p { state = st; stream_ended = b })
      → IsValid decoder stream aim got p
      → IsValid decoder stream aim got (record p { state = st; stream_ended = b })
  restated st b got p on here v = record {
    at_offset = v.at_offset;
    at_len = v.at_len;
    at_full = v.at_full;
    restores = v.restores;
    checkpoint_le = v.checkpoint_le;
    checkpoint_within = v.checkpoint_within;
    served_le = v.served_le;
    got_ok = v.got_ok;
    got_len = v.got_len;
    fresh = λ off. absurd (cc);
    live = λ _. restated-Live decoder stream content_fits st b p (v.live on);
    in_state = here;
  }

  -- A state of decoding, with nothing buffered.
  record Decoding (st : State) (p : StreamReader D S) : Type 0 where
    empty : buffered p ≡ 0
    here : p.state ≡ st
    waits : Exhausted p → InState (waiting_state st) (record p { state = waiting_state st })

  after_decode-Sound :
      (r : DecompressResult) (had_input : Bool) (st : State) (got : Bytes) (p : StreamReader D S)
      → p.started ≡ true
      → Decoding st p
      → IsValid decoder stream aim got p
      → Sound decoder stream aim got (after_decode r had_input p)
  unfolding after_decode
  after_decode-Sound r had_input st got p on k v =
      let ending : IsValid decoder stream aim got (end_stream p) =
        restated finished true got p on (inl k.empty) v in
      let sound = Sound decoder stream aim got in
      if_elim sound (is_stream_end r.status && had_input) (λ _. ending)
        (λ _.
          if_elim sound (leb (length p.input_buf) p.input_pos)
            (λ all_given.
              let nothing : Exhausted p = drop_all p.input_pos p.input_buf (leb→le _ _ all_given) in
              if_elim sound p.eof
                (λ _.
                  if_elim sound (made_no_progress r)
                    (λ _.
                      if_elim sound (ltb 0 p.compressed_pos && not (is_stream_end r.status))
                        (λ _. tt) (λ _. ending))
                    (λ _. (v, on, nothing)))
                (λ _. (waiting nothing, on, nothing)))
            (λ _. if_elim sound (made_no_progress r) (λ _. tt) (λ _. v)))
    where
      waiting :
          Exhausted p → IsValid decoder stream aim got (record p { state = waiting_state p.state })
      waiting nothing =
          restated (waiting_state p.state) p.stream_ended got p on
            (subst (λ s. InState (waiting_state s) (record p { state = waiting_state s }))
              (sym k.here) (k.waits nothing))
            v

  -- A reader that keeps the decoder's output from its byte `j` on.
  abbrev kept : (j : ℕ) → State → Bool → DecompressResult → D → StreamReader D S → StreamReader D S
  kept j st b r d p = record (decoded r p) {
    decompressor = d;
    output = drop j r.output;
    output_read = 0;
    state = st;
    stream_ended = b;
  }

  kept-IsValid :
      (room j : ℕ) (st : State) (b : Bool) (got : Bytes) (p : StreamReader D S)
      (r : DecompressResult) (d : D) (on : p.started ≡ true) (v : IsValid decoder stream aim got p)
      → j ≤ length r.output
      → DecodedFrom decoder stream content_fits room p (v.live on).more r d
      → InState st (kept j st b r d p)
      → IsValid decoder stream aim got (kept j st b r d p)
  kept-IsValid room j st b got p r d on v le c here = record {
    at_offset = v.at_offset;
    at_len = v.at_len;
    at_full = v.at_full;
    restores = v.restores;
    checkpoint_le = v.checkpoint_le;
    checkpoint_within = v.checkpoint_within;
    served_le = v.served_le;
    got_ok = v.got_ok;
    got_len = v.got_len;
    fresh = λ off. absurd (cc);
    live = λ _. kept-Live decoder stream content_fits room j st b p r d le (v.live on) c;
    in_state = here;
  }

  -- A reader that keeps nothing of the decoder's output.
  abbrev passed : State → Bool → DecompressResult → D → StreamReader D S → StreamReader D S
  passed st b r d p = record (decoded r p) { decompressor = d; state = st; stream_ended = b }

  passed-IsValid :
      (room : ℕ) (st : State) (b : Bool) (got : Bytes) (p : StreamReader D S) (r : DecompressResult)
      (d : D) (on : p.started ≡ true) (v : IsValid decoder stream aim got p)
      → buffered p ≡ 0
      → DecodedFrom decoder stream content_fits room p (v.live on).more r d
      → InState st (passed st b r d p)
      → IsValid decoder stream aim got (passed st b r d p)
  passed-IsValid room st b got p r d on v empty c here = record {
    at_offset = v.at_offset;
    at_len = v.at_len;
    at_full = v.at_full;
    restores = v.restores;
    checkpoint_le = v.checkpoint_le;
    checkpoint_within = v.checkpoint_within;
    served_le = v.served_le;
    got_ok = v.got_ok;
    got_len = v.got_len;
    fresh = λ off. absurd (cc);
    live = λ _. passed-Live decoder stream content_fits room st b p r d empty (v.live on) c;
    in_state = here;
  }

  moved :
      (room : ℕ) (p : StreamReader D S) (more : Bytes) (r : DecompressResult) (d : D)
      → DecodedFrom decoder stream content_fits room p more r d
      → add_u64 p.unpacked_pos (length r.output) ≡ p.unpacked_pos + length r.output
  moved room p more r d c = omega (arith, c.within, content_fits)

  pub skipped-Sound :
      (r : DecompressResult) (d : D) (remaining : ℕ) (had_input : Bool) (got : Bytes)
      (p : StreamReader D S) (on : p.started ≡ true) (v : IsValid decoder stream aim got p)
      → Skips remaining p
      → DecodedFrom decoder stream content_fits buf_size p (v.live on).more r d
      → Sound decoder stream aim got
          (skipped (ok r) remaining had_input (record p { decompressor = d }))
  unfolding skipped keep_end waiting_state
  skipped-Sound r d m had_input got p on v s c =
      let at = moved buf_size p (v.live on).more r d c in
      let sound = Sound decoder stream aim got in
      if_elim sound (ltb m (length r.output))
        (λ past.
          let le : m ≤ length r.output = omega (arith, ltb→lt _ _ past) in
          let size = length-drop m r.output in
          let left = p.target_len - length (drop m r.output) in
          if_elim (λ q. IsValid decoder stream aim got q) (is_stream_end r.status)
            (λ _.
              kept-IsValid buf_size m finished true got p r d on v le c
                (inr (omega (arith, at, size, s.ahead, s.untouched))))
            (λ _.
              if_elim (λ st. IsValid decoder stream aim got (kept m st p.stream_ended r d p))
                (left == 0)
                (λ _.
                  kept-IsValid buf_size m finished p.stream_ended got p r d on v le c
                    (inr (omega (arith, at, size, s.ahead, s.untouched))))
                (λ some_left.
                  kept-IsValid buf_size m (emitting left) p.stream_ended got p r d on v le c (
                    record {
                      left = ground (arith, size, s.untouched, some_left);
                      in_step = omega (arith, at, size, s.ahead, s.untouched);
                    },
                    on,
                  ))))
        (λ short.
          let le : length r.output ≤ m = ltb→le _ _ short in
          if_elim (λ st. sound (after_decode r had_input (passed st p.stream_ended r d p)))
            (m - length r.output == 0)
            (λ all.
              let emits : Emits p.target_len (passed (emitting p.target_len) p.stream_ended r d p) =
                record {
                  left = omega (arith, s.empty, s.untouched);
                  in_step = ground (arith, at, s.ahead, s.untouched, s.empty, le, all);
                } in
              after_decode-Sound r had_input (emitting p.target_len) got _ on
                (record {
                  empty = s.empty;
                  here = refl;
                  waits = λ nothing.
                      (record { left = emits.left; in_step = emits.in_step }, on, nothing);
                })
                (passed-IsValid buf_size (emitting p.target_len) p.stream_ended got p r d on v
                  s.empty c (emits, on)))
            (λ part.
              let left = m - length r.output in
              let skips : Skips left (passed (skipping left) p.stream_ended r d p) = record {
                empty = s.empty;
                ahead = omega (arith, at, s.ahead, le);
                untouched = s.untouched;
              } in
              after_decode-Sound r had_input (skipping left) got _ on
                (record {
                  empty = s.empty;
                  here = refl;
                  waits = λ nothing. (
                    record {
                      empty = skips.empty;
                      ahead = skips.ahead;
                      untouched = skips.untouched;
                    },
                    on,
                    nothing,
                  );
                })
                (passed-IsValid buf_size (skipping left) p.stream_ended got p r d on v s.empty c
                  (skips, on))))

  pub emitted-Sound :
      (r : DecompressResult) (d : D) (remaining : ℕ) (had_input : Bool) (got : Bytes)
      (p : StreamReader D S) (on : p.started ≡ true) (v : IsValid decoder stream aim got p)
      → Emits remaining p
      → buffered p ≡ 0
      → DecodedFrom decoder stream content_fits (min remaining buf_size) p (v.live on).more r d
      → Sound decoder stream aim got
          (emitted (ok r) remaining had_input (record p { decompressor = d }))
  unfolding emitted keep_end waiting_state
  emitted-Sound r d m had_input got p on v s empty c =
      let room = min m buf_size in
      let at = moved room p (v.live on).more r d c in
      let sound = Sound decoder stream aim got in
      let left = m - length r.output in
      let fits : length r.output ≤ m = omega (arith, c.fits) in
      if_elim sound (ltb 0 (length r.output))
        (λ _.
          if_elim (λ q. IsValid decoder stream aim got q) (is_stream_end r.status)
            (λ _.
              kept-IsValid room 0 finished true got p r d on v (omega arith) c
                (inr (omega (arith, at, s.left, s.in_step, empty))))
            (λ _.
              if_elim (λ st. IsValid decoder stream aim got (kept 0 st p.stream_ended r d p))
                (left == 0)
                (λ _.
                  kept-IsValid room 0 finished p.stream_ended got p r d on v (omega arith) c
                    (inr (omega (arith, at, s.left, s.in_step, empty))))
                (λ _.
                  kept-IsValid room 0 (emitting left) p.stream_ended got p r d on v (omega arith) c
                    (
                      record {
                        left = omega (arith, fits, s.left, empty);
                        in_step = omega (arith, at, s.left, s.in_step, empty);
                      },
                      on,
                    ))))
        (λ nothing_out.
          let none_out : length r.output ≡ 0 = omega (arith, ltb→le _ _ nothing_out) in
          let emits : Emits m (passed (emitting m) p.stream_ended r d p) = record {
            left = omega (arith, s.left);
            in_step = omega (arith, at, s.in_step, none_out);
          } in
          after_decode-Sound r had_input (emitting m) got _ on
            (record {
              empty = empty;
              here = refl;
              waits =
                  λ nothing. (record { left = emits.left; in_step = emits.in_step }, on, nothing);
            })
            (passed-IsValid room (emitting m) p.stream_ended got p r d on v empty c (emits, on)))
