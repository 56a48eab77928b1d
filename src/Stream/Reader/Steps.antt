-- ===== src/Stream/Reader/Steps.antt =====
-- src/stream/reader.rs, `step`: whole steps keep the invariant.
use iluvatar.Common.{
  ℕ, zero, suc, ◌-◌, ◌≡◌, refl, sym, subst, ap, ◌∙◌, arith, min, Bool, true, false, not, ◌&&◌, [],
  ◌∷◌, ◌++◌, length, take, drop, drop_all, Bytes, if_elim, ltb, ltb→le, is_empty, Option, none,
  some,
}
use iluvatar.Common.Sizes.{IsU64}
use iluvatar.Errors.{Result, ok, err}
use iluvatar.Engine.Request.{EngineRequest, need_input, seek_and_read, output_ready, done, error}
use iluvatar.Stream.{buf_size}
use iluvatar.Stream.Decoder.{DecompressResult, Decompressor, Decodes}
use iluvatar.Stream.Reader.{
  State, seek_to_checkpoint, skipping, emitting, need_input_skipping, need_input_emitting, finished,
  StreamReader, buffered, serveable, skipped, emitted, skip, emit, restored, step_in, step_once,
  check_full, answer, step,
}
use iluvatar.Stream.Reader.Invariant.{Aim, Exhausted, Skips, Emits, InState, Fresh, IsValid, Sound}
use iluvatar.Stream.Reader.Rounds.{restated, skipped-Sound, emitted-Sound}

idle_input : (xs : Bytes) (eof : Bool) → (is_empty xs && not eof) ≡ true → xs ≡ []
idle_input [] eof h = refl
idle_input (x ∷ xs) eof h = absurd (cc)

idle_eof : (xs : Bytes) (eof : Bool) → (is_empty xs && not eof) ≡ false → xs ≡ [] → eof ≡ true
idle_eof [] true h e = refl
idle_eof [] false h e = absurd (cc)
idle_eof (x ∷ xs) eof h e = absurd (cc)

module _ {D S : Type 0} {dec : Decompressor D S} {content : Bytes} (decoder : Decodes dec content)
    (stream : Bytes) (aim : Aim) (content_fits : IsU64 (length content)) where
  skip-Sound :
      (remaining : ℕ) (got : Bytes) (p : StreamReader D S)
      → p.started ≡ true
      → IsValid decoder stream aim got p
      → Skips remaining p
      → Sound decoder stream aim got (skip dec remaining p)
  unfolding skip
  skip-Sound m got p on v s =
      let input = drop p.input_pos p.input_buf in
      let l = v.live on in
      if_elim (Sound decoder stream aim got) (is_empty input && not p.eof)
        (λ idle.
          let nothing : Exhausted p = idle_input input p.eof idle in
          (
            restated decoder stream aim content_fits (need_input_skipping m) p.stream_ended got p on
                (record { empty = s.empty; ahead = s.ahead; untouched = s.untouched }, on, nothing)
                v,
            on,
            nothing,
          ))
        (λ given.
          go (λ e. l.at_eof (idle_eof input p.eof given e))
            (dec.decompress input buf_size p.decompressor) refl)
    where
      go :
          (drop p.input_pos p.input_buf ≡ [] → (v.live on).more ≡ [])
          → (o : Result DecompressResult × D)
          → dec.decompress (drop p.input_pos p.input_buf) buf_size p.decompressor ≡ o
          → Sound decoder stream aim got (
              skipped o.0 m
                (not (is_empty (drop p.input_pos p.input_buf)))
                (record p { decompressor = o.1 }))
      go last (err e, d) eq = unfold skipped in tt
      go last (ok r, d) eq = skipped-Sound decoder stream aim content_fits r d m _ got p on v s (
          decoder.decodes (drop p.input_pos p.input_buf) (v.live on).more buf_size p.unpacked_pos
            p.decompressor d r last (v.live on).decoding eq)

  emit-Sound :
      (remaining : ℕ) (got : Bytes) (p : StreamReader D S)
      → p.started ≡ true
      → IsValid decoder stream aim got p
      → Emits remaining p
      → buffered p ≡ 0
      → Sound decoder stream aim got (emit dec remaining p)
  unfolding emit
  emit-Sound m got p on v s empty =
      let input = drop p.input_pos p.input_buf in
      let l = v.live on in
      if_elim (Sound decoder stream aim got) (is_empty input && not p.eof)
        (λ idle.
          let nothing : Exhausted p = idle_input input p.eof idle in
          (
            restated decoder stream aim content_fits (need_input_emitting m) p.stream_ended got p on
                (record { left = s.left; in_step = s.in_step }, on, nothing) v,
            on,
            nothing,
          ))
        (λ given.
          go (λ e. l.at_eof (idle_eof input p.eof given e))
            (dec.decompress input (min m buf_size) p.decompressor) refl)
    where
      go :
          (drop p.input_pos p.input_buf ≡ [] → (v.live on).more ≡ [])
          → (o : Result DecompressResult × D)
          → dec.decompress (drop p.input_pos p.input_buf) (min m buf_size) p.decompressor ≡ o
          → Sound decoder stream aim got (
              emitted o.0 m
                (not (is_empty (drop p.input_pos p.input_buf)))
                (record p { decompressor = o.1 }))
      go last (err e, d) eq = unfold emitted in tt
      go last (ok r, d) eq =
          emitted-Sound decoder stream aim content_fits r d m _ got p on v s empty (
            decoder.decodes (drop p.input_pos p.input_buf) (v.live on).more (min m buf_size)
              p.unpacked_pos p.decompressor d r last (v.live on).decoding eq)

  -- A reader put at its checkpoint.
  abbrev at_checkpoint : D → StreamReader D S → State → StreamReader D S
  at_checkpoint d p st = record p {
    decompressor = d;
    started = true;
    compressed_pos = p.checkpoint.compressed_offset;
    unpacked_pos = p.checkpoint.uncompressed_offset;
    state = st;
  }

  restored-Sound :
      (d : D) (got : Bytes) (p : StreamReader D S)
      → Fresh p
      → IsValid decoder stream aim got p
      → dec.restore p.checkpoint p.decompressor ≡ (ok tt, d)
      → Sound decoder stream aim got (restored (ok tt) (record p { decompressor = d }))
  unfolding restored
  restored-Sound d got p f v eq =
      let ahead = p.target_offset - p.checkpoint.uncompressed_offset in
      if_elim
        (λ st.
          Sound decoder stream aim got
            (some (seek_and_read p.checkpoint.compressed_offset buf_size), at_checkpoint d p st))
        (ltb 0 ahead)
        (λ far. (valid (need_input_skipping ahead) (skips, refl, nothing), refl, nothing, refl))
        (λ near. (
          valid (need_input_emitting p.target_len) (emits near, refl, nothing),
          refl,
          nothing,
          refl,
        ))
    where
      nothing : drop p.input_pos p.input_buf ≡ []
      nothing = drop_all p.input_pos p.input_buf (omega (arith, ap length f.no_input))

      no_output : buffered p ≡ 0
      no_output = omega (arith, ap length f.empty)

      skips : Skips (p.target_offset - p.checkpoint.uncompressed_offset) (
          at_checkpoint d p
            (need_input_skipping (p.target_offset - p.checkpoint.uncompressed_offset)))
      skips = record { empty = no_output; ahead = omega (arith, f.behind); untouched = f.untouched }

      emits :
          ltb 0 (p.target_offset - p.checkpoint.uncompressed_offset) ≡ false
          → Emits p.target_len (at_checkpoint d p (need_input_emitting p.target_len))
      emits near = record {
        left = omega (arith, no_output, f.untouched);
        in_step = omega (arith, no_output, f.untouched, f.behind, ltb→le _ _ near);
      }

      valid :
          (st : State)
          → InState st (at_checkpoint d p st)
          → IsValid decoder stream aim got (at_checkpoint d p st)
      valid st here = record {
        at_offset = v.at_offset;
        at_len = v.at_len;
        at_full = v.at_full;
        restores = v.restores;
        checkpoint_le = v.checkpoint_le;
        checkpoint_within = v.checkpoint_within;
        served_le = v.served_le;
        got_ok = v.got_ok;
        got_len = v.got_len;
        fresh = λ off. absurd (cc);
        live = λ _. record {
          more = drop p.checkpoint.compressed_offset stream;
          more_ok = refl;
          compressed_le = v.checkpoint_le;
          at_eof = λ e. absurd (cc);
          decoding =
              subst
                (λ xs.
                  decoder.At (xs ++ drop p.checkpoint.compressed_offset stream)
                    p.checkpoint.uncompressed_offset d)
                (sym nothing) (v.restores p.decompressor d eq);
          unpacked_le = v.checkpoint_within;
          buffered_le = omega (arith, no_output);
          unread_ok =
              drop_all p.output_read p.output (omega (arith, no_output))
              ∙ sym (
                  ap (λ n. take n (drop (p.checkpoint.uncompressed_offset - n) content)) no_output);
        };
        in_state = here;
      }

  step_in-Sound :
      (st : State) (got : Bytes) (p : StreamReader D S)
      → IsValid decoder stream aim got p
      → InState st p
      → serveable p ≡ 0
      → Sound decoder stream aim got (step_in dec st p)
  unfolding step_in serveable
  step_in-Sound seek_to_checkpoint got p v off none_left =
      go (dec.restore p.checkpoint p.decompressor) refl
    where
      go :
          (o : Result (Unit {0}) × D)
          → dec.restore p.checkpoint p.decompressor ≡ o
          → Sound decoder stream aim got (restored o.0 (record p { decompressor = o.1 }))
      go (err e, d) eq = unfold restored in tt
      go (ok _, d) eq = restored-Sound d got p (v.fresh off) v eq
  step_in-Sound (skipping m) got p v (s, on) none_left = skip-Sound m got p on v s
  step_in-Sound (emitting m) got p v (s, on) none_left =
      emit-Sound m got p on v s (omega (arith, s.left, none_left))
  step_in-Sound (need_input_skipping m) got p v (s, on, nothing) none_left =
      if_elim (Sound decoder stream aim got) p.eof
        (λ _.
          skip-Sound m got _ on
            (restated decoder stream aim content_fits (skipping m) p.stream_ended got p on
              (record { empty = s.empty; ahead = s.ahead; untouched = s.untouched }, on) v)
            (record { empty = s.empty; ahead = s.ahead; untouched = s.untouched }))
        (λ _. (v, on, nothing))
  step_in-Sound (need_input_emitting m) got p v (s, on, nothing) none_left =
      if_elim (Sound decoder stream aim got) p.eof
        (λ _.
          emit-Sound m got _ on
            (restated decoder stream aim content_fits (emitting m) p.stream_ended got p on
              (record { left = s.left; in_step = s.in_step }, on) v)
            (record { left = s.left; in_step = s.in_step }) (omega (arith, s.left, none_left)))
        (λ _. (v, on, nothing))
  step_in-Sound finished got p v here none_left = v

  pub step_once-Sound :
      (got : Bytes) (p : StreamReader D S)
      → IsValid decoder stream aim got p
      → Sound decoder stream aim got (step_once dec p)
  unfolding step_once
  step_once-Sound got p v =
      if_elim (Sound decoder stream aim got) (ltb 0 (serveable p)) (λ _. v)
        (λ none_left.
          step_in-Sound p.state got p v v.in_state (omega (arith, ltb→le _ _ none_left)))

  check_full-Sound :
      (request : EngineRequest) (got : Bytes) (q : StreamReader D S)
      → Sound decoder stream aim got (some request, q)
      → Sound decoder stream aim got (some (check_full request q), q)
  unfolding check_full
  check_full-Sound need_input got q s = s
  check_full-Sound (seek_and_read offset len) got q s = s
  check_full-Sound output_ready got q s = s
  check_full-Sound (error e) got q s = tt
  check_full-Sound done got q s =
      if_elim (λ r. Sound decoder stream aim got (some r, q)) (ltb 0 q.range_left && q.require_full)
        (λ _. tt) (λ _. s)

  -- A step that returns leaves the invariant as a round does.
  abbrev pub Answered : Bytes → Option (EngineRequest × StreamReader D S) → Type 0
  Answered got none = Unit {0}
  Answered got (some (request, q)) = Sound decoder stream aim got (some request, q)

  answer-Answered :
      (next : StreamReader D S → Option (EngineRequest × StreamReader D S)) (got : Bytes)
      (o : Option EngineRequest × StreamReader D S)
      → ((q : StreamReader D S) → IsValid decoder stream aim got q → Answered got (next q))
      → Sound decoder stream aim got o
      → Answered got (answer next o)
  unfolding answer
  answer-Answered next got (some request, q) loop s = check_full-Sound request got q s
  answer-Answered next got (none, q) loop s = loop q s

  pub step-Answered :
      (fuel : ℕ) (got : Bytes) (p : StreamReader D S)
      → IsValid decoder stream aim got p
      → Answered got (step dec fuel p)
  unfolding step
  step-Answered zero got p v = tt
  step-Answered (suc fuel) got p v =
      answer-Answered (step dec fuel) got (step_once dec p) (λ q. step-Answered fuel got q)
        (step_once-Sound got p v)
