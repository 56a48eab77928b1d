-- ===== src/Stream/Reader/Serving.antt =====
-- src/stream/reader.rs, `read_output`: what a call hands out.
use iluvatar.Common.{
  ℕ, ◌+◌, ◌-◌, ◌≤◌, ◌<◌, ◌≡◌, refl, sym, subst, ap, ◌∙◌, arith, min, true, [], ◌++◌, length, take,
  drop, drop-drop, drop-take, length-drop, length-append, length-take, take-take, take-add, Bytes,
  if_elim, Bool-cases, inl, inr, leb, leb→le, ◌==◌,
}
use mathlib.Core.List.{append-nil}
use iluvatar.Stream.Decoder.{Decompressor, Decodes}
use iluvatar.Stream.Reader.{
  State, seek_to_checkpoint, skipping, emitting, need_input_skipping, need_input_emitting, finished,
  StreamReader, buffered, serveable, settle, read_output,
}
use iluvatar.Stream.Reader.Invariant.{Aim, unread, served, InStep, InState, Live, IsValid}

module _ {D S : Type 0} where
  -- A reader whose output has all been served, without it.
  abbrev emptied : StreamReader D S → StreamReader D S
  emptied p = record p { output = []; output_read = 0 }

  emptied-InState :
      (st : State) (p : StreamReader D S) → buffered p ≡ 0 → InState st p → InState st (emptied p)
  emptied-InState seek_to_checkpoint p e h = h
  emptied-InState (skipping m) p e (s, on) =
      (record { empty = omega arith; ahead = s.ahead; untouched = s.untouched }, on)
  emptied-InState (emitting m) p e (s, on) =
      (record { left = omega (arith, e, s.left); in_step = omega (arith, e, s.in_step) }, on)
  emptied-InState (need_input_skipping m) p e (s, on, nothing) =
      (record { empty = omega arith; ahead = s.ahead; untouched = s.untouched }, on, nothing)
  emptied-InState (need_input_emitting m) p e (s, on, nothing) = (
    record { left = omega (arith, e, s.left); in_step = omega (arith, e, s.in_step) },
    on,
    nothing,
  )
  emptied-InState finished p e h = inl (omega arith)

  -- A reader that has handed out `n` more bytes.
  abbrev taken : ℕ → StreamReader D S → StreamReader D S
  taken n p = record p { output_read = p.output_read + n; range_left = p.range_left - n }

  -- Where there is something to serve, the range goes on with it.
  serving-InStep :
      (st : State) (p : StreamReader D S)
      → p.started ≡ true
      → InState st p
      → 0 < buffered p
      → InStep p
  serving-InStep seek_to_checkpoint p on off h = absurd (cc)
  serving-InStep (skipping m) p on (s, _) h = absurd (omega (arith, s.empty))
  serving-InStep (emitting m) p on (s, _) h = s.in_step
  serving-InStep (need_input_skipping m) p on (s, _, _) h = absurd (omega (arith, s.empty))
  serving-InStep (need_input_emitting m) p on (s, _, _) h = s.in_step
  serving-InStep finished p on (inl e) h = absurd (omega (arith, e))
  serving-InStep finished p on (inr s) h = s

  taken-InState :
      (st : State) (n : ℕ) (p : StreamReader D S)
      → p.started ≡ true
      → n ≤ buffered p
      → n ≤ p.range_left
      → p.range_left ≤ p.target_len
      → 0 < n
      → InState st p
      → InState st (taken n p)
  taken-InState seek_to_checkpoint n p on nb nl lt pos off = absurd (cc)
  taken-InState (skipping m) n p on nb nl lt pos (s, _) = absurd (omega (arith, s.empty))
  taken-InState (emitting m) n p on nb nl lt pos (s, _) =
      (record { left = omega (arith, s.left); in_step = omega (arith, s.in_step) }, on)
  taken-InState (need_input_skipping m) n p on nb nl lt pos (s, _, _) =
      absurd (omega (arith, s.empty))
  taken-InState (need_input_emitting m) n p on nb nl lt pos (s, _, nothing) =
      (record { left = omega (arith, s.left); in_step = omega (arith, s.in_step) }, on, nothing)
  taken-InState finished n p on nb nl lt pos (inl e) = absurd (omega (arith, e))
  taken-InState finished n p on nb nl lt pos (inr s) = inr (omega (arith, s))

module _ {D S : Type 0} {dec : Decompressor D S} {content : Bytes} (decoder : Decodes dec content)
    (stream : Bytes) (aim : Aim) where
  pub settle-IsValid :
      (got : Bytes) (p : StreamReader D S)
      → IsValid decoder stream aim got p
      → IsValid decoder stream aim got (settle p)
  unfolding settle
  settle-IsValid got p v =
      if_elim (IsValid decoder stream aim got) (leb (length p.output) p.output_read)
        (λ all. emptied-IsValid (omega (arith, leb→le _ _ all))) (λ _. v)
    where
      emptied-IsValid : buffered p ≡ 0 → IsValid decoder stream aim got (emptied p)
      emptied-IsValid e = record {
        at_offset = v.at_offset;
        at_len = v.at_len;
        at_full = v.at_full;
        restores = v.restores;
        checkpoint_le = v.checkpoint_le;
        checkpoint_within = v.checkpoint_within;
        served_le = v.served_le;
        got_ok = v.got_ok;
        got_len = v.got_len;
        fresh = λ off.
            let f = v.fresh off in
            record {
              empty = refl;
              no_input = f.no_input;
              no_eof = f.no_eof;
              untouched = f.untouched;
              behind = f.behind;
            };
        live = λ on.
            let l = v.live on in
            record {
              more = l.more;
              more_ok = l.more_ok;
              compressed_le = l.compressed_le;
              at_eof = l.at_eof;
              decoding = l.decoding;
              unpacked_le = l.unpacked_le;
              buffered_le = omega arith;
              unread_ok = refl;
            };
        in_state = emptied-InState p.state p e v.in_state;
      }

  taken-IsValid :
      (n : ℕ) (got : Bytes) (p : StreamReader D S)
      → p.started ≡ true
      → n ≤ buffered p
      → n ≤ p.range_left
      → 0 < n
      → IsValid decoder stream aim got p
      → IsValid decoder stream aim (got ++ take n (unread p)) (taken n p)
  taken-IsValid n got p on nb nl pos v = record {
    at_offset = v.at_offset;
    at_len = v.at_len;
    at_full = v.at_full;
    restores = v.restores;
    checkpoint_le = v.checkpoint_le;
    checkpoint_within = v.checkpoint_within;
    served_le = omega (arith, v.served_le);
    got_ok =
        ap (λ xs. xs ++ take n (unread p)) v.got_ok
        ∙ ap (λ xs. take (served p) (drop p.target_offset content) ++ xs) next_bytes
        ∙ sym (take-add (served p) n (drop p.target_offset content))
        ∙ ap (λ k. take k (drop p.target_offset content)) more_served;
    got_len = omega (
      arith,
      length-append got (take n (unread p)),
      length-take n (unread p),
      length-drop p.output_read p.output,
      v.got_len,
      more_served,
    );
    fresh = λ off. absurd (cc);
    live = λ _. record {
      more = l.more;
      more_ok = l.more_ok;
      compressed_le = l.compressed_le;
      at_eof = l.at_eof;
      decoding = l.decoding;
      unpacked_le = l.unpacked_le;
      buffered_le = omega (arith, l.buffered_le);
      unread_ok =
          sym (drop-drop p.output_read n p.output)
          ∙ ap (drop n) l.unread_ok
          ∙ drop-take n (buffered p) (drop (p.unpacked_pos - buffered p) content)
          ∙ ap (take (buffered p - n)) (drop-drop (p.unpacked_pos - buffered p) n content)
          ∙ sym (
              ap (λ b. take b (drop (p.unpacked_pos - b) content)) fewer
              ∙ ap (λ k. take (buffered p - n) (drop k content)) start);
    };
    in_state = taken-InState p.state n p on nb nl v.served_le pos v.in_state;
  }
    where
      l : Live decoder stream p
      l = v.live on

      in_step : InStep p
      in_step = serving-InStep p.state p on v.in_state (omega (arith, nb, pos))

      more_served : served p + n ≡ served (taken n p)
      more_served = omega (arith, v.served_le, nl)

      here : p.unpacked_pos - buffered p ≡ p.target_offset + served p
      here = omega (arith, in_step)

      fewer : buffered (taken n p) ≡ buffered p - n
      fewer = omega arith

      start : p.unpacked_pos - (buffered p - n) ≡ p.unpacked_pos - buffered p + n
      start = omega (arith, nb, l.buffered_le)

      next_bytes : take n (unread p) ≡ take n (drop (served p) (drop p.target_offset content))
      next_bytes =
          ap (take n) l.unread_ok
          ∙ take-take n (buffered p) (drop (p.unpacked_pos - buffered p) content) nb
          ∙ ap (λ k. take n (drop k content)) here
          ∙ sym (ap (take n) (drop-drop p.target_offset (served p) content))

  -- The bytes that `read_output` copies are those that come next in the range.
  pub read_output-IsValid :
      (len : ℕ) (got : Bytes) (p : StreamReader D S)
      → IsValid decoder stream aim got p
      → IsValid decoder stream aim (got ++ (read_output len p).0) (read_output len p).1
  unfolding read_output serveable
  read_output-IsValid len got p v =
      let n = min (min (buffered p) p.range_left) len in
      if_elim (λ (o : Bytes × StreamReader D S). IsValid decoder stream aim (got ++ o.0) o.1)
        (n == 0) (λ _. subst (λ xs. IsValid decoder stream aim xs p) (sym (append-nil got)) v)
        (λ some_left.
          let pos : 0 < n = ground (arith, some_left) in
          settle-IsValid _ _
            (taken-IsValid n got p (started pos) (omega arith) (omega arith) pos v))
    where
      started : 0 < min (min (buffered p) p.range_left) len → p.started ≡ true
      started pos = elim (Bool-cases p.started) [
        | inl on ↦ on
        | inr off ↦ absurd (omega (arith, pos, ap length (v.fresh off).empty))
      ]
