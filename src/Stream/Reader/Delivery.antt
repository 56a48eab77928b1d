-- ===== src/Stream/Reader/Delivery.antt =====
-- src/stream/reader.rs: what the calls of a reader hand out, one behind the other.
use iluvatar.Common.{
  ℕ, ◌+◌, ◌-◌, ◌≡◌, sym, subst, ap, ◌∙◌, arith, true, [], ◌∷◌, ◌++◌, length, drop, drop_all,
  drop-drop, drop-append, length-drop, length-append, Bytes, some,
}
use iluvatar.Common.Sizes.{add_u64, IsU64}
use iluvatar.Engine.Request.{EngineRequest, need_input, seek_and_read, output_ready}
use iluvatar.Stream.Decoder.{Decompressor, Decodes}
use iluvatar.Stream.Reader.{
  State, seek_to_checkpoint, skipping, emitting, need_input_skipping, need_input_emitting, finished,
  StreamReader, provided_state, provide_data, signal_eof, read_output, step,
}
use iluvatar.Stream.Reader.Invariant.{Aim, Exhausted, InState, Live, IsValid, Sound}
use iluvatar.Stream.Reader.Serving.{read_output-IsValid}
use iluvatar.Stream.Reader.Steps.{Answered, step-Answered}

module _ {D S : Type 0} {dec : Decompressor D S} {content : Bytes} (decoder : Decodes dec content)
    (stream : Bytes) (aim : Aim) (content_fits : IsU64 (length content))
    (stream_fits : IsU64 (length stream)) where
  provided-InState :
      (st : State) (bytes : Bytes) (c : ℕ) (p : StreamReader D S)
      → InState st p
      → InState (provided_state st) (record p {
        input_buf = bytes;
        input_pos = 0;
        compressed_pos = c;
        state = provided_state st;
      })
  unfolding provided_state
  provided-InState seek_to_checkpoint bytes c p h = h
  provided-InState (skipping m) bytes c p (s, on) =
      (record { empty = s.empty; ahead = s.ahead; untouched = s.untouched }, on)
  provided-InState (emitting m) bytes c p (s, on) =
      (record { left = s.left; in_step = s.in_step }, on)
  provided-InState (need_input_skipping m) bytes c p (s, on, _) =
      (record { empty = s.empty; ahead = s.ahead; untouched = s.untouched }, on)
  provided-InState (need_input_emitting m) bytes c p (s, on, _) =
      (record { left = s.left; in_step = s.in_step }, on)
  provided-InState finished bytes c p h = h

  nothing_behind : (xs ys : Bytes) → xs ++ ys ≡ [] → ys ≡ []
  nothing_behind [] ys h = h
  nothing_behind (x ∷ xs) ys h = absurd (cc)

  -- Input that goes on where the reader stands.
  pub provide_data-IsValid :
      (bytes rest got : Bytes) (p : StreamReader D S)
      → bytes ++ rest ≡ drop p.compressed_pos stream
      → p.started ≡ true
      → Exhausted p
      → IsValid decoder stream aim got p
      → IsValid decoder stream aim got (provide_data bytes p)
  unfolding provide_data
  provide_data-IsValid bytes rest got p here on nothing v = record {
    at_offset = v.at_offset;
    at_len = v.at_len;
    at_full = v.at_full;
    restores = v.restores;
    checkpoint_le = v.checkpoint_le;
    checkpoint_within = v.checkpoint_within;
    served_le = v.served_le;
    got_ok = v.got_ok;
    got_len = v.got_len;
    fresh = λ off. absurd (cc);
    live = λ _. record {
      more = rest;
      more_ok =
          sym (drop-append bytes rest)
          ∙ ap (drop (length bytes)) here
          ∙ drop-drop p.compressed_pos (length bytes) stream
          ∙ ap (λ n. drop n stream) (sym moved);
      compressed_le = omega (arith, moved, sizes, l.compressed_le);
      at_eof = λ e. nothing_behind bytes rest (here ∙ sym l.more_ok ∙ l.at_eof e);
      decoding =
          subst (λ xs. decoder.At xs p.unpacked_pos p.decompressor)
            (ap (λ xs. xs ++ l.more) nothing ∙ l.more_ok ∙ sym here) l.decoding;
      unpacked_le = l.unpacked_le;
      buffered_le = l.buffered_le;
      unread_ok = l.unread_ok;
    };
    in_state =
        provided-InState p.state bytes (add_u64 p.compressed_pos (length bytes)) p v.in_state;
  }
    where
      l : Live decoder stream p
      l = v.live on

      sizes : length bytes + length rest ≡ length stream - p.compressed_pos
      sizes = sym (length-append bytes rest) ∙ ap length here ∙ length-drop p.compressed_pos stream

      moved : add_u64 p.compressed_pos (length bytes) ≡ p.compressed_pos + length bytes
      moved = omega (arith, sizes, l.compressed_le, stream_fits)

  at_end : (n : ℕ) → n ≡ length stream → drop n stream ≡ []
  at_end n h = drop_all n stream (omega (arith, h))

  eof-InState :
      (st : State) (p : StreamReader D S) → InState st p → InState st (record p { eof = true })
  eof-InState seek_to_checkpoint p h = h
  eof-InState (skipping m) p (s, on) =
      (record { empty = s.empty; ahead = s.ahead; untouched = s.untouched }, on)
  eof-InState (emitting m) p (s, on) = (record { left = s.left; in_step = s.in_step }, on)
  eof-InState (need_input_skipping m) p (s, on, nothing) =
      (record { empty = s.empty; ahead = s.ahead; untouched = s.untouched }, on, nothing)
  eof-InState (need_input_emitting m) p (s, on, nothing) =
      (record { left = s.left; in_step = s.in_step }, on, nothing)
  eof-InState finished p h = h

  -- The end of the compressed stream, told where it is.
  pub signal_eof-IsValid :
      (got : Bytes) (p : StreamReader D S)
      → p.compressed_pos ≡ length stream
      → p.started ≡ true
      → IsValid decoder stream aim got p
      → IsValid decoder stream aim got (signal_eof p)
  unfolding signal_eof
  signal_eof-IsValid got p last on v = record {
    at_offset = v.at_offset;
    at_len = v.at_len;
    at_full = v.at_full;
    restores = v.restores;
    checkpoint_le = v.checkpoint_le;
    checkpoint_within = v.checkpoint_within;
    served_le = v.served_le;
    got_ok = v.got_ok;
    got_len = v.got_len;
    fresh = λ off. absurd (cc);
    live = λ _. record {
      more = l.more;
      more_ok = l.more_ok;
      compressed_le = l.compressed_le;
      at_eof = λ _. l.more_ok ∙ at_end p.compressed_pos last;
      decoding = l.decoding;
      unpacked_le = l.unpacked_le;
      buffered_le = l.buffered_le;
      unread_ok = l.unread_ok;
    };
    in_state = eof-InState p.state p v.in_state;
  }
    where
      l : Live decoder stream p
      l = v.live on

  -- The calls of a caller that keeps to the protocol, from a reader on: steps, answers to the
  -- requests for input with bytes of the stream from where the reader stands, the end of the stream
  -- told there, and reads of any length. `Delivers p got q`: they hand out `got`, and leave `q`.
  pub data Delivers (p : StreamReader D S) : Bytes → StreamReader D S → Type 0 where
    start : Delivers p [] p
    steps :
        {got : Bytes} {q : StreamReader D S} (fuel : ℕ) (r : StreamReader D S)
        → Delivers p got q
        → step dec fuel q ≡ some (output_ready, r)
        → Delivers p got r
    provides :
        {got : Bytes} {q : StreamReader D S} (fuel : ℕ) (bytes rest : Bytes) (r : StreamReader D S)
        → Delivers p got q
        → step dec fuel q ≡ some (need_input, r)
        → bytes ++ rest ≡ drop r.compressed_pos stream
        → Delivers p got (provide_data bytes r)
    seeks :
        {got : Bytes} {q : StreamReader D S} (fuel offset len : ℕ) (bytes rest : Bytes)
        (r : StreamReader D S)
        → Delivers p got q
        → step dec fuel q ≡ some (seek_and_read offset len, r)
        → bytes ++ rest ≡ drop offset stream
        → Delivers p got (provide_data bytes r)
    ends :
        {got : Bytes} {q : StreamReader D S} (fuel : ℕ) (r : StreamReader D S)
        → Delivers p got q
        → step dec fuel q ≡ some (need_input, r)
        → r.compressed_pos ≡ length stream
        → Delivers p got (signal_eof r)
    reads :
        {got : Bytes} {q : StreamReader D S} (len : ℕ)
        → Delivers p got q
        → Delivers p (got ++ (read_output len q).0) (read_output len q).1

  -- What the answer of a step says of the reader that it leaves.
  answered :
      (fuel : ℕ) (got : Bytes) (q r : StreamReader D S) (request : EngineRequest)
      → IsValid decoder stream aim got q
      → step dec fuel q ≡ some (request, r)
      → Sound decoder stream aim got (some request, r)
  answered fuel got q r request v h =
      subst (Answered decoder stream aim content_fits got) h
        (step-Answered decoder stream aim content_fits fuel got q v)

  -- All calls of such a caller keep the invariant.
  pub Delivers-IsValid :
      {p q : StreamReader D S} {got : Bytes}
      → IsValid decoder stream aim [] p
      → Delivers p got q
      → IsValid decoder stream aim got q
  Delivers-IsValid v start = v
  Delivers-IsValid v (steps fuel r d h) = answered fuel _ _ r output_ready (Delivers-IsValid v d) h
  Delivers-IsValid v (provides fuel bytes rest r d h here) =
      let (w, on, nothing) = answered fuel _ _ r need_input (Delivers-IsValid v d) h in
      provide_data-IsValid bytes rest _ r here on nothing w
  Delivers-IsValid v (seeks fuel offset len bytes rest r d h here) =
      let (w, on, nothing, at) =
        answered fuel _ _ r (seek_and_read offset len) (Delivers-IsValid v d) h in
      provide_data-IsValid bytes rest _ r (here ∙ ap (λ n. drop n stream) at) on nothing w
  Delivers-IsValid v (ends fuel r d h last) =
      let (w, on, _) = answered fuel _ _ r need_input (Delivers-IsValid v d) h in
      signal_eof-IsValid _ r last on w
  Delivers-IsValid v (reads len d) =
      read_output-IsValid decoder stream aim len _ _ (Delivers-IsValid v d)
