-- ===== src/Stream/Reader/Retargeting.antt =====
-- src/stream/reader.rs, `seek_forward`: a reader aimed at a later range.
use iluvatar.Common.{
  ℕ, ◌+◌, ◌-◌, ◌≤◌, ◌<◌, ◌≡◌, ◌⊎◌, refl, sym, subst, ap, ◌∙◌, arith, min, Bool, true, false, not,
  [], length, take, drop, drop-drop, drop-take, Bytes, if_elim, inl, inr, ltb, ltb→le, ltb→lt, leb,
  leb→le, leb→lt, ◌==◌, if◌then◌else◌,
}
use iluvatar.Common.Sizes.{IsU64}
use iluvatar.Errors.{Result, ok, err, Error}
use iluvatar.Stream.Decoder.{Decompressor, Decodes, Restores}
use iluvatar.Stream.Reader.{
  State, seek_to_checkpoint, finished, StreamReader, buffered, serveable, position, clamp_len,
  retarget, settle, state_behind, seek_from, seek_forward,
}
use iluvatar.Stream.Reader.Invariant.{Aim, Skips, Emits, InState, Live, IsValid}
use iluvatar.Stream.Reader.Delivery.{Delivers, Delivers-IsValid}

module _ {D S : Type 0} {dec : Decompressor D S} {content : Bytes} (decoder : Decodes dec content)
    (stream : Bytes) where
  -- A reader without the first `n` bytes of its buffer.
  abbrev without : ℕ → StreamReader D S → StreamReader D S
  without n p = record p { output_read = p.output_read + n }

  without-Live :
      (n : ℕ) (p : StreamReader D S)
      → n ≤ buffered p
      → Live decoder stream p
      → Live decoder stream (without n p)
  without-Live n p le l = record {
    more = l.more;
    more_ok = l.more_ok;
    compressed_le = l.compressed_le;
    at_eof = l.at_eof;
    decoding = l.decoding;
    unpacked_le = l.unpacked_le;
    buffered_le = omega (arith, l.buffered_le);
    unread_ok =
        sym (drop-drop p.output_read n p.output)
        ∙ ap (drop n) l.unread_ok
        ∙ drop-take n (buffered p) (drop (p.unpacked_pos - buffered p) content)
        ∙ ap (take (buffered p - n)) (drop-drop (p.unpacked_pos - buffered p) n content)
        ∙ sym (
            ap (λ b. take b (drop (p.unpacked_pos - b) content)) fewer
            ∙ ap (λ k. take (buffered p - n) (drop k content)) start);
  }
    where
      fewer : buffered (without n p) ≡ buffered p - n
      fewer = omega arith

      start : p.unpacked_pos - (buffered p - n) ≡ p.unpacked_pos - buffered p + n
      start = omega (arith, le, l.buffered_le)

  emptied-Live :
      (p : StreamReader D S)
      → Live decoder stream p
      → Live decoder stream (record p { output = []; output_read = 0 })
  emptied-Live p l = record {
    more = l.more;
    more_ok = l.more_ok;
    compressed_le = l.compressed_le;
    at_eof = l.at_eof;
    decoding = l.decoding;
    unpacked_le = l.unpacked_le;
    buffered_le = omega arith;
    unread_ok = refl;
  }

  -- The state behind `seek_forward`, where what is buffered starts at the offset or `beyond` bytes
  -- before it, with nothing buffered then.
  retargeted-InState :
      (offset len beyond : ℕ) (s : StreamReader D S)
      → s.started ≡ true
      → s.unpacked_pos + beyond ≡ offset + buffered s
      → (beyond ≡ 0) ⊎ (buffered s ≡ 0)
      → InState
          (state_behind (len - min (buffered s) len) beyond s.stream_ended)
          (record (retarget offset len s) {
            state = state_behind (len - min (buffered s) len) beyond s.stream_ended;
          })
  unfolding state_behind
  retargeted-InState offset len beyond s on here apart =
      let st = state_behind (len - min (buffered s) len) beyond s.stream_ended in
      let P = λ (t : State). InState t (record (retarget offset len s) { state = st }) in
      if_elim P (len - min (buffered s) len == 0) (λ _. stopped st)
        (λ left.
          if_elim P s.stream_ended (λ _. stopped st)
            (λ _.
              if_elim P (ltb 0 beyond) (λ far. (skips st apart (ltb→lt _ _ far), on))
                (λ near. (emits st (ltb→le _ _ near) (ground (arith, left)), on))))
    where
      stopped : (st : State) → InState finished (record (retarget offset len s) { state = st })
      stopped st = go apart
        where
          go :
              (beyond ≡ 0) ⊎ (buffered s ≡ 0)
              → InState finished (record (retarget offset len s) { state = st })
          go (inl e) = inr (omega (arith, e, here))
          go (inr e) = inl e

      skips :
          (st : State)
          → (beyond ≡ 0) ⊎ (buffered s ≡ 0)
          → 0 < beyond
          → Skips beyond (record (retarget offset len s) { state = st })
      skips st (inl e) far = absurd (omega (arith, e, far))
      skips st (inr e) far = record { empty = e; ahead = omega (arith, here, e); untouched = refl }

      emits :
          (st : State)
          → beyond ≤ 0
          → 0 < len - min (buffered s) len
          → Emits (len - min (buffered s) len) (record (retarget offset len s) { state = st })
      emits st near left = record {
        left = omega (arith, left);
        in_step = omega (arith, here, near);
      }

  -- The reader that `seek_forward` leaves, from the one whose buffer it has cut.
  abbrev aimed_at : (offset len beyond : ℕ) → StreamReader D S → StreamReader D S
  aimed_at offset len beyond s = record (retarget offset len s) {
    state = state_behind (len - min (buffered s) len) beyond s.stream_ended;
  }

  aimed_at-IsValid :
      (aim : Aim) (got : Bytes) (p s : StreamReader D S) (offset len beyond : ℕ)
      → IsValid decoder stream aim got p
      → s.checkpoint ≡ p.checkpoint
      → s.started ≡ true
      → Live decoder stream s
      → s.unpacked_pos + beyond ≡ offset + buffered s
      → (beyond ≡ 0) ⊎ (buffered s ≡ 0)
      → IsValid decoder stream
          (record { offset = offset; len = len; full = s.require_full })
          []
          (aimed_at offset len beyond s)
  aimed_at-IsValid aim got p s offset len beyond v same on l here apart = record {
    at_offset = refl;
    at_len = refl;
    at_full = refl;
    restores = subst (Restores decoder stream) (sym same) v.restores;
    checkpoint_le = subst (λ c. c.compressed_offset ≤ length stream) (sym same) v.checkpoint_le;
    checkpoint_within =
        subst (λ c. c.uncompressed_offset ≤ length content) (sym same) v.checkpoint_within;
    served_le = omega arith;
    got_ok = ap (λ n. take n (drop offset content)) none_served;
    got_len = none_served;
    fresh = λ off. absurd (cc);
    live = λ _. record {
      more = l.more;
      more_ok = l.more_ok;
      compressed_le = l.compressed_le;
      at_eof = l.at_eof;
      decoding = l.decoding;
      unpacked_le = l.unpacked_le;
      buffered_le = l.buffered_le;
      unread_ok = l.unread_ok;
    };
    in_state = retargeted-InState offset len beyond s on here apart;
  }
    where
      none_served : 0 ≡ len - len
      none_served = omega arith

  -- The range that `seek_forward` aims at.
  abbrev pub aimed_forward : (offset len : ℕ) → StreamReader D S → Aim
  aimed_forward offset len p = record {
    offset = offset;
    len = clamp_len p.unpacked_len offset len;
    full = p.require_full;
  }

  seek_from-IsValid :
      (aim : Aim) (got : Bytes) (p : StreamReader D S) (offset len : ℕ)
      → IsValid decoder stream aim got p
      → p.started ≡ true
      → p.unpacked_pos - buffered p ≤ offset
      → IsValid decoder stream
          (aimed_forward offset len p)
          []
          (seek_from (p.unpacked_pos - buffered p) offset len p)
  unfolding seek_from settle serveable
  seek_from-IsValid aim got p offset len v on behind =
      let at = p.unpacked_pos - buffered p in
      let n = min (offset - at) (buffered p) in
      let l = v.live on in
      let cut = without-Live n p (omega arith) l in
      let x = without n p in
      if_elim
        (λ s.
          IsValid decoder stream (aimed_forward offset len p) []
            (record (retarget offset (clamp_len p.unpacked_len offset len) s) {
              state =
                  state_behind
                    (clamp_len p.unpacked_len offset len
                      - min (buffered s) (clamp_len p.unpacked_len offset len))
                    (offset - at - n) s.stream_ended;
            }))
        (leb (length x.output) x.output_read)
        (λ all.
          aimed_at-IsValid aim got p (record x { output = []; output_read = 0 }) offset _
            (offset - at - n) v refl on (emptied-Live x cut)
            (omega (arith, behind, l.buffered_le, leb→le _ _ all)) (inr (omega arith)))
        (λ _.
          aimed_at-IsValid aim got p x offset _ (offset - at - n) v refl on cut
            (omega (arith, behind, l.buffered_le)) (apart at))
    where
      apart :
          (at : ℕ)
          → (offset - at - min (offset - at) (buffered p) ≡ 0)
            ⊎ (buffered (without (min (offset - at) (buffered p)) p) ≡ 0)
      apart at =
          if_elim
            (λ (b : Bool).
              (offset - at - min (offset - at) (buffered p) ≡ 0)
              ⊎ (buffered (without (min (offset - at) (buffered p)) p) ≡ 0))
            (leb (offset - at) (buffered p)) {x = true} {y = true}
            (λ near. inl (omega (arith, leb→le _ _ near)))
            (λ far. inr (omega (arith, leb→lt _ _ far)))

  -- A reader that has not been stepped, aimed at an offset not before its own.
  unstarted-IsValid :
      (aim : Aim) (got : Bytes) (p : StreamReader D S) (offset len : ℕ)
      → IsValid decoder stream aim got p
      → p.started ≡ false
      → p.target_offset ≤ offset
      → IsValid decoder stream
          (record { offset = offset; len = len; full = p.require_full })
          []
          (record (retarget offset len p) {
            state = if len == 0 then finished else seek_to_checkpoint;
          })
  unstarted-IsValid aim got p offset len v off behind =
      let f = v.fresh off in
      record {
        at_offset = refl;
        at_len = refl;
        at_full = refl;
        restores = v.restores;
        checkpoint_le = v.checkpoint_le;
        checkpoint_within = v.checkpoint_within;
        served_le = omega arith;
        got_ok = ap (λ n. take n (drop offset content)) none_served;
        got_len = none_served;
        fresh = λ _. record {
          empty = f.empty;
          no_input = f.no_input;
          no_eof = f.no_eof;
          untouched = refl;
          behind = omega (arith, f.behind, behind);
        };
        live = λ on. absurd (cc);
        in_state =
            if_elim
              (λ st. InState st (record (retarget offset len p) {
                state = if len == 0 then finished else seek_to_checkpoint;
              }))
              (len == 0) (λ _. inl (omega (arith, ap length f.empty))) (λ _. off);
      }
    where
      none_served : 0 ≡ len - len
      none_served = omega arith

  -- `seek_forward`, with the flag that it tests first.
  abbrev sought : Bool → (offset len : ℕ) → StreamReader D S → Result (Unit {0}) × StreamReader D S
  sought on offset len p =
      let at = if not on then p.target_offset else p.unpacked_pos - buffered p in
      if not on
      then (if ltb offset p.target_offset then (err Error.invalid_state, p) else (
        ok tt,
        record (retarget offset (clamp_len p.unpacked_len offset len) p) {
          state = if clamp_len p.unpacked_len offset len == 0 then finished else seek_to_checkpoint;
        },
      ))
      else if ltb offset at
      then (err Error.invalid_state, p)
      else (ok tt, seek_from at offset len p)

  -- What `seek_forward` leaves when it succeeds.
  pub seek_forward-IsValid :
      (aim : Aim) (got : Bytes) (p q : StreamReader D S) (offset len : ℕ)
      → IsValid decoder stream aim got p
      → seek_forward offset len p ≡ (ok tt, q)
      → IsValid decoder stream (aimed_forward offset len p) [] q
  unfolding seek_forward position
  seek_forward-IsValid aim got p q offset len v = go p.started refl
    where
      go :
          (on : Bool)
          → p.started ≡ on
          → sought on offset len p ≡ (ok tt, q)
          → IsValid decoder stream (aimed_forward offset len p) [] q
      go false off =
          if_elim
            (λ (o : Result (Unit {0}) × StreamReader D S).
              o ≡ (ok tt, q) → IsValid decoder stream (aimed_forward offset len p) [] q)
            (ltb offset p.target_offset) (λ _ e. absurd (cc))
            (λ behind e.
              subst (λ r. IsValid decoder stream (aimed_forward offset len p) [] r)
                (ap (λ o. o.1) e) (unstarted-IsValid aim got p offset _ v off (ltb→le _ _ behind)))
      go true on =
          if_elim
            (λ (o : Result (Unit {0}) × StreamReader D S).
              o ≡ (ok tt, q) → IsValid decoder stream (aimed_forward offset len p) [] q)
            (ltb offset (p.unpacked_pos - buffered p)) (λ _ e. absurd (cc))
            (λ behind e.
              subst (λ r. IsValid decoder stream (aimed_forward offset len p) [] r)
                (ap (λ o. o.1) e) (seek_from-IsValid aim got p offset len v on (ltb→le _ _ behind)))

  -- Whatever a caller that keeps to the protocol reads behind a `seek_forward` that succeeds, on a
  -- reader that such a caller has driven there from a valid one, is what the content holds from the
  -- new offset on, and no more than the new length, cut to the stream if its length is known.
  pub seek_forward-delivers :
      (content_fits : IsU64 (length content)) (stream_fits : IsU64 (length stream)) (aim : Aim)
      (p q r s : StreamReader D S) (got got' : Bytes) (offset len : ℕ)
      → IsValid decoder stream aim [] p
      → Delivers decoder stream aim content_fits stream_fits p got q
      → seek_forward offset len q ≡ (ok tt, r)
      → Delivers decoder stream (aimed_forward offset len q) content_fits stream_fits r got' s
      → (got' ≡ take (length got') (drop offset content))
        × (length got' ≤ clamp_len q.unpacked_len offset len)
  seek_forward-delivers content_fits stream_fits aim p q r s got got' offset len v d h d' =
      let w =
        Delivers-IsValid decoder stream (aimed_forward offset len q) content_fits stream_fits
          (seek_forward-IsValid aim got q r offset len
            (Delivers-IsValid decoder stream aim content_fits stream_fits v d) h)
          d' in
      (
        w.got_ok
            ∙ ap (λ n. take n (drop s.target_offset content)) (sym w.got_len)
            ∙ ap (λ k. take (length got') (drop k content)) w.at_offset,
        omega (arith, w.got_len, w.at_len),
      )
