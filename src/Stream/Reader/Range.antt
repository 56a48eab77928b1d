-- ===== src/Stream/Reader/Range.antt =====
-- src/stream/reader.rs: a reader made from an index, and the range that it reads.
use iluvatar.Common.{
  ℕ, suc, zero, ◌-◌, ◌≤◌, ◌≡◌, refl, sym, subst, ap, ◌∙◌, arith, true, List, [], ◌∷◌, length, take,
  drop, get_elem?, All, Bytes, if_elim, Bool-cases, inl, inr, ltb, ltb→le, min, ◌==◌, Option, none,
  some,
}
use iluvatar.Common.Sizes.{IsU64}
use iluvatar.Errors.{Result, ok, err}
use iluvatar.Engine.Request.{EngineRequest, need_input, seek_and_read, output_ready, done, error}
use iluvatar.Stream.Index.{Checkpoint, StreamIndex, best_checkpoint_for_offset, validate}
use iluvatar.Stream.Index.Best.{best_checkpoint_for_offset-Nearest}
use iluvatar.Stream.Decoder.{Decompressor, Decodes, Restores}
use iluvatar.Stream.Reader.{
  StreamReader, clamp_len, is_some, fresh, with_parts, new, check_full, answer, step, step_once,
}
use iluvatar.Stream.Reader.Invariant.{Aim, served, InState, IsValid}
use iluvatar.Stream.Reader.Steps.{Answered, step-Answered}
use iluvatar.Stream.Reader.Delivery.{Delivers, Delivers-IsValid}

Mem_all {ℓ κ} :
    {A : Type ℓ} (P : A → Type κ) (xs : List A) (i : ℕ) (x : A)
    → All P xs
    → get_elem? xs i ≡ some x
    → P x
Mem_all P [] i x h e = absurd (cc)
Mem_all P (y ∷ ys) zero x (h, hs) e = subst P (ground arith) h
Mem_all P (y ∷ ys) (suc i) x (h, hs) e = Mem_all P ys i x hs e

module _ {D S : Type 0} {dec : Decompressor D S} {content : Bytes} (decoder : Decodes dec content)
    (stream : Bytes) where
  -- A checkpoint of the stream, from which the decoder unpacks the rest of the content.
  pub record Marks (cp : Checkpoint S) : Type 0 where
    pub restores : Restores decoder stream cp
    pub compressed_le : cp.compressed_offset ≤ length stream
    pub uncompressed_le : cp.uncompressed_offset ≤ length content

  -- The range that a call of `new` aims at, cut to the length that the index knows.
  abbrev pub aimed : {C : Type 0} → StreamIndex C S → (offset len : ℕ) → Aim
  aimed index offset len = record {
    offset = offset;
    len = clamp_len index.unpacked_len offset len;
    full = is_some index.unpacked_len;
  }

  fresh-IsValid :
      (d : D) (cp : Checkpoint S) (unpacked_len : Option ℕ) (offset len : ℕ)
      → Marks cp
      → cp.uncompressed_offset ≤ offset
      → IsValid decoder stream
          (record { offset = offset; len = len; full = is_some unpacked_len })
          []
          (fresh d cp unpacked_len offset len)
  fresh-IsValid d cp unpacked_len offset len m before = record {
    at_offset = refl;
    at_len = refl;
    at_full = refl;
    restores = m.restores;
    checkpoint_le = m.compressed_le;
    checkpoint_within = m.uncompressed_le;
    served_le = omega arith;
    got_ok = ap (λ n. take n (drop offset content)) none_served;
    got_len = none_served;
    fresh = λ _. record {
      empty = refl;
      no_input = refl;
      no_eof = refl;
      untouched = refl;
      behind = before;
    };
    live = λ on. absurd (cc);
    in_state =
        if_elim (λ st. InState st (fresh d cp unpacked_len offset len)) (len == 0) (λ _. inl refl)
          (λ _. refl);
  }
    where
      none_served : 0 ≡ len - len
      none_served = omega arith

  -- A reader made from an index whose table is in order and marks the stream.
  pub new-IsValid :
      {C : Type 0} (create : C → Result D) (index : StreamIndex C S) (offset len : ℕ)
      (p : StreamReader D S)
      → validate index ≡ ok tt
      → All Marks index.checkpoints
      → new create index offset len ≡ some (ok p)
      → IsValid decoder stream (aimed index offset len) [] p
  unfolding new with_parts best_checkpoint_for_offset
  new-IsValid create index offset len p sorted marks h =
      let n = best_checkpoint_for_offset-Nearest index offset sorted in
      go n.best n.found n.before (create index.codec) (
        subst (λ o. with_parts (create index.codec) o index.unpacked_len offset len ≡ some (ok p))
          n.found h)
    where
      go :
          (best : Checkpoint S)
          → (best_checkpoint_for_offset index offset).1 ≡ some best
          → best.uncompressed_offset ≤ offset
          → (made : Result D)
          → with_parts made (some best) index.unpacked_len offset len ≡ some (ok p)
          → IsValid decoder stream (aimed index offset len) [] p
      go best found before (err e) eq = absurd (cc)
      go best found before (ok d) eq =
          subst (λ q. IsValid decoder stream (aimed index offset len) [] q) (ground (arith, eq))
            (fresh-IsValid d best index.unpacked_len offset
              (clamp_len index.unpacked_len offset len)
              (Mem_all Marks index.checkpoints _ best marks found) before)

  module _ (content_fits : IsU64 (length content)) (stream_fits : IsU64 (length stream)) where
    -- Whatever a caller that keeps to the protocol reads from a reader made from an index is what
    -- the content holds from the start of the range on, and no more than the range's length: on an
    -- index that validates and whose checkpoints mark the stream, for a decoder that decodes it,
    -- with content and stream shorter than 2 ^ 64 bytes.
    pub reader_reads_the_range :
        {C : Type 0} (create : C → Result D) (index : StreamIndex C S) (offset len : ℕ)
        (p q : StreamReader D S) (got : Bytes)
        → validate index ≡ ok tt
        → All Marks index.checkpoints
        → new create index offset len ≡ some (ok p)
        → Delivers decoder stream (aimed index offset len) content_fits stream_fits p got q
        → (got ≡ take (length got) (drop offset content))
          × (length got ≤ clamp_len index.unpacked_len offset len)
    reader_reads_the_range create index offset len p q got sorted marks h d =
        let v =
          Delivers-IsValid decoder stream (aimed index offset len) content_fits stream_fits
            (new-IsValid create index offset len p sorted marks h) d in
        (
          v.got_ok
              ∙ ap (λ n. take n (drop q.target_offset content)) (sym v.got_len)
              ∙ ap (λ k. take (length got) (drop k content)) v.at_offset,
          omega (arith, v.got_len, v.at_len),
        )

    check_full-done :
        (request : EngineRequest) (q : StreamReader D S)
        → check_full request q ≡ done
        → q.require_full ≡ true
        → q.range_left ≡ 0
    unfolding check_full
    check_full-done need_input q h full = absurd (cc)
    check_full-done (seek_and_read offset len) q h full = absurd (cc)
    check_full-done output_ready q h full = absurd (cc)
    check_full-done (error e) q h full = absurd (cc)
    check_full-done done q h full = elim (Bool-cases (ltb 0 q.range_left)) [
      | inl left ↦ absurd (ground (arith, h, left, full))
      | inr none_left ↦ omega (arith, ltb→le _ _ none_left)
    ]

    answer-done :
        (fuel : ℕ) (p q : StreamReader D S)
        → step dec fuel p ≡ some (done, q)
        → q.require_full ≡ true
        → q.range_left ≡ 0
    unfolding step answer
    answer-done zero p q h full = absurd (cc)
    answer-done (suc fuel) p q h full = go (step_once dec p) h (answer-done fuel)
      where
        go :
            (o : Option EngineRequest × StreamReader D S)
            → answer (step dec fuel) o ≡ some (done, q)
            → ((p q : StreamReader D S)
                → step dec fuel p ≡ some (done, q)
                → q.require_full ≡ true
                → q.range_left ≡ 0)
            → q.range_left ≡ 0
        go (some request, r) h rest =
            let same : r ≡ q = ground (arith, h) in
            let said : check_full request r ≡ done = ground (arith, h) in
            check_full-done request q (subst (λ s. check_full request s ≡ done) same said) full
        go (none, r) h rest = rest r q h full

    -- A reader of a range that is known to exist has handed it all out when it says that it is done.
    pub delivers_all :
        (aim : Aim) (fuel : ℕ) (p q r : StreamReader D S) (got : Bytes)
        → IsValid decoder stream aim [] p
        → aim.full ≡ true
        → Delivers decoder stream aim content_fits stream_fits p got q
        → step dec fuel q ≡ some (done, r)
        → (got ≡ take aim.len (drop aim.offset content)) × (length got ≡ aim.len)
    delivers_all aim fuel p q r got made full d finish =
        let v = Delivers-IsValid decoder stream aim content_fits stream_fits made d in
        let w : IsValid decoder stream aim got r =
          subst (Answered decoder stream aim content_fits got) finish
            (step-Answered decoder stream aim content_fits fuel got q v) in
        let all : r.range_left ≡ 0 = answer-done fuel q r finish (w.at_full ∙ full) in
        let size : served r ≡ aim.len = omega (arith, all, w.at_len) in
        (
          w.got_ok
              ∙ ap (λ n. take n (drop r.target_offset content)) size
              ∙ ap (λ k. take aim.len (drop k content)) w.at_offset,
          w.got_len ∙ size,
        )

    -- When a step of such a reader says that it is done, and the index knew the stream's length, the
    -- caller has read the whole range, cut to that length, and nothing else.
    pub reader_reads_fully :
        {C : Type 0} (create : C → Result D) (index : StreamIndex C S) (offset len total fuel : ℕ)
        (p q r : StreamReader D S) (got : Bytes)
        → validate index ≡ ok tt
        → All Marks index.checkpoints
        → index.unpacked_len ≡ some total
        → new create index offset len ≡ some (ok p)
        → Delivers decoder stream (aimed index offset len) content_fits stream_fits p got q
        → step dec fuel q ≡ some (done, r)
        → (got ≡ take (min len (total - offset)) (drop offset content))
          × (length got ≡ min len (total - offset))
    unfolding is_some clamp_len
    reader_reads_fully create index offset len total fuel p q r got sorted marks known h d finish =
        let cut : clamp_len index.unpacked_len offset len ≡ min len (total - offset) =
          ap (λ o. clamp_len o offset len) known in
        subst (λ n. (got ≡ take n (drop offset content)) × (length got ≡ n)) cut
          (delivers_all (aimed index offset len) fuel p q r got
            (new-IsValid create index offset len p sorted marks h) (ap is_some known) d finish)
