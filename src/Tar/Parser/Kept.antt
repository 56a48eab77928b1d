-- ===== src/Tar/Parser/Kept.antt =====
-- Bytes that are kept from data that arrives in chunks.
use iluvatar.Common.{
  ℕ, ◌+◌, ◌-◌, ◌≤◌, ◌<◌, min, ◌≡◌, refl, sym, ap, ◌∙◌, arith, [], ◌++◌, length, take, length-append,
  length-take, Bytes, take-append_past, take-append_within, take-length,
}
use mathlib.Core.List.{append_assoc, append-nil}
use native.Mathlib.Decide.{dec_le}
use iluvatar.Common.Sizes.{add_u64, add_u64_assoc}
use iluvatar.Archive.{fed, advance, and_then, need_data}
use iluvatar.Tar.State.{ParserState, TarParser, Outcome}
use iluvatar.Tar.Pax.Frame.{with_state}
use iluvatar.Tar.Parser.{accumulate}

accumulate_at :
    (size n useful : ℕ) (buf xs ys : Bytes)
    → min n (size - length buf) ≡ useful
    → take useful xs ≡ ys
    → accumulate size buf n xs ≡ buf ++ ys
unfolding accumulate
accumulate_at size n useful buf xs ys e h = rw (e, h)

-- The kept bytes are the same, however the data is cut.
pub accumulate-append :
    (size k : ℕ) (buf a b : Bytes)
    → accumulate size (accumulate size buf (length a) a) k b
      ≡ accumulate size buf (length a + k) (a ++ b)
unfolding accumulate
accumulate-append size k buf a b = elim (dec_le (length a) (size - length buf)) [
  | yes fits ↦
      ap (λ kept. accumulate size kept k b) (first_fits fits)
      ∙ append_assoc buf a (take (min k (size - length (buf ++ a))) b)
      ∙ sym (
          accumulate_at size (length a + k) (length a + min k (size - length (buf ++ a))) buf
            (a ++ b) (a ++ take (min k (size - length (buf ++ a))) b)
            (omega (arith, length-append buf a))
            (take-append_past (min k (size - length (buf ++ a))) a b))
  | no full ↦
      ap (λ kept. accumulate size kept k b) (first_full full)
      ∙ accumulate_at size k 0 (buf ++ take (size - length buf) a) b []
          (omega (
            arith,
            length-append buf (take (size - length buf) a),
            length-take (size - length buf) a,
          ))
          refl
      ∙ append-nil (buf ++ take (size - length buf) a)
      ∙ sym (
          accumulate_at size (length a + k) (size - length buf) buf (a ++ b)
            (take (size - length buf) a) (omega arith)
            (take-append_within (size - length buf) a b (omega arith)))
]
  where
    first_fits : length a ≤ size - length buf → accumulate size buf (length a) a ≡ buf ++ a
    first_fits fits =
        accumulate_at size (length a) (length a) buf a a (omega arith)
          (take-length (length a) a (omega arith))

    first_full :
        ¬ (length a ≤ size - length buf)
        → accumulate size buf (length a) a ≡ buf ++ take (size - length buf) a
    first_full full = accumulate_at size (length a) (size - length buf) buf a _ (omega arith) refl

-- Data that is kept up to `size`, with what `finish` does of it: a PAX header, or a long name.
module _ (size : ℕ) (finish : ℕ → ℕ → Bytes → TarParser → Outcome)
    (state_of : ℕ → Bytes → ParserState)
    (finish-advance : (k n remaining : ℕ) (buf : Bytes) (p : TarParser)
      → finish (k + n) remaining buf p ≡ advance k (finish n remaining buf p))
    (finish-with_state : (s : ParserState) (n remaining : ℕ) (buf : Bytes) (p : TarParser)
      → finish n remaining buf (with_state s p) ≡ finish n remaining buf p)
    (finish_partial : (n remaining : ℕ) (buf : Bytes) (p : TarParser)
      → 0 < remaining
      → finish n remaining buf p ≡ fed n need_data (with_state (state_of remaining buf) p)) where
  abbrev pub moved : ℕ → TarParser → TarParser
  moved n p = record p { stream_pos = add_u64 p.stream_pos n }

  abbrev pub kept : ℕ → Bytes → Bytes → TarParser → Outcome
  kept remaining buf xs p =
      finish (min (length xs) remaining) (remaining - min (length xs) remaining)
        (accumulate size buf (min (length xs) remaining) xs) (moved (min (length xs) remaining) p)

  kept_at :
      (n remaining : ℕ) (buf xs ys : Bytes) (p : TarParser)
      → min (length xs) remaining ≡ n
      → accumulate size buf n xs ≡ ys
      → kept remaining buf xs p ≡ finish n (remaining - n) ys (moved n p)
  kept_at n remaining buf xs ys p e h = rw (e, h)

  pub kept_partial :
      (remaining : ℕ) (buf a : Bytes) (p : TarParser)
      → length a < remaining
      → kept remaining buf a p
        ≡ fed (length a) need_data (
            with_state
              (state_of (remaining - length a) (accumulate size buf (length a) a))
              (moved (length a) p))
  kept_partial remaining buf a p h =
      kept_at (length a) remaining buf a _ p (omega arith) refl
      ∙ finish_partial (length a) (remaining - length a) (accumulate size buf (length a) a)
          (moved (length a) p) (omega arith)

  pub kept-short :
      (remaining : ℕ) (buf a b : Bytes) (p : TarParser)
      → length a < remaining
      → kept remaining buf (a ++ b) p
        ≡ and_then
            (kept remaining buf a p)
            (kept (remaining - length a) (accumulate size buf (length a) a) b)
  kept-short remaining buf a b p h =
      let k = min (length b) (remaining - length a) in
      let buf' = accumulate size buf (length a) a in
      let s = state_of (remaining - length a) buf' in
      kept_at (length a + k) remaining buf (a ++ b) (accumulate size buf' k b) p
        (omega (arith, length-append a b)) (sym (accumulate-append size k buf a b))
      ∙ finish-advance (length a) k (remaining - (length a + k)) (accumulate size buf' k b)
          (moved (length a + k) p)
      ∙ ap (advance (length a)) (rest_of k buf' s)
      ∙ ap (λ r. and_then r (kept (remaining - length a) buf' b))
          (sym (kept_partial remaining buf a p h))
    where
      counts : (k : ℕ) → remaining - (length a + k) ≡ remaining - length a - k
      counts k = omega arith

      offsets :
          (k : ℕ)
          → add_u64 p.stream_pos (length a + k) ≡ add_u64 (add_u64 p.stream_pos (length a)) k
      offsets k = sym (add_u64_assoc p.stream_pos (length a) k)

      rest_of :
          (k : ℕ) (buf' : Bytes) (s : ParserState)
          → finish k
              (remaining - (length a + k))
              (accumulate size buf' k b)
              (moved (length a + k) p)
            ≡ finish k
                (remaining - length a - k)
                (accumulate size buf' k b)
                (moved k (with_state s (moved (length a) p)))
      rest_of k buf' s =
          (λ i.
            finish k (counts k i) (accumulate size buf' k b)
              (record p { stream_pos = offsets k i }))
          ∙ sym (finish-with_state s k _ _ (moved k (moved (length a) p)))

  pub kept-long :
      (remaining : ℕ) (buf a b : Bytes) (p : TarParser)
      → remaining ≤ length a
      → kept remaining buf (a ++ b) p ≡ kept remaining buf a p
  unfolding accumulate
  kept-long remaining buf a b p h =
      kept_at remaining remaining buf (a ++ b) (accumulate size buf remaining a) p
        (omega (arith, length-append a b)) cut
      ∙ sym (kept_at remaining remaining buf a _ p (omega arith) refl)
    where
      cut : accumulate size buf remaining (a ++ b) ≡ accumulate size buf remaining a
      cut =
          accumulate_at size remaining (min remaining (size - length buf)) buf (a ++ b) _ refl
            (take-append_within (min remaining (size - length buf)) a b (omega arith))
