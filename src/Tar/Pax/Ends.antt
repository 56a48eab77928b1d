-- ===== src/Tar/Pax/Ends.antt =====
-- src/tar/parser.rs, `parse_pax_data`: the end of the loop, and its panic.
use iluvatar.Common.{
  ℕ, zero, suc, ◌+◌, ◌-◌, ◌≤◌, ◌<◌, ◌≡◌, ◌≢◌, ◌∙◌, arith, Option, none, some, length, take, drop,
  ltb, Bytes, slice, ◌==◌, inl, inr, Bool-cases, lt→ltb, le→ltb, subst,
}
use iluvatar.Common.Search.{position}
use iluvatar.Common.Numerals.{from_str_radix-lt}
use iluvatar.Common.Utf8.{is_utf8}
use iluvatar.Common.Sizes.{add_u64, u64_mod, IsU64}
use iluvatar.Tar.State.{TarParser}
use iluvatar.Tar.Pax.Walks.{pax_loop_round}
use iluvatar.Tar.Pax.{
  Walk, walked, crashed, stuck, apply_record, pax_round, with_len, with_space, pax_loop,
  parse_pax_data, record_len,
}

abbrev Ends : Walk → Type 0
Ends (walked p) = Unit {0}
Ends crashed = Unit {0}
Ends stuck = ⊥

module _ (next : ℕ → TarParser → Walk) (pos : ℕ)
    (ends : (n : ℕ) (q : TarParser) → pos < n → Ends (next n q)) (bytes : Bytes)
    (p : TarParser) where
  pax_round-Ends : (space len : ℕ) → Ends (pax_round next pos space len bytes p)
  unfolding pax_round
  pax_round-Ends space len =
      let end = add_u64 pos len in
      ground (arith, ends end (apply_record (slice (pos + space + 1) end bytes) p))

  with_len-Ends : (space : ℕ) (len : Option ℕ) → Ends (with_len next pos space len bytes p)
  unfolding with_len
  with_len-Ends space none = tt
  with_len-Ends space (some len) = pax_round-Ends space len

  with_space-Ends : (space : Option ℕ) → Ends (with_space next pos space bytes p)
  unfolding with_space
  with_space-Ends none = tt
  with_space-Ends (some space) = with_len-Ends space (record_len (take space (drop pos bytes)))

pax_loop-Ends :
    (fuel pos : ℕ) (bytes : Bytes) (p : TarParser)
    → length bytes ≤ pos + fuel
    → Ends (pax_loop fuel pos bytes p)
unfolding pax_loop
pax_loop-Ends zero pos bytes p h = rw (le→ltb pos (length bytes) (omega arith)) tt
pax_loop-Ends (suc fuel) pos bytes p h = elim (Bool-cases (ltb pos (length bytes))) [
  | inl more ↦ rw more (
      with_space-Ends (λ end q. pax_loop fuel end bytes q) pos
        (λ n q lt. pax_loop-Ends fuel n bytes q (omega arith)) bytes p
        (position (λ b. b == b' ') (drop pos bytes)))
  | inr done ↦ rw done tt
]

-- The loop of `parse_pax_data` ends on every input: the fuel never runs out.
pub parse_pax_data-ne-stuck : (bytes : Bytes) (p : TarParser) → parse_pax_data bytes p ≢ stuck
unfolding parse_pax_data
parse_pax_data-ne-stuck bytes p e =
    subst Ends e (pax_loop-Ends (length bytes) 0 bytes p (omega arith))

record_len-lt : (digits : Bytes) (len : ℕ) → record_len digits ≡ some len → IsU64 len
unfolding record_len
record_len-lt digits len e = elim (Bool-cases (is_utf8 digits)) [
  | inl good ↦ from_str_radix-lt 10 digits len (rw good at e)
  | inr bad ↦ absurd (cc (rw bad at e))
]

pax_round_over :
    (next : ℕ → TarParser → Walk) (pos space len : ℕ) (bytes : Bytes) (p : TarParser)
    → pos < length bytes
    → IsU64 (length bytes)
    → IsU64 len
    → space < len
    → u64_mod ≤ pos + len
    → pax_round next pos space len bytes p ≡ crashed
unfolding pax_round
pax_round_over next pos space len bytes p h fits small lt wraps =
    let sum : add_u64 pos len ≡ pos + len - u64_mod = omega arith in
    rw (
      sum,
      lt→ltb space len lt,
      le→ltb (length bytes) (pos + len - u64_mod) (omega arith),
      lt→ltb (pos + len - u64_mod) (pos + space + 1) (omega arith),
    )

-- In a header of less than 2 ^ 64 bytes, a record behind another, with a length so near 2 ^ 64 that `pos + len` wraps, makes the slice
-- of the record end before it begins: the parser panics.
pub pax_loop_panics :
    (fuel pos space len : ℕ) (bytes : Bytes) (p : TarParser)
    → pos < length bytes
    → IsU64 (length bytes)
    → position (λ b. b == b' ') (drop pos bytes) ≡ some space
    → record_len (take space (drop pos bytes)) ≡ some len
    → space < len
    → u64_mod ≤ pos + len
    → pax_loop (suc fuel) pos bytes p ≡ crashed
pax_loop_panics fuel pos space len bytes p h fits e l lt wraps =
    pax_loop_round fuel pos space len bytes p h e l
    ∙ pax_round_over (λ end q. pax_loop fuel end bytes q) pos space len bytes p h fits
        (record_len-lt _ len l) lt wraps
