-- ===== src/Tar/Pax/Keeps.antt =====
-- src/tar/parser.rs, `parse_pax_data`: the fields that the walk over PAX records leaves.
use iluvatar.Common.{
  ℕ, zero, suc, ◌+◌, ◌≡◌, arith, Option, none, some, length, take, drop, ltb, Bytes, slice, ◌==◌,
  inl, inr, Bool-cases,
}
use iluvatar.Common.Search.{position, strip_last}
use iluvatar.Common.Sizes.{add_u64}
use iluvatar.Tar.State.{TarParser}
use iluvatar.Tar.Pax.{
  Walk, walked, crashed, stuck, set_size, set_attribute, split_record, apply_record, pax_round,
  with_len, with_space, pax_loop, parse_pax_data, record_len,
}

pub record Same (p q : TarParser) : Type 0 where
  pub stream_pos : q.stream_pos ≡ p.stream_pos
  pub header_buf : q.header_buf ≡ p.header_buf
  pub header_pos : q.header_pos ≡ p.header_pos
  pub gnu_long_name : q.gnu_long_name ≡ p.gnu_long_name
  pub gnu_long_link : q.gnu_long_link ≡ p.gnu_long_link

Same-refl : (p : TarParser) → Same p p
Same-refl p = ground arith

Same-trans : (p q r : TarParser) → Same p q → Same q r → Same p r
Same-trans p q r a b = ground arith

abbrev pub Keeps : TarParser → Walk → Type 0
Keeps p (walked q) = Same p q
Keeps p crashed = Unit {0}
Keeps p stuck = Unit {0}

Keeps-trans : (p q : TarParser) (w : Walk) → Same p q → Keeps q w → Keeps p w
Keeps-trans p q (walked r) a b = Same-trans p q r a b
Keeps-trans p q crashed a b = tt
Keeps-trans p q stuck a b = tt

set_attribute-Same : (key value : Bytes) (p : TarParser) → Same p (set_attribute key value p)
unfolding set_attribute set_size
set_attribute-Same key value p = ground arith

pub apply_record-Same : (line : Bytes) (p : TarParser) → Same p (apply_record line p)
unfolding apply_record
apply_record-Same line p = go (position (λ b. b == b'=') (strip_last b'\n' line))
  where
    go : (eq : Option ℕ) → Same p (split_record (strip_last b'\n' line) eq p)
    go none = unfold split_record in Same-refl p
    go (some eq) = unfold split_record in set_attribute-Same _ _ p

module _ (next : ℕ → TarParser → Walk) (keeps : (n : ℕ) (q : TarParser) → Keeps q (next n q))
    (pos : ℕ) (bytes : Bytes) (p : TarParser) where
  pax_round-Keeps : (space len : ℕ) → Keeps p (pax_round next pos space len bytes p)
  unfolding pax_round
  pax_round-Keeps space len =
      let end = add_u64 pos len in
      let line = slice (pos + space + 1) end bytes in
      ground (
        arith,
        Same-refl p,
        Keeps-trans p (apply_record line p) (next end (apply_record line p))
            (apply_record-Same line p) (keeps end (apply_record line p)),
      )

  with_len-Keeps : (space : ℕ) (len : Option ℕ) → Keeps p (with_len next pos space len bytes p)
  unfolding with_len
  with_len-Keeps space none = Same-refl p
  with_len-Keeps space (some len) = pax_round-Keeps space len

  with_space-Keeps : (space : Option ℕ) → Keeps p (with_space next pos space bytes p)
  unfolding with_space
  with_space-Keeps none = Same-refl p
  with_space-Keeps (some space) = with_len-Keeps space (record_len (take space (drop pos bytes)))

pax_loop-Keeps :
    (fuel pos : ℕ) (bytes : Bytes) (p : TarParser) → Keeps p (pax_loop fuel pos bytes p)
unfolding pax_loop
pax_loop-Keeps zero pos bytes p = elim (Bool-cases (ltb pos (length bytes))) [
  | inl more ↦ rw more tt
  | inr done ↦ rw done (Same-refl p)
]
pax_loop-Keeps (suc fuel) pos bytes p = elim (Bool-cases (ltb pos (length bytes))) [
  | inl more ↦ rw more (
      with_space-Keeps (λ end q. pax_loop fuel end bytes q) (λ n q. pax_loop-Keeps fuel n bytes q)
        pos bytes p (position (λ b. b == b' ') (drop pos bytes)))
  | inr done ↦ rw done (Same-refl p)
]

pub parse_pax_data-Keeps : (bytes : Bytes) (p : TarParser) → Keeps p (parse_pax_data bytes p)
unfolding parse_pax_data
parse_pax_data-Keeps bytes p = pax_loop-Keeps (length bytes) 0 bytes p
