-- ===== src/Tar/Pax/Frame.antt =====
-- src/tar/parser.rs, `parse_pax_data`: the walk over PAX records and the parser's state.
use iluvatar.Common.{
  ℕ, zero, suc, ◌+◌, ◌≡◌, refl, arith, Option, none, some, length, take, drop, ltb, Bytes, slice,
  ◌==◌, inl, inr, Bool-cases,
}
use iluvatar.Common.Search.{position, strip_last}
use iluvatar.Common.Utf8.{from_utf8_lossy}
use iluvatar.Common.Numerals.{from_str_radix}
use iluvatar.Common.Sizes.{add_u64}
use iluvatar.Tar.State.{TarParser, ParserState}
use iluvatar.Tar.Pax.{
  Walk, walked, crashed, stuck, set_size, set_attribute, split_record, apply_record, with_len,
  with_space, pax_round, pax_loop, parse_pax_data, record_len,
}

abbrev pub with_state : ParserState → TarParser → TarParser
with_state s p = record p { state = s }

abbrev pub walk_map : (TarParser → TarParser) → Walk → Walk
walk_map f (walked p) = walked (f p)
walk_map f crashed = crashed
walk_map f stuck = stuck

set_size-with_state :
    (s : ParserState) (size : Option ℕ) (p : TarParser)
    → set_size size (with_state s p) ≡ with_state s (set_size size p)
unfolding set_size
set_size-with_state s none p = refl
set_size-with_state s (some n) p = refl

set_attribute-with_state :
    (s : ParserState) (key value : Bytes) (p : TarParser)
    → set_attribute key value (with_state s p) ≡ with_state s (set_attribute key value p)
unfolding set_attribute
set_attribute-with_state s key value p =
    ground (arith, set_size-with_state s (from_str_radix 10 value) p)

split_record-with_state :
    (s : ParserState) (body : Bytes) (eq : Option ℕ) (p : TarParser)
    → split_record body eq (with_state s p) ≡ with_state s (split_record body eq p)
unfolding split_record
split_record-with_state s body none p = refl
split_record-with_state s body (some eq) p =
    set_attribute-with_state s (take eq body) (from_utf8_lossy (drop (eq + 1) body)) p

apply_record-with_state :
    (s : ParserState) (line : Bytes) (p : TarParser)
    → apply_record line (with_state s p) ≡ with_state s (apply_record line p)
unfolding apply_record
apply_record-with_state s line p =
    split_record-with_state s (strip_last b'\n' line)
      (position (λ b. b == b'=') (strip_last b'\n' line)) p

pax_round-with_state :
    (s : ParserState) (next : ℕ → TarParser → Walk)
    → ((n : ℕ) (q : TarParser) → next n (with_state s q) ≡ walk_map (with_state s) (next n q))
    → (pos space len : ℕ) (bytes : Bytes) (p : TarParser)
    → pax_round next pos space len bytes (with_state s p)
      ≡ walk_map (with_state s) (pax_round next pos space len bytes p)
unfolding pax_round
pax_round-with_state s next h pos space len bytes p = ground (
  arith,
  apply_record-with_state s (slice (pos + space + 1) (add_u64 pos len) bytes) p,
  h (add_u64 pos len) (apply_record (slice (pos + space + 1) (add_u64 pos len) bytes) p),
)

with_len-with_state :
    (s : ParserState) (next : ℕ → TarParser → Walk)
    → ((n : ℕ) (q : TarParser) → next n (with_state s q) ≡ walk_map (with_state s) (next n q))
    → (pos space : ℕ) (len : Option ℕ) (bytes : Bytes) (p : TarParser)
    → with_len next pos space len bytes (with_state s p)
      ≡ walk_map (with_state s) (with_len next pos space len bytes p)
unfolding with_len
with_len-with_state s next h pos space none bytes p = refl
with_len-with_state s next h pos space (some len) bytes p =
    pax_round-with_state s next h pos space len bytes p

with_space-with_state :
    (s : ParserState) (next : ℕ → TarParser → Walk)
    → ((n : ℕ) (q : TarParser) → next n (with_state s q) ≡ walk_map (with_state s) (next n q))
    → (pos : ℕ) (space : Option ℕ) (bytes : Bytes) (p : TarParser)
    → with_space next pos space bytes (with_state s p)
      ≡ walk_map (with_state s) (with_space next pos space bytes p)
unfolding with_space
with_space-with_state s next h pos none bytes p = refl
with_space-with_state s next h pos (some space) bytes p =
    with_len-with_state s next h pos space (record_len (take space (drop pos bytes))) bytes p

pax_loop-with_state :
    (s : ParserState) (fuel pos : ℕ) (bytes : Bytes) (p : TarParser)
    → pax_loop fuel pos bytes (with_state s p) ≡ walk_map (with_state s) (pax_loop fuel pos bytes p)
unfolding pax_loop
pax_loop-with_state s zero pos bytes p = ground arith
pax_loop-with_state s (suc fuel) pos bytes p = elim (Bool-cases (ltb pos (length bytes))) [
  | inl more ↦ rw more (
      with_space-with_state s (λ end q. pax_loop fuel end bytes q)
        (λ n q. pax_loop-with_state s fuel n bytes q) pos
        (position (λ b. b == b' ') (drop pos bytes)) bytes p)
  | inr done ↦ rw done
]

pub parse_pax_data-with_state :
    (s : ParserState) (bytes : Bytes) (p : TarParser)
    → parse_pax_data bytes (with_state s p) ≡ walk_map (with_state s) (parse_pax_data bytes p)
unfolding parse_pax_data
parse_pax_data-with_state s bytes p = pax_loop-with_state s (length bytes) 0 bytes p
