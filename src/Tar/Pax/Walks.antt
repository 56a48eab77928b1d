-- ===== src/Tar/Pax/Walks.antt =====
-- src/tar/parser.rs, `parse_pax_data`: well-formed PAX records, and the walk over them.
use mathlib.Core.List.{append_assoc}
use iluvatar.Common.{
  ℕ, zero, suc, ◌+◌, ◌≤◌, ◌<◌, ◌≡◌, refl, sym, ap, ◌∙◌, arith, false, some, List, [], ◌∷◌, ◌++◌,
  length, take, drop, Bytes, slice, ◌==◌, All, lt→ltb, le→ltb, length-append, slice-append,
  drop-append, drop-append_past, take-append,
}
use iluvatar.Common.Search.{position, position-append, strip_last-concat}
use iluvatar.Common.Utf8.{from_utf8_lossy}
use iluvatar.Common.Sizes.{add_u64, IsU64}
use iluvatar.Tar.State.{TarParser}
use iluvatar.Tar.Pax.{
  Walk, walked, set_attribute, split_record, apply_record, pax_round, with_len, with_space,
  pax_loop, parse_pax_data, record_len,
}

-- A round whose space and length are found.
pub pax_loop_round :
    (fuel pos space len : ℕ) (bytes : Bytes) (p : TarParser)
    → pos < length bytes
    → position (λ b. b == b' ') (drop pos bytes) ≡ some space
    → record_len (take space (drop pos bytes)) ≡ some len
    → pax_loop (suc fuel) pos bytes p
      ≡ pax_round (λ end q. pax_loop fuel end bytes q) pos space len bytes p
unfolding pax_loop with_space with_len
pax_loop_round fuel pos space len bytes p h e l =
    let next : ℕ → TarParser → Walk = λ end q. pax_loop fuel end bytes q in
    rw (lt→ltb pos (length bytes) h)
      (ap (λ s. with_space next pos s bytes p) e ∙ ap (λ r. with_len next pos space r bytes p) l)

-- A round whose record lies within the data.
pub pax_round_within :
    (next : ℕ → TarParser → Walk) (pos space len : ℕ) (bytes : Bytes) (p : TarParser)
    → space < len
    → pos + len ≤ length bytes
    → IsU64 (length bytes)
    → pax_round next pos space len bytes p
      ≡ next (pos + len) (apply_record (slice (pos + space + 1) (pos + len) bytes) p)
unfolding pax_round
pax_round_within next pos space len bytes p h k fits =
    let sum : add_u64 pos len ≡ pos + len = omega arith in
    rw (
      sum,
      lt→ltb space len h,
      le→ltb (length bytes) (pos + len) k,
      le→ltb (pos + len) (pos + space + 1) (omega arith),
    )

-- A record of a PAX header: its length field, its key and its value.
pub record PaxRecord : Type 0 where
  pub digits : Bytes
  pub key : Bytes
  pub value : Bytes

abbrev body : PaxRecord → Bytes
body r = r.key ++ (b'=' ∷ r.value)

abbrev pub encode : PaxRecord → Bytes
encode r = r.digits ++ (b' ' ∷ (body r ++ (b'\n' ∷ [])))

-- The length field counts the record, itself included, and the key holds no `=`.
pub record IsRecord (r : PaxRecord) : Type 0 where
  pub len : record_len r.digits ≡ some (length (encode r))
  pub no_space : All (λ b. (b == b' ') ≡ false) r.digits
  pub no_equals : All (λ b. (b == b'=') ≡ false) r.key

abbrev pub apply : PaxRecord → TarParser → TarParser
apply r p = set_attribute r.key (from_utf8_lossy r.value) p

apply_record-body :
    (r : PaxRecord) (p : TarParser)
    → IsRecord r
    → apply_record (body r ++ (b'\n' ∷ [])) p ≡ apply r p
unfolding apply_record
apply_record-body r p w =
    ap (λ l. split_record l (position (λ b. b == b'=') l) p) (strip_last-concat b'\n' (body r))
    ∙ ap (λ e. split_record (body r) e p)
        (position-append (λ b. b == b'=') r.key r.value b'=' w.no_equals refl)
    ∙ parts
  where
    parts : split_record (body r) (some (length r.key)) p ≡ apply r p
    parts =
        unfold split_record in
        (λ i.
          set_attribute (take-append r.key (b'=' ∷ r.value) i)
            (from_utf8_lossy (drop-append_past r.key r.value b'=' i)) p)

-- The data of a header, cut at a record's length field, and at its body.
module _ (pre rest : Bytes) (r : PaxRecord) where
  abbrev line : Bytes
  line = body r ++ (b'\n' ∷ [])

  abbrev front : Bytes
  front = pre ++ (r.digits ++ (b' ' ∷ []))

  at_field : encode r ++ rest ≡ r.digits ++ (b' ' ∷ (line ++ rest))
  at_field = append_assoc r.digits (b' ' ∷ line) rest

  at_line : pre ++ (encode r ++ rest) ≡ front ++ (line ++ rest)
  at_line =
      ap (λ t. pre ++ t) (at_field ∙ sym (append_assoc r.digits (b' ' ∷ []) (line ++ rest)))
      ∙ sym (append_assoc pre (r.digits ++ (b' ' ∷ [])) (line ++ rest))

  length-front : length front ≡ length pre + length r.digits + 1
  length-front =
      omega (arith, length-append pre (r.digits ++ (b' ' ∷ [])), length-append r.digits (b' ' ∷ []))

  length-encode : length (encode r) ≡ length r.digits + 1 + length line
  length-encode = omega (arith, length-append r.digits (b' ' ∷ line))

  length-all : length (pre ++ (encode r ++ rest)) ≡ length pre + length (encode r) + length rest
  length-all = omega (arith, length-append pre (encode r ++ rest), length-append (encode r) rest)

  slice-line :
      slice
        (length pre + length r.digits + 1)
        (length pre + length (encode r))
        (pre ++ (encode r ++ rest))
      ≡ line
  slice-line =
      ap (slice _ _) at_line
      ∙ slice-append front line rest _ _ (omega (arith, length-front))
          (omega (arith, length-front, length-encode))

  tail_at : drop (length pre) (pre ++ (encode r ++ rest)) ≡ r.digits ++ (b' ' ∷ (line ++ rest))
  tail_at = drop-append pre (encode r ++ rest) ∙ at_field

pax_loop-encode :
    (fuel : ℕ) (pre rest : Bytes) (r : PaxRecord) (p : TarParser)
    → IsRecord r
    → IsU64 (length (pre ++ (encode r ++ rest)))
    → pax_loop (suc fuel) (length pre) (pre ++ (encode r ++ rest)) p
      ≡ pax_loop fuel (length pre + length (encode r)) (pre ++ (encode r ++ rest)) (apply r p)
pax_loop-encode fuel pre rest r p w fits =
    let bytes = pre ++ (encode r ++ rest) in
    let next : ℕ → TarParser → Walk = λ end q. pax_loop fuel end bytes q in
    pax_loop_round fuel (length pre) (length r.digits) (length (encode r)) bytes p
      (omega (arith, length-all pre rest r, length-encode pre rest r))
      (ap (position (λ b. b == b' ')) (tail_at pre rest r)
        ∙ position-append (λ b. b == b' ') r.digits (line pre rest r ++ rest) b' ' w.no_space refl)
      (ap (λ t. record_len (take (length r.digits) t)) (tail_at pre rest r)
        ∙ ap record_len (take-append r.digits (b' ' ∷ (line pre rest r ++ rest)))
        ∙ w.len)
    ∙ pax_round_within next (length pre) (length r.digits) (length (encode r)) bytes p
        (omega (arith, length-encode pre rest r)) (omega (arith, length-all pre rest r)) fits
    ∙ ap (λ l. next (length pre + length (encode r)) (apply_record l p)) (slice-line pre rest r)
    ∙ ap (next (length pre + length (encode r))) (apply_record-body r p w)

pax_loop_done :
    (fuel pos : ℕ) (bytes : Bytes) (p : TarParser)
    → length bytes ≤ pos
    → pax_loop fuel pos bytes p ≡ walked p
unfolding pax_loop
pax_loop_done zero pos bytes p h = rw (le→ltb pos (length bytes) h)
pax_loop_done (suc fuel) pos bytes p h = rw (le→ltb pos (length bytes) h)

abbrev pub encode_all : List PaxRecord → Bytes
encode_all [] = []
encode_all (r ∷ rs) = encode r ++ encode_all rs

-- The attributes of a list of records, in order.
abbrev pub apply_all : List PaxRecord → TarParser → TarParser
apply_all [] p = p
apply_all (r ∷ rs) p = apply_all rs (apply r p)

pax_loop-encode_all :
    (rs : List PaxRecord) (fuel : ℕ) (pre : Bytes) (p : TarParser)
    → All IsRecord rs
    → IsU64 (length (pre ++ encode_all rs))
    → length rs ≤ fuel
    → pax_loop fuel (length pre) (pre ++ encode_all rs) p ≡ walked (apply_all rs p)
pax_loop-encode_all [] fuel pre p w fits h =
    pax_loop_done fuel (length pre) (pre ++ []) p (omega (arith, length-append pre []))
pax_loop-encode_all (r ∷ rs) zero pre p w fits h = absurd (omega arith)
pax_loop-encode_all (r ∷ rs) (suc fuel) pre p (w, ws) fits h =
    pax_loop-encode fuel pre (encode_all rs) r p w fits
    ∙ (λ i. pax_loop fuel (moved i) (again i) (apply r p))
    ∙ pax_loop-encode_all rs fuel (pre ++ encode r) (apply r p) ws
        (omega (arith, fits, ap length again)) (omega arith)
  where
    again : pre ++ (encode r ++ encode_all rs) ≡ (pre ++ encode r) ++ encode_all rs
    again = sym (append_assoc pre (encode r) (encode_all rs))

    moved : length pre + length (encode r) ≡ length (pre ++ encode r)
    moved = sym (length-append pre (encode r))

length-encode_all : (rs : List PaxRecord) → length rs ≤ length (encode_all rs)
length-encode_all [] = omega arith
length-encode_all (r ∷ rs) = omega (
  arith,
  length-encode_all rs,
  length-append (encode r) (encode_all rs),
  length-append r.digits (b' ' ∷ (body r ++ (b'\n' ∷ []))),
)

-- A PAX header that is made of well-formed records, in less than 2 ^ 64 bytes, is read back: each record's attribute is set,
-- in order, whatever bytes its value holds, newlines and spaces among them.
pub parse_pax_data-encode_all :
    (rs : List PaxRecord) (p : TarParser)
    → All IsRecord rs
    → IsU64 (length (encode_all rs))
    → parse_pax_data (encode_all rs) p ≡ walked (apply_all rs p)
unfolding parse_pax_data
parse_pax_data-encode_all rs p w fits =
    pax_loop-encode_all rs (length (encode_all rs)) [] p w fits (length-encode_all rs)
