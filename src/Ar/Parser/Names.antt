-- ===== src/Ar/Parser/Names.antt =====
-- src/ar/parser.rs, `lookup_long_name`: names in the long-name table.
use iluvatar.Common.{
  ℕ, ◌≤◌, ◌<◌, ◌≡◌, refl, ap, ◌∙◌, arith, Bool, false, ◌||◌, ◌==◌, [], ◌∷◌, ◌++◌, some, length,
  length-append, take, drop-append, take-append, le→ltb, Bytes, All,
}
use iluvatar.Common.Search.{position_or_len, position_or_len-append, strip_last, strip_last-concat}
use iluvatar.Common.Utf8.{from_utf8_lossy}
use iluvatar.Errors.{ok}
use iluvatar.Ar.Parser.{ArParser, decoded_name, name_in_table, lookup_long_name}

-- The bytes that end a name in the table.
abbrev ends_name : ℕ → Bool
ends_name b = b == b'\n' || b == 0

-- A table with a name in it, as GNU ar writes it: `<name>/` and a newline.
abbrev pub gnu_table : (before name after : Bytes) → Bytes
gnu_table before name after = before ++ ((name ++ (b'/' ∷ [])) ++ (b'\n' ∷ after))

All-slash :
    (name : Bytes)
    → All (λ b. ends_name b ≡ false) name
    → All (λ b. ends_name b ≡ false) (name ++ (b'/' ∷ []))
All-slash [] h = (refl, tt)
All-slash (x ∷ xs) h = (h.0, All-slash xs h.1)

decoded_name-cons : (name : Bytes) → 0 < length name → decoded_name name ≡ ok (from_utf8_lossy name)
unfolding decoded_name
decoded_name-cons [] h = absurd (omega arith)
decoded_name-cons (c ∷ cs) h = refl

module _ (before name after : Bytes) where
  abbrev line : Bytes
  line = name ++ (b'/' ∷ [])

  -- What the lookup cuts out at the name's offset.
  found : Bytes → Bytes
  found tail = strip_last b'/' (take (position_or_len ends_name tail) tail)

  found-line : All (λ b. ends_name b ≡ false) name → found (line ++ (b'\n' ∷ after)) ≡ name
  unfolding found
  found-line clean =
      ap (λ k. strip_last b'/' (take k (line ++ (b'\n' ∷ after))))
        (position_or_len-append ends_name line after b'\n' (All-slash name clean) refl)
      ∙ ap (strip_last b'/') (take-append line (b'\n' ∷ after))
      ∙ strip_last-concat b'/' name

  name_in_table-gnu :
      All (λ b. ends_name b ≡ false) name
      → 0 < length name
      → name_in_table (length before) (gnu_table before name after) ≡ ok (from_utf8_lossy name)
  unfolding name_in_table found
  name_in_table-gnu clean nonempty =
      rw (le→ltb (length (gnu_table before name after)) (length before) in_range) (
        ap (λ tail. decoded_name (found tail)) (drop-append before (line ++ (b'\n' ∷ after)))
        ∙ ap decoded_name (found-line clean)
        ∙ decoded_name-cons name nonempty)
    where
      in_range : length before ≤ length (gnu_table before name after)
      in_range = omega (arith, length-append before (line ++ (b'\n' ∷ after)))

  -- A name in the long-name table, of one byte at least, with no newline and no NUL in it, and ended
  -- by a slash and a newline, is found at its offset,
  -- whatever stands before and behind it, and decoded.
  pub lookup_long_name-gnu :
      (p : ArParser)
      → p.name_table ≡ some (gnu_table before name after)
      → All (λ b. ((b == b'\n') || (b == 0)) ≡ false) name
      → 0 < length name
      → lookup_long_name (length before) p ≡ ok (from_utf8_lossy name)
  unfolding lookup_long_name
  lookup_long_name-gnu p e clean nonempty = rw e (name_in_table-gnu clean nonempty)
