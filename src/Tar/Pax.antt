-- ===== src/Tar/Pax.antt =====
-- src/tar/parser.rs, `parse_pax_data`: the records of a PAX extended header.
pub mod Frame
pub mod Keeps
pub mod Walks
pub mod Ends
use iluvatar.Common.{
  ℕ, zero, suc, ◌+◌, Bool, true, false, List, [], ◌∷◌, Option, none, some, length, slice, take,
  drop, ltb, ◌==◌, bytes_eq, Bytes, if◌then◌else◌,
}
use iluvatar.Common.Sizes.{add_u64}
use iluvatar.Common.Search.{position, strip_last}
use iluvatar.Common.Utf8.{from_utf8_lossy, is_utf8}
use iluvatar.Common.Numerals.{from_str_radix}
use iluvatar.Tar.State.{TarParser}

-- The loop's end: the parser as it leaves it, a slice out of range, or no fuel.
pub data Walk : Type 0 where
  walked : TarParser → Walk
  crashed stuck : Walk

abbrev path_key : Bytes
path_key = b'p' ∷ b'a' ∷ b't' ∷ b'h' ∷ []

abbrev linkpath_key : Bytes
linkpath_key = b'l' ∷ b'i' ∷ b'n' ∷ b'k' ∷ path_key

abbrev size_key : Bytes
size_key = b's' ∷ b'i' ∷ b'z' ∷ b'e' ∷ []

-- A size that is no number changes nothing.
unfoldable pub set_size : Option ℕ → TarParser → TarParser
set_size none p = p
set_size (some size) p = record p { pax_size = some size }

-- The `match` on the key.
unfoldable pub set_attribute : Bytes → Bytes → TarParser → TarParser
set_attribute key value p =
    if bytes_eq key path_key
    then record p { pax_path = some value }
    else if bytes_eq key linkpath_key
    then record p { pax_linkpath = some value }
    else if bytes_eq key size_key
    then set_size (from_str_radix 10 value) p
    else p

-- The key stands before the first `=`, the value behind it; with no `=` the record is passed over.
unfoldable pub split_record : Bytes → Option ℕ → TarParser → TarParser
split_record body none p = p
split_record body (some eq) p =
    set_attribute (take eq body) (from_utf8_lossy (drop (eq + 1) body)) p

-- The record behind its length field, with its newline stripped.
unfoldable pub apply_record : Bytes → TarParser → TarParser
apply_record line p =
    let body = strip_last b'\n' line in split_record body (position (λ b. b == b'=') body) p

-- `str::from_utf8(digits).ok().and_then(|s| s.parse().ok())`
unfoldable pub record_len : Bytes → Option ℕ
record_len digits = if is_utf8 digits then from_str_radix 10 digits else none

-- The rest of a round, with the space and the length known. `pos + len` wraps, and a slice that
-- ends before it begins panics.
unfoldable pub pax_round : (ℕ → TarParser → Walk) → (pos space len : ℕ) → Bytes → TarParser → Walk
pax_round next pos space len bytes p =
    let end = add_u64 pos len in
    let rest = next end (apply_record (slice (pos + space + 1) end bytes) p) in
    if ltb space len
    then (if ltb (length bytes) end
        then walked p
        else if ltb end (pos + space + 1)
        then crashed
        else rest)
    else walked p

-- The length field ends at the first space, and must be a number.
unfoldable pub with_len :
    (ℕ → TarParser → Walk) → (pos space : ℕ) → Option ℕ → Bytes → TarParser → Walk
with_len next pos space none bytes p = walked p
with_len next pos space (some len) bytes p = pax_round next pos space len bytes p

unfoldable pub with_space : (ℕ → TarParser → Walk) → ℕ → Option ℕ → Bytes → TarParser → Walk
with_space next pos none bytes p = walked p
with_space next pos (some space) bytes p =
    with_len next pos space (record_len (take space (drop pos bytes))) bytes p

-- `while pos < data.len()`
unfoldable pub pax_loop : ℕ → ℕ → Bytes → TarParser → Walk
pax_loop zero pos bytes p = if ltb pos (length bytes) then stuck else walked p
pax_loop (suc fuel) pos bytes p =
    let rest =
      with_space (λ end q. pax_loop fuel end bytes q) pos
        (position (λ b. b == b' ') (drop pos bytes)) bytes p in
    if ltb pos (length bytes) then rest else walked p

-- Each round moves on by a byte at least, so `data.len()` rounds are enough.
unfoldable pub parse_pax_data : Bytes → TarParser → Walk
parse_pax_data bytes p = pax_loop (length bytes) 0 bytes p
