-- ===== src/Tar/Parser/Accounting.antt =====
-- src/tar/parser.rs: the bytes that each handler consumes.
use iluvatar.Common.{
  ℕ, ◌+◌, ◌-◌, ◌≤◌, ◌<◌, ◌≡◌, refl, arith, min, Bool, true, false, [], ◌∷◌, length, take,
  length-take, length-append, length-write_at, Bytes, ◌==◌, subst, Bool-cases, inl, inr,
}
use iluvatar.Common.Sizes.{add_u64}
use iluvatar.Archive.{Event, fed}
use iluvatar.Tar.Entry.{TarEntry}
use iluvatar.Tar.Header.{block_size}
use iluvatar.Tar.Pax.Keeps.{Keeps, parse_pax_data-Keeps}
use iluvatar.Tar.State.{
  new, ParserState, reading_header, skipping_data, reading_pax_data, reading_gnu_long,
  one_zero_block, at_end, TarParser,
}
use iluvatar.Tar.Pax.{Walk, walked, crashed, stuck, parse_pax_data}
use iluvatar.Tar.Parser.Needed.{needed, needed_in}
use iluvatar.Tar.Parser.{
  fill, feed_header, feed_second_zero, feed_skip, accumulate, after_walk, finish_pax, feed_pax,
  store_long, finish_gnu_long, feed_gnu_long, feed_in, feed_tar,
}
use iluvatar.Tar.Parser.Invariant.{
  IsValid, PosIsValid, DataIsValid, Advanced, Accounts, Filled, finish_header-Accounts,
  finish_second_zero-Accounts,
}

Advanced-nil : (p : TarParser) → IsValid p → Advanced p p 0 0
Advanced-nil p v = record { within = omega arith; moved = omega (arith, v.fits); valid = v }

fill-Filled :
    (xs : Bytes) (p : TarParser)
    → needed p ≡ block_size - p.header_pos
    → p.header_pos < block_size
    → ((n : ℕ) → n < block_size → PosIsValid p.state n)
    → DataIsValid p.state
    → IsValid p
    → Filled p
        (fill (take (min (length xs) (block_size - p.header_pos)) xs) p)
        (length xs)
        (min (length xs) (block_size - p.header_pos))
unfolding fill
fill-Filled xs p e lt in_block kept v =
    let n = min (length xs) (block_size - p.header_pos) in
    record {
      within = omega (arith, e);
      moved = omega (arith, length-take n xs);
      buf_len = omega (arith, length-write_at p.header_buf p.header_pos (take n xs), v.buf_len);
      pos_le = omega (arith, length-take n xs);
      same_state = refl;
      pos_state = (in_block _, kept);
    }

header-Accounts :
    (xs : Bytes) (p : TarParser)
    → p.state ≡ reading_header
    → IsValid p
    → Accounts p (length xs) (feed_header xs p)
unfolding feed_header needed_in
header-Accounts [] p e v = Advanced-nil p v
header-Accounts (x ∷ xs) p e v =
    finish_header-Accounts p _ (length (x ∷ xs)) _
      (fill-Filled (x ∷ xs) p (rw e) (ground (arith, v.pos_ok)) (λ n h. rw e h) (rw e tt) v)

second_zero-Accounts :
    (xs : Bytes) (p : TarParser)
    → p.state ≡ one_zero_block
    → IsValid p
    → Accounts p (length xs) (feed_second_zero xs p)
unfolding feed_second_zero needed_in
second_zero-Accounts [] p e v = Advanced-nil p v
second_zero-Accounts (x ∷ xs) p e v =
    finish_second_zero-Accounts p _ (length (x ∷ xs)) _
      (fill-Filled (x ∷ xs) p (rw e) (ground (arith, v.pos_ok)) (λ n h. rw e h) (rw e tt) v)

skip-Accounts :
    (remaining : ℕ) (xs : Bytes) (p : TarParser)
    → p.state ≡ skipping_data remaining
    → IsValid p
    → Accounts p (length xs) (feed_skip remaining xs p)
unfolding feed_skip needed_in
skip-Accounts remaining [] p e v = Advanced-nil p v
skip-Accounts remaining (x ∷ xs) p e v = ground (arith, v.fits, v.buf_len, v.pos_ok)

accumulate-bounds :
    (size n remaining : ℕ) (buf xs : Bytes)
    → n ≡ min (length xs) remaining
    → length buf ≤ size
    → size ≤ length buf + remaining
    → (length (accumulate size buf n xs) ≤ size)
      × (size ≤ length (accumulate size buf n xs) + (remaining - n))
unfolding accumulate
accumulate-bounds size n remaining buf xs e h k = omega (
  arith,
  length-append buf (take (min n (size - length buf)) xs),
  length-take (min n (size - length buf)) xs,
)

-- The parser that reads data behind a header, with `n` bytes of the chunk consumed.
record Reading (p q : TarParser) (len remaining n : ℕ) : Type 0 where
  within : n ≡ min len remaining
  need : needed p ≡ remaining
  moved : q.stream_pos ≡ add_u64 p.stream_pos n
  buf_len : length q.header_buf ≡ block_size
  pos_zero : q.header_pos ≡ 0

after_walk-Accounts :
    (p q : TarParser) (len remaining n : ℕ) (w : Walk)
    → Reading p q len remaining n
    → Keeps q w
    → Accounts p len (after_walk n w)
unfolding after_walk
after_walk-Accounts p q len remaining n (walked r) g k = ground arith
after_walk-Accounts p q len remaining n crashed g k = tt
after_walk-Accounts p q len remaining n stuck g k = tt

finish_pax-Accounts :
    (p q : TarParser) (len remaining n size : ℕ) (kept : Bytes)
    → Reading p q len remaining n
    → (length kept ≤ size) × (size ≤ length kept + (remaining - n))
    → Accounts p len (finish_pax n (remaining - n) size kept q)
unfolding finish_pax
finish_pax-Accounts p q len remaining n size kept g k = elim (Bool-cases (remaining - n == 0)) [
  | inl last ↦ rw last (
      after_walk-Accounts p q len remaining n (parse_pax_data kept q) g
        (parse_pax_data-Keeps kept q))
  | inr more ↦ rw more (ground arith)
]

pax-Accounts :
    (remaining size : ℕ) (buf xs : Bytes) (p : TarParser)
    → p.state ≡ reading_pax_data remaining size buf
    → IsValid p
    → Accounts p (length xs) (feed_pax remaining size buf xs p)
unfolding feed_pax
pax-Accounts remaining size buf [] p e v = Advanced-nil p v
pax-Accounts remaining size buf (x ∷ xs) p e v =
    let n = min (length (x ∷ xs)) remaining in
    let kept = subst DataIsValid e v.data_ok in
    finish_pax-Accounts p (record p { stream_pos = add_u64 p.stream_pos n }) (length (x ∷ xs))
      remaining n size (accumulate size buf n (x ∷ xs))
      (record {
        within = refl;
        need = unfold needed_in in rw e;
        moved = refl;
        buf_len = v.buf_len;
        pos_zero = subst (λ s. PosIsValid s p.header_pos) e v.pos_ok;
      })
      (accumulate-bounds size n remaining buf (x ∷ xs) refl kept.0 kept.1)

finish_gnu_long-Accounts :
    (p q : TarParser) (len remaining n size : ℕ) (kept : Bytes) (is_link : Bool)
    → Reading p q len remaining n
    → (length kept ≤ size) × (size ≤ length kept + (remaining - n))
    → Accounts p len (finish_gnu_long n (remaining - n) size kept is_link q)
unfolding finish_gnu_long store_long
finish_gnu_long-Accounts p q len remaining n size kept true g k = ground arith
finish_gnu_long-Accounts p q len remaining n size kept false g k = ground arith

gnu_long-Accounts :
    (remaining size : ℕ) (buf : Bytes) (is_link : Bool) (xs : Bytes) (p : TarParser)
    → p.state ≡ reading_gnu_long remaining size buf is_link
    → IsValid p
    → Accounts p (length xs) (feed_gnu_long remaining size buf is_link xs p)
unfolding feed_gnu_long
gnu_long-Accounts remaining size buf is_link [] p e v = Advanced-nil p v
gnu_long-Accounts remaining size buf is_link (x ∷ xs) p e v =
    let n = min (length (x ∷ xs)) remaining in
    let kept = subst DataIsValid e v.data_ok in
    finish_gnu_long-Accounts p (record p { stream_pos = add_u64 p.stream_pos n }) (length (x ∷ xs))
      remaining n size (accumulate size buf n (x ∷ xs)) is_link
      (record {
        within = refl;
        need = unfold needed_in in rw e;
        moved = refl;
        buf_len = v.buf_len;
        pos_zero = subst (λ s. PosIsValid s p.header_pos) e v.pos_ok;
      })
      (accumulate-bounds size n remaining buf (x ∷ xs) refl kept.0 kept.1)

feed_in-Accounts :
    (st : ParserState) (xs : Bytes) (p : TarParser)
    → p.state ≡ st
    → IsValid p
    → Accounts p (length xs) (feed_in st xs p)
unfolding feed_in
feed_in-Accounts reading_header xs p e v = header-Accounts xs p e v
feed_in-Accounts (skipping_data remaining) xs p e v = skip-Accounts remaining xs p e v
feed_in-Accounts (reading_pax_data remaining size buf) xs p e v =
    pax-Accounts remaining size buf xs p e v
feed_in-Accounts (reading_gnu_long remaining size buf is_link) xs p e v =
    gnu_long-Accounts remaining size buf is_link xs p e v
feed_in-Accounts one_zero_block xs p e v = second_zero-Accounts xs p e v
feed_in-Accounts at_end xs p e v =
    unfold needed_in in
    record { within = rw e (omega arith); moved = omega (arith, v.fits); valid = v }

feed_tar-Accounts :
    (xs : Bytes) (p : TarParser) → IsValid p → Accounts p (length xs) (feed_tar xs p)
unfolding feed_tar
feed_tar-Accounts xs p v = feed_in-Accounts p.state xs p refl v

-- On a parser that meets the invariant, a call of `feed_tar` that does not fail keeps the invariant, consumes the chunk up to the
-- parser's next change of state, and moves the stream position by what it consumes.
pub feed_tar-Advanced :
    (xs : Bytes) (p q : TarParser) (n : ℕ) (ev : Event TarEntry)
    → IsValid p
    → feed_tar xs p ≡ fed n ev q
    → Advanced p q (length xs) n
feed_tar-Advanced xs p q n ev v e = subst (Accounts p (length xs)) e (feed_tar-Accounts xs p v)

-- The new parser meets the invariant.
pub new-IsValid : IsValid new
new-IsValid = record { fits = omega arith; buf_len = refl; pos_ok = omega arith; data_ok = tt }
