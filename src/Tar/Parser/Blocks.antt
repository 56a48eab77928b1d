-- ===== src/Tar/Parser/Blocks.antt =====
-- src/tar/parser.rs: header blocks that arrive in chunks.
use iluvatar.Common.{
  ℕ, ◌+◌, ◌-◌, ◌≤◌, ◌<◌, min, ◌≡◌, refl, sym, ap, ◌∙◌, arith, ◌++◌, length, take, length-append,
  write_at-append, Bytes, take-append_past, take-append_within, take-length,
}
use iluvatar.Common.Sizes.{add_u64}
use iluvatar.Errors.{Result, ok, err}
use iluvatar.Archive.{fed, advance, and_then, need_data}
use iluvatar.Tar.Header.{block_size, parse_header}
use iluvatar.Tar.Entry.{TarEntry, TarEntryType}
use iluvatar.Tar.State.{TarParser, Outcome}
use iluvatar.Tar.Pax.{Walk, walked}
use iluvatar.Tar.Parser.{
  fill, with_parsed, emit, finish_header, finish_second_zero, process_header, dispatch,
  handle_entry, after_walk,
}

-- The count of consumed bytes is passed through, so it can be shifted.
dispatch-advance :
    (t : TarEntryType) (k n : ℕ) (e : TarEntry) (p : TarParser)
    → dispatch t (k + n) e p ≡ advance k (dispatch t n e p)
unfolding dispatch emit
dispatch-advance TarEntryType.regular k n e p = refl
dispatch-advance _ k n e p = refl

handle_entry-advance :
    (k n : ℕ) (e : TarEntry) (p : TarParser)
    → handle_entry (k + n) e p ≡ advance k (handle_entry n e p)
unfolding handle_entry
handle_entry-advance k n e p = ground (arith, dispatch-advance e.entry_type k n e p)

with_parsed-advance :
    (r : Result TarEntry) (k n : ℕ) (p : TarParser)
    → with_parsed r (k + n) p ≡ advance k (with_parsed r n p)
unfolding with_parsed
with_parsed-advance (ok e) k n p = handle_entry-advance k n e p
with_parsed-advance (err x) k n p = refl

process_header-advance :
    (k n : ℕ) (p : TarParser) → process_header (k + n) p ≡ advance k (process_header n p)
unfolding process_header
process_header-advance k n p = with_parsed-advance (parse_header p.header_buf p.stream_pos) k n p

pub finish_header-advance :
    (k n : ℕ) (p : TarParser) → finish_header (k + n) p ≡ advance k (finish_header n p)
unfolding finish_header
finish_header-advance k n p =
    ground (arith, process_header-advance k n (record p { header_pos = 0 }))

pub finish_second_zero-advance :
    (k n : ℕ) (p : TarParser) → finish_second_zero (k + n) p ≡ advance k (finish_second_zero n p)
unfolding finish_second_zero
finish_second_zero-advance k n p =
    ground (arith, process_header-advance k n (record p { header_pos = 0 }))

pub after_walk-advance : (k n : ℕ) (w : Walk) → after_walk (k + n) w ≡ advance k (after_walk n w)
unfolding after_walk
after_walk-advance k n (walked p) = refl
after_walk-advance k n _ = refl

fill-append : (xs ys : Bytes) (p : TarParser) → fill ys (fill xs p) ≡ fill (xs ++ ys) p
unfolding fill
fill-append xs ys p = λ i. record p {
  header_buf = write_at-append p.header_buf p.header_pos xs ys i;
  header_pos = positions i;
  stream_pos = offsets i;
}
  where
    positions : p.header_pos + length xs + length ys ≡ p.header_pos + length (xs ++ ys)
    positions = omega (arith, length-append xs ys)

    offsets :
        add_u64 (add_u64 p.stream_pos (length xs)) (length ys)
        ≡ add_u64 p.stream_pos (length (xs ++ ys))
    offsets = omega (arith, length-append xs ys)

-- A block that is filled by `fill` and handled by `finish`, as in `feed_header` and
-- `feed_second_zero`.
module _ (finish : ℕ → TarParser → Outcome)
    (finish-advance : (k n : ℕ) (p : TarParser) → finish (k + n) p ≡ advance k (finish n p))
    (finish_partial : (n : ℕ) (p : TarParser)
      → p.header_pos < block_size
      → finish n p ≡ fed n need_data p) where
  abbrev pub block_count : Bytes → TarParser → ℕ
  block_count xs p = min (length xs) (block_size - p.header_pos)

  abbrev pub block : Bytes → TarParser → Outcome
  block xs p = finish (block_count xs p) (fill (take (block_count xs p) xs) p)

  block_at :
      (n : ℕ) (xs ys : Bytes) (p : TarParser)
      → block_count xs p ≡ n
      → take n xs ≡ ys
      → block xs p ≡ finish n (fill ys p)
  block_at n xs ys p e h = rw (e, h)

  pub block_partial :
      (a : Bytes) (p : TarParser)
      → length a < block_size - p.header_pos
      → block a p ≡ fed (length a) need_data (fill a p)
  unfolding fill
  block_partial a p h =
      block_at (length a) a a p (omega arith) (take-length (length a) a (omega arith))
      ∙ finish_partial (length a) (fill a p) (omega arith)

  pub block-short :
      (a b : Bytes) (p : TarParser)
      → length a < block_size - p.header_pos
      → block (a ++ b) p ≡ and_then (block a p) (block b)
  unfolding fill
  block-short a b p h =
      let q = fill a p in
      let k = block_count b q in
      block_at (length a + k) (a ++ b) (a ++ take k b) p counts (take-append_past k a b)
      ∙ finish-advance (length a) k (fill (a ++ take k b) p)
      ∙ ap (λ r. advance (length a) (finish k r)) (sym (fill-append a (take k b) p))
      ∙ ap (λ r. and_then r (block b)) (sym (block_partial a p h))
    where
      counts : block_count (a ++ b) p ≡ length a + block_count b (fill a p)
      counts = omega (arith, length-append a b)

  pub block-long :
      (a b : Bytes) (p : TarParser)
      → block_size - p.header_pos ≤ length a
      → block (a ++ b) p ≡ block a p
  block-long a b p h =
      block_at (block_size - p.header_pos) (a ++ b) (take (block_size - p.header_pos) a) p
        (omega (arith, length-append a b)) (take-append_within (block_size - p.header_pos) a b h)
      ∙ sym (
          block_at (block_size - p.header_pos) a (take (block_size - p.header_pos) a) p
            (omega arith) refl)
