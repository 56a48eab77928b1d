-- ===== src/Tar/Parser/Split.antt =====
-- src/tar/parser.rs, `feed_tar`: feeding in chunks.
use iluvatar.Common.{ℕ, ◌+◌, ◌≤◌, ◌<◌, ◌≡◌, refl, sym, ap, ◌∙◌, arith, [], ◌∷◌, ◌++◌, length, Bytes}
use mathlib.Core.List.{append-nil}
use iluvatar.Archive.{fed, failed, panicked, advance, and_then, need_data}
use iluvatar.Tar.State.{
  ParserState, reading_header, skipping_data, reading_pax_data, reading_gnu_long, one_zero_block,
  at_end, TarParser, Outcome,
}
use iluvatar.Tar.Parser.{
  finish_header, finish_second_zero, feed_header, feed_second_zero, feed_skip, finish_pax, feed_pax,
  finish_gnu_long, feed_gnu_long, feed_in, feed_tar,
}
use iluvatar.Tar.Parser.Needed.{needed_in, needed}
use iluvatar.Tar.Parser.Blocks.{block-long, finish_header-advance, finish_second_zero-advance}
use iluvatar.Tar.Parser.Kept.{kept-long}
use iluvatar.Tar.Parser.Metadata.{
  feed_skip-long, finish_pax-advance, finish_pax-with_state, finish_pax_partial,
  finish_gnu_long-advance, finish_gnu_long-with_state, finish_gnu_long_partial,
}
use iluvatar.Tar.Parser.Partial.{Partial-in, finish_header_partial, finish_second_zero_partial}

advance_zero : (r : Outcome) → advance 0 r ≡ r
advance_zero (fed n ev p) = ap (λ m. fed m ev p) (omega arith)
advance_zero (failed e p) = refl
advance_zero panicked = refl

feed_in_nil :
    (st : ParserState) (p : TarParser) → 0 < needed_in st p → feed_in st [] p ≡ fed 0 need_data p
unfolding needed_in feed_in feed_header feed_second_zero feed_skip feed_pax feed_gnu_long
feed_in_nil at_end p h = absurd (omega arith)
feed_in_nil _ p h = refl

pub feed_tar_nil : (p : TarParser) → 0 < needed p → feed_tar [] p ≡ fed 0 need_data p
unfolding feed_tar
feed_tar_nil p h = feed_in_nil p.state p h

-- A chunk that ends before the parser's next change of state may be cut there: feeding it whole
-- is feeding its two parts one after the other, whatever the second part then does.
pub feed_tar-append :
    (a b : Bytes) (p : TarParser)
    → length a < needed p
    → feed_tar (a ++ b) p ≡ and_then (feed_tar a p) (feed_tar b)
feed_tar-append [] b p h =
    sym (ap (λ r. and_then r (feed_tar b)) (feed_tar_nil p h) ∙ advance_zero (feed_tar b p))
feed_tar-append (x ∷ a) [] p h =
    let r = Partial-in p.state x a p h in
    ap (λ l. feed_tar (x ∷ l) p) (append-nil a)
    ∙ r.first
    ∙ ap (λ n. fed n need_data r.q) (plus_zero (length (x ∷ a)))
    ∙ sym (ap (advance (length (x ∷ a))) r.idle)
    ∙ ap (λ f. and_then f (feed_tar [])) (sym r.first)
  where
    plus_zero : (n : ℕ) → n ≡ n + 0
    plus_zero n = omega arith
feed_tar-append (x ∷ a) (y ∷ b) p h =
    let r = Partial-in p.state x a p h in
    r.rest y b ∙ ap (λ f. and_then f (feed_tar (y ∷ b))) (sym r.first)

-- A chunk that ends before the next change of state is taken whole, asks for more data, and
-- brings that change nearer by its length.
pub feed_tar_partial :
    (x : ℕ) (a : Bytes) (p : TarParser)
    → length (x ∷ a) < needed p
    → (q : TarParser) × (feed_tar (x ∷ a) p ≡ fed (length (x ∷ a)) need_data q)
      × (needed q + length (x ∷ a) ≡ needed p)
feed_tar_partial x a p h = let r = Partial-in p.state x a p h in (r.q, r.first, r.left)

feed_in-long :
    (st : ParserState) (x : ℕ) (a b : Bytes) (p : TarParser)
    → needed_in st p ≤ length (x ∷ a)
    → feed_in st ((x ∷ a) ++ b) p ≡ feed_in st (x ∷ a) p
unfolding needed_in feed_in feed_header feed_second_zero feed_pax feed_gnu_long
feed_in-long reading_header x a b p h =
    block-long finish_header finish_header-advance finish_header_partial (x ∷ a) b p h
feed_in-long (skipping_data remaining) x a b p h = feed_skip-long remaining x a b p h
feed_in-long (reading_pax_data remaining size buf) x a b p h =
    kept-long size (λ n r k q. finish_pax n r size k q) (λ r k. reading_pax_data r size k)
      (λ k n r. finish_pax-advance k n r size) (λ s n r. finish_pax-with_state s n r size)
      (finish_pax_partial size) remaining buf (x ∷ a) b p h
feed_in-long (reading_gnu_long remaining size buf is_link) x a b p h =
    kept-long size (λ n r k q. finish_gnu_long n r size k is_link q)
      (λ r k. reading_gnu_long r size k is_link)
      (λ k n r b'. finish_gnu_long-advance k n r size b' is_link)
      (λ s n r b'. finish_gnu_long-with_state s n r size b' is_link)
      (finish_gnu_long_partial size is_link) remaining buf (x ∷ a) b p h
feed_in-long one_zero_block x a b p h =
    block-long finish_second_zero finish_second_zero-advance finish_second_zero_partial (x ∷ a) b p
      h
feed_in-long at_end x a b p h = refl

-- A chunk, not empty, that reaches the next change of state does not depend on what follows it:
-- the bytes behind the change are left for the next call.
pub feed_tar-append_past :
    (x : ℕ) (a b : Bytes) (p : TarParser)
    → needed p ≤ length (x ∷ a)
    → feed_tar ((x ∷ a) ++ b) p ≡ feed_tar (x ∷ a) p
unfolding feed_tar
feed_tar-append_past x a b p h = feed_in-long p.state x a b p h
