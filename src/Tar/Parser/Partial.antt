-- ===== src/Tar/Parser/Partial.antt =====
-- What a call of `feed_tar` does that does not reach the next change of state.
use iluvatar.Common.{
  ℕ, ◌+◌, ◌-◌, ◌<◌, ◌≡◌, refl, sym, ap, ◌∙◌, arith, Bool, [], ◌∷◌, ◌++◌, length, Bytes,
}
use iluvatar.Common.Sizes.{add_u64}
use iluvatar.Archive.{fed, advance, and_then, need_data}
use iluvatar.Tar.Header.{block_size}
use iluvatar.Tar.State.{
  ParserState, reading_header, skipping_data, reading_pax_data, reading_gnu_long, one_zero_block,
  at_end, TarParser, Outcome,
}
use iluvatar.Tar.Pax.Frame.{with_state}
use iluvatar.Tar.Parser.{
  fill, finish_header, finish_second_zero, feed_header, feed_second_zero, feed_skip, accumulate,
  finish_pax, feed_pax, finish_gnu_long, feed_gnu_long, feed_in, feed_tar,
}
use iluvatar.Tar.Parser.Needed.{needed_in, needed}
use iluvatar.Tar.Parser.Blocks.{
  block, block-short, block_partial, finish_header-advance, finish_second_zero-advance,
}
use iluvatar.Tar.Parser.Kept.{kept-short, kept_partial}
use iluvatar.Tar.Parser.Metadata.{
  feed_skip-short, finish_pax-advance, finish_pax-with_state, finish_pax_partial,
  finish_gnu_long-advance, finish_gnu_long-with_state, finish_gnu_long_partial,
}

pub finish_header_partial :
    (n : ℕ) (p : TarParser) → p.header_pos < block_size → finish_header n p ≡ fed n need_data p
unfolding finish_header
finish_header_partial n p h = ground arith

pub finish_second_zero_partial :
    (n : ℕ) (p : TarParser) → p.header_pos < block_size → finish_second_zero n p ≡ fed n need_data p
unfolding finish_second_zero
finish_second_zero_partial n p h = ground arith

-- A chunk that does not bring the parser to its next change of state.
pub record Partial (st : ParserState) (x : ℕ) (a : Bytes) (p : TarParser) : Type 0 where
  pub q : TarParser
  pub first : feed_tar (x ∷ a) (with_state st p) ≡ fed (length (x ∷ a)) need_data q
  pub idle : feed_tar [] q ≡ fed 0 need_data q
  pub rest :
      (y : ℕ) (b : Bytes)
      → feed_tar ((x ∷ a) ++ (y ∷ b)) (with_state st p)
        ≡ advance (length (x ∷ a)) (feed_tar (y ∷ b) q)
  pub left : needed q + length (x ∷ a) ≡ needed_in st p

Partial-block :
    (st : ParserState) (finish : ℕ → TarParser → Outcome)
    (adv : (k n : ℕ) (p : TarParser) → finish (k + n) p ≡ advance k (finish n p))
    (part : (n : ℕ) (p : TarParser) → p.header_pos < block_size → finish n p ≡ fed n need_data p)
    → ((q : TarParser) → q.state ≡ st → feed_tar [] q ≡ fed 0 need_data q)
    → ((x : ℕ) (a : Bytes) (q : TarParser)
        → q.state ≡ st
        → feed_tar (x ∷ a) q ≡ block finish adv part (x ∷ a) q)
    → ((q : TarParser) → q.state ≡ st → needed q ≡ block_size - q.header_pos)
    → (x : ℕ) (a : Bytes) (p : TarParser) → length (x ∷ a) < block_size - p.header_pos
    → needed_in st p ≡ block_size - p.header_pos
    → Partial st x a p
unfolding fill
Partial-block st finish adv part nil is_block need x a p h e =
    let p' = with_state st p in
    let first = block_partial finish adv part (x ∷ a) p' h in
    record {
      q = fill (x ∷ a) p';
      first = is_block x a p' refl ∙ first;
      idle = nil (fill (x ∷ a) p') refl;
      rest = λ y b.
          is_block x (a ++ (y ∷ b)) p' refl
          ∙ block-short finish adv part (x ∷ a) (y ∷ b) p' h
          ∙ ap (λ r. and_then r (block finish adv part (y ∷ b))) first
          ∙ ap (advance (length (x ∷ a))) (sym (is_block y b (fill (x ∷ a) p') refl));
      left = omega (arith, need (fill (x ∷ a) p') refl);
    }

header_form :
    (x : ℕ) (a : Bytes) (q : TarParser)
    → q.state ≡ reading_header
    → feed_tar (x ∷ a) q ≡ block finish_header finish_header-advance finish_header_partial (x ∷ a) q
unfolding feed_tar feed_in feed_header
header_form x a q e = rw e

second_zero_form :
    (x : ℕ) (a : Bytes) (q : TarParser)
    → q.state ≡ one_zero_block
    → feed_tar (x ∷ a) q
      ≡ block finish_second_zero finish_second_zero-advance finish_second_zero_partial (x ∷ a) q
unfolding feed_tar feed_in feed_second_zero
second_zero_form x a q e = rw e

Partial-header :
    (x : ℕ) (a : Bytes) (p : TarParser)
    → length (x ∷ a) < block_size - p.header_pos
    → Partial reading_header x a p
unfolding needed_in feed_tar feed_in feed_header
Partial-header x a p h =
    Partial-block reading_header finish_header finish_header-advance finish_header_partial
      (λ q e. rw e) header_form (λ q e. rw e) x a p h refl

Partial-second_zero :
    (x : ℕ) (a : Bytes) (p : TarParser)
    → length (x ∷ a) < block_size - p.header_pos
    → Partial one_zero_block x a p
unfolding needed_in feed_tar feed_in feed_second_zero
Partial-second_zero x a p h =
    Partial-block one_zero_block finish_second_zero finish_second_zero-advance
      finish_second_zero_partial (λ q e. rw e) second_zero_form (λ q e. rw e) x a p h refl

feed_skip_partial :
    (remaining x : ℕ) (a : Bytes) (p : TarParser)
    → length (x ∷ a) < remaining
    → feed_skip remaining (x ∷ a) p
      ≡ fed (length (x ∷ a)) need_data (record p {
        stream_pos = add_u64 p.stream_pos (length (x ∷ a));
        state = skipping_data (remaining - length (x ∷ a));
      })
unfolding feed_skip
feed_skip_partial remaining x a p h = ground arith

Partial-skip :
    (remaining x : ℕ) (a : Bytes) (p : TarParser)
    → length (x ∷ a) < remaining
    → Partial (skipping_data remaining) x a p
unfolding needed_in feed_tar feed_in
Partial-skip remaining x a p h =
    let p' = with_state (skipping_data remaining) p in
    let first = feed_skip_partial remaining x a p' h in
    record {
      q = record p {
        stream_pos = add_u64 p.stream_pos (length (x ∷ a));
        state = skipping_data (remaining - length (x ∷ a));
      };
      first = first;
      idle = unfold feed_skip in refl;
      rest = λ y b.
          feed_skip-short remaining x y a b p' h
          ∙ ap (λ r. and_then r (feed_skip (remaining - length (x ∷ a)) (y ∷ b))) first;
      left = omega arith;
    }

Partial-pax :
    (remaining size : ℕ) (buf : Bytes) (x : ℕ) (a : Bytes) (p : TarParser)
    → length (x ∷ a) < remaining
    → Partial (reading_pax_data remaining size buf) x a p
unfolding needed_in feed_tar feed_in feed_pax
Partial-pax remaining size buf x a p h =
    let p' = with_state (reading_pax_data remaining size buf) p in
    let first =
      kept_partial size (λ n r k q. finish_pax n r size k q) (λ r k. reading_pax_data r size k)
        (λ k n r. finish_pax-advance k n r size) (λ s n r. finish_pax-with_state s n r size)
        (finish_pax_partial size) remaining buf (x ∷ a) p' h in
    record {
      q = record p {
        stream_pos = add_u64 p.stream_pos (length (x ∷ a));
        state =
            reading_pax_data (remaining - length (x ∷ a)) size
              (accumulate size buf (length (x ∷ a)) (x ∷ a));
      };
      first = first;
      idle = refl;
      rest = λ y b.
          kept-short size (λ n r k q. finish_pax n r size k q) (λ r k. reading_pax_data r size k)
            (λ k n r. finish_pax-advance k n r size) (λ s n r. finish_pax-with_state s n r size)
            (finish_pax_partial size) remaining buf (x ∷ a) (y ∷ b) p' h
          ∙ ap
              (λ r. and_then r (
                feed_pax (remaining - length (x ∷ a)) size
                  (accumulate size buf (length (x ∷ a)) (x ∷ a)) (y ∷ b)))
              first;
      left = omega arith;
    }

Partial-gnu :
    (remaining size : ℕ) (buf : Bytes) (is_link : Bool) (x : ℕ) (a : Bytes) (p : TarParser)
    → length (x ∷ a) < remaining
    → Partial (reading_gnu_long remaining size buf is_link) x a p
unfolding needed_in feed_tar feed_in feed_gnu_long
Partial-gnu remaining size buf is_link x a p h =
    let p' = with_state (reading_gnu_long remaining size buf is_link) p in
    let first =
      kept_partial size (λ n r k q. finish_gnu_long n r size k is_link q)
        (λ r k. reading_gnu_long r size k is_link)
        (λ k n r b. finish_gnu_long-advance k n r size b is_link)
        (λ s n r b. finish_gnu_long-with_state s n r size b is_link)
        (finish_gnu_long_partial size is_link) remaining buf (x ∷ a) p' h in
    record {
      q = record p {
        stream_pos = add_u64 p.stream_pos (length (x ∷ a));
        state =
            reading_gnu_long (remaining - length (x ∷ a)) size
              (accumulate size buf (length (x ∷ a)) (x ∷ a)) is_link;
      };
      first = first;
      idle = refl;
      rest = λ y b.
          kept-short size (λ n r k q. finish_gnu_long n r size k is_link q)
            (λ r k. reading_gnu_long r size k is_link)
            (λ k n r b'. finish_gnu_long-advance k n r size b' is_link)
            (λ s n r b'. finish_gnu_long-with_state s n r size b' is_link)
            (finish_gnu_long_partial size is_link) remaining buf (x ∷ a) (y ∷ b) p' h
          ∙ ap
              (λ r. and_then r (
                feed_gnu_long (remaining - length (x ∷ a)) size
                  (accumulate size buf (length (x ∷ a)) (x ∷ a)) is_link (y ∷ b)))
              first;
      left = omega arith;
    }

pub Partial-in :
    (st : ParserState) (x : ℕ) (a : Bytes) (p : TarParser)
    → length (x ∷ a) < needed_in st p
    → Partial st x a p
unfolding needed_in
Partial-in reading_header x a p h = Partial-header x a p h
Partial-in (skipping_data remaining) x a p h = Partial-skip remaining x a p h
Partial-in (reading_pax_data remaining size buf) x a p h = Partial-pax remaining size buf x a p h
Partial-in (reading_gnu_long remaining size buf is_link) x a p h =
    Partial-gnu remaining size buf is_link x a p h
Partial-in one_zero_block x a p h = Partial-second_zero x a p h
Partial-in at_end x a p h = absurd (omega arith)
