-- ===== src/Tar/Parser/Metadata.antt =====
-- How the handlers of the data behind a header use the count and the parser that they are given.
use iluvatar.Common.{
  ℕ, ◌+◌, ◌-◌, ◌≤◌, ◌<◌, ◌≡◌, refl, arith, Bool, true, false, ◌∷◌, ◌++◌, length, length-append,
  Bytes,
}
use iluvatar.Common.Search.{trim_end}
use iluvatar.Common.Utf8.{from_utf8_lossy}
use iluvatar.Archive.{fed, advance, and_then, need_data}
use iluvatar.Tar.State.{ParserState, reading_pax_data, reading_gnu_long, TarParser}
use iluvatar.Tar.Pax.Frame.{with_state, walk_map, parse_pax_data-with_state}
use iluvatar.Tar.Pax.{parse_pax_data, Walk, walked, crashed, stuck}
use iluvatar.Tar.Parser.{feed_skip, finish_pax, after_walk, finish_gnu_long, store_long}
use iluvatar.Tar.Parser.Blocks.{after_walk-advance}

pub feed_skip-short :
    (remaining x y : ℕ) (a b : Bytes) (p : TarParser)
    → length (x ∷ a) < remaining
    → feed_skip remaining ((x ∷ a) ++ (y ∷ b)) p
      ≡ and_then (feed_skip remaining (x ∷ a) p) (feed_skip (remaining - length (x ∷ a)) (y ∷ b))
unfolding feed_skip
feed_skip-short remaining x y a b p h = ground (arith, length-append a (y ∷ b))

pub feed_skip-long :
    (remaining x : ℕ) (a b : Bytes) (p : TarParser)
    → remaining ≤ length (x ∷ a)
    → feed_skip remaining ((x ∷ a) ++ b) p ≡ feed_skip remaining (x ∷ a) p
unfolding feed_skip
feed_skip-long remaining x a b p h = ground (arith, length-append a b)

pub finish_pax-advance :
    (k n remaining size : ℕ) (buf : Bytes) (p : TarParser)
    → finish_pax (k + n) remaining size buf p ≡ advance k (finish_pax n remaining size buf p)
unfolding finish_pax
finish_pax-advance k n remaining size buf p =
    ground (arith, after_walk-advance k n (parse_pax_data buf p))

-- A call that ends the data, or is followed by one that does, writes over the state.
after_walk-with_state :
    (s : ParserState) (n : ℕ) (w : Walk) → after_walk n (walk_map (with_state s) w) ≡ after_walk n w
unfolding after_walk
after_walk-with_state s n (walked p) = refl
after_walk-with_state s n crashed = refl
after_walk-with_state s n stuck = refl

pub finish_pax-with_state :
    (s : ParserState) (n remaining size : ℕ) (buf : Bytes) (p : TarParser)
    → finish_pax n remaining size buf (with_state s p) ≡ finish_pax n remaining size buf p
unfolding finish_pax
finish_pax-with_state s n remaining size buf p =
    ground
      (arith, parse_pax_data-with_state s buf p, after_walk-with_state s n (parse_pax_data buf p))

pub finish_gnu_long-advance :
    (k n remaining size : ℕ) (buf : Bytes) (is_link : Bool) (p : TarParser)
    → finish_gnu_long (k + n) remaining size buf is_link p
      ≡ advance k (finish_gnu_long n remaining size buf is_link p)
unfolding finish_gnu_long
finish_gnu_long-advance k n remaining size buf is_link p = ground arith

store_long-with_state :
    (s : ParserState) (is_link : Bool) (name : Bytes) (p : TarParser)
    → store_long is_link name (with_state s p) ≡ store_long is_link name p
unfolding store_long
store_long-with_state s true name p = refl
store_long-with_state s false name p = refl

pub finish_gnu_long-with_state :
    (s : ParserState) (n remaining size : ℕ) (buf : Bytes) (is_link : Bool) (p : TarParser)
    → finish_gnu_long n remaining size buf is_link (with_state s p)
      ≡ finish_gnu_long n remaining size buf is_link p
unfolding finish_gnu_long
finish_gnu_long-with_state s n remaining size buf is_link p =
    ground (arith, store_long-with_state s is_link (trim_end 0 (from_utf8_lossy buf)) p)

pub finish_pax_partial :
    (size n remaining : ℕ) (buf : Bytes) (p : TarParser)
    → 0 < remaining
    → finish_pax n remaining size buf p
      ≡ fed n need_data (with_state (reading_pax_data remaining size buf) p)
unfolding finish_pax
finish_pax_partial size n remaining buf p h = ground arith

pub finish_gnu_long_partial :
    (size : ℕ) (is_link : Bool) (n remaining : ℕ) (buf : Bytes) (p : TarParser)
    → 0 < remaining
    → finish_gnu_long n remaining size buf is_link p
      ≡ fed n need_data (with_state (reading_gnu_long remaining size buf is_link) p)
unfolding finish_gnu_long
finish_gnu_long_partial size is_link n remaining buf p h = ground arith
