-- ===== src/Cpio/Parser/Alignment.antt =====
-- src/cpio/parser.rs: what a call of `feed` consumes, and the offsets of member headers.
use iluvatar.Common.{ℕ, ◌≡◌, refl, subst, arith, List, [], ◌∷◌, length, Bytes}
use iluvatar.Archive.{ArchiveEntry, Event, fed}
use iluvatar.Cpio.State.{
  CpioState, reading_header, reading_filename, skipping_name_pad, reading_link_target,
  skipping_data, skipping_data_pad, at_end, CpioParser, new,
}
use iluvatar.Cpio.Format.{header_size_of}
use iluvatar.Cpio.Parser.{feed_header, feed_in, feed_queue, feed}
use iluvatar.Cpio.Parser.Invariant.{IsValid, Advanced, Accounts}
use iluvatar.Cpio.Parser.Headers.{idle, header_in-Accounts}
use iluvatar.Cpio.Parser.Data.{
  filename-Accounts, name_pad-Accounts, link_target-Accounts, skip_data-Accounts,
  skip_data_pad-Accounts,
}

feed_in-Accounts :
    (st : CpioState) (xs : Bytes) (p : CpioParser)
    → p.state ≡ st
    → IsValid p
    → Accounts p (length xs) (feed_in st xs p)
unfolding feed_in feed_header
feed_in-Accounts reading_header [] p e v = idle p 0 v
feed_in-Accounts reading_header (x ∷ xs) p e v = header_in-Accounts p.sub_format p (x ∷ xs) refl e v
feed_in-Accounts (reading_filename hdr remaining buf) xs p e v =
    filename-Accounts hdr remaining buf xs p e v
feed_in-Accounts (skipping_name_pad a remaining inode nlink) xs p e v =
    name_pad-Accounts a remaining inode nlink xs p e v
feed_in-Accounts (reading_link_target a remaining buf) xs p e v =
    link_target-Accounts a remaining buf xs p e v
feed_in-Accounts (skipping_data remaining) xs p e v = skip_data-Accounts remaining xs p e v
feed_in-Accounts (skipping_data_pad remaining) xs p e v = skip_data_pad-Accounts remaining xs p e v
feed_in-Accounts at_end xs p e v = idle p (length xs) v

feed_queue-Accounts :
    (es : List ArchiveEntry) (xs : Bytes) (p : CpioParser)
    → IsValid p
    → Accounts p (length xs) (feed_queue es xs p)
unfolding feed_queue
feed_queue-Accounts [] xs p v = feed_in-Accounts p.state xs p refl v
feed_queue-Accounts (x ∷ es) xs p v = record {
  within = omega arith;
  moved = omega (arith, v.fits);
  valid = record { fits = v.fits; fresh = v.fresh; bounds = v.bounds; aligned = v.aligned };
}

-- On a parser that meets the invariant, a call of the cpio parser's `feed` that does not fail
-- consumes no more than the chunk, moves the stream position by what it consumes, and keeps the
-- invariant: in a newc archive every header, and the data behind every name, stands at a multiple of
-- four.
pub cpio_feed-Advanced :
    (xs : Bytes) (p q : CpioParser) (n : ℕ) (ev : Event ArchiveEntry)
    → IsValid p
    → feed xs p ≡ fed n ev q
    → Advanced p q (length xs) n
unfolding feed
cpio_feed-Advanced xs p q n ev v e =
    subst (Accounts p (length xs)) e (feed_queue-Accounts p.pending xs p v)

-- The new parser meets the invariant.
pub cpio_new-IsValid : IsValid new
unfolding header_size_of
cpio_new-IsValid = record {
  fits = omega arith;
  fresh = λ h. (refl, omega arith);
  bounds = omega arith;
  aligned = λ h. refl;
}
