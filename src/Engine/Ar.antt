-- ===== src/Engine/Ar.antt =====
-- src/ar/parser.rs, `impl ArchiveParser for ArParser`: the ar parser behind the interface.
use iluvatar.Common.{
  ℕ, ◌+◌, ◌-◌, ◌*◌, ◌%◌, ◌≤◌, ◌<◌, ◌≡◌, subst, arith, [], ◌∷◌, length, min, Bytes, Bool-cases, inl,
  inr, ltb, if_elim,
}
use iluvatar.Errors.{Result, ok, err}
use iluvatar.Archive.{ArchiveEntry, Event, entry, need_data, end_of_archive, fed}
use iluvatar.Ar.Header.{ArHeader, parse_header}
use iluvatar.Common.Search.{starts_with}
use iluvatar.Ar.Parser.{
  symdef, ArState, reading_magic, reading_header, reading_name_table, reading_bsd_name,
  skipping_data, Member, skip_member, name_table_member, bsd_name, named, ArParser, Outcome,
  classify, decoded_name, skip, dispatch, with_member, with_header, finish_header, feed_header,
  fill_header_buf, feed_magic, finish_magic, feed_name_table, named_member, inline_member,
  feed_bsd_name, feed_skip_data, feed_in, feed, end_of_stream,
}
use iluvatar.Ar.Parser.Members.{IsAligned, StateIsAligned}
use iluvatar.Ar.Parser.Alignment.{ar_feed-Advanced}
use iluvatar.Engine.{ArchiveParser}
use iluvatar.Engine.Fuel.{GoesOn, Progresses}

-- `impl ArchiveParser for ArParser`
abbrev pub ar_parser : ArchiveParser ArParser
ar_parser = record { feed = feed; stream_pos = λ p. p.stream_pos; end_of_stream = end_of_stream }

-- A name of no bytes may be taken by a call that consumes nothing.
abbrev pub debt_in : ArState → ℕ
debt_in (reading_bsd_name hdr remaining buf) = 1
debt_in _ = 0

abbrev pub ar_debt : ArParser → ℕ
ar_debt p = debt_in p.state

debt-le : (st : ArState) → debt_in st ≤ 1
debt-le reading_magic = omega arith
debt-le reading_header = omega arith
debt-le (reading_name_table remaining pad buf) = omega arith
debt-le (reading_bsd_name hdr remaining buf) = omega arith
debt-le (skipping_data remaining pad) = omega arith

-- The debt behind an entry.
abbrev EntryPays : ℕ → Outcome → Type 0
EntryPays debt (fed n (entry e) q) = ar_debt q < 3 * n + debt
EntryPays debt _ = Unit {0}

skip-settles : (size pad : ℕ) (p : ArParser) → ar_debt (skip size pad p) ≡ 0
unfolding skip
skip-settles size pad p = ground arith

dispatch-EntryPays :
    (m : Member) (debt n : ℕ) (hdr : ArHeader) (p : ArParser)
    → 0 < n
    → EntryPays debt (dispatch m n hdr p)
unfolding dispatch
dispatch-EntryPays skip_member debt n hdr p h = tt
dispatch-EntryPays name_table_member debt n hdr p h = ground arith
dispatch-EntryPays (bsd_name len) debt n hdr p h = tt
dispatch-EntryPays (named path) debt n hdr p h =
    omega (arith, skip-settles hdr.size (hdr.size % 2) p)

with_header-EntryPays :
    (r : Result ArHeader) (debt n : ℕ) (p : ArParser) → 0 < n → EntryPays debt (with_header r n p)
unfolding with_header with_member
with_header-EntryPays (err x) debt n p h = tt
with_header-EntryPays (ok hdr) debt n p h = go (classify hdr (record p { header_buf = [] }))
  where
    go : (m : Result Member) → EntryPays debt (with_member m n hdr (record p { header_buf = [] }))
    go (ok m) = dispatch-EntryPays m debt n hdr (record p { header_buf = [] }) h
    go (err x) = tt

finish_header-EntryPays : (debt n : ℕ) (p : ArParser) → 0 < n → EntryPays debt (finish_header n p)
unfolding finish_header
finish_header-EntryPays debt n p h =
    ground (arith, with_header-EntryPays (parse_header p.header_buf) debt n p h)

named_member-EntryPays :
    (r : Result Bytes) (n size : ℕ) (hdr : ArHeader) (p : ArParser)
    → EntryPays 1 (named_member r n size hdr p)
unfolding named_member
named_member-EntryPays (err x) n size hdr p = tt
named_member-EntryPays (ok path) n size hdr p = omega (arith, skip-settles size (hdr.size % 2) p)

inline_member-EntryPays :
    (name : Bytes) (n size : ℕ) (hdr : ArHeader) (p : ArParser)
    → EntryPays 1 (inline_member name n size hdr p)
unfolding inline_member
inline_member-EntryPays name n size hdr p =
    if_elim (EntryPays 1) (starts_with symdef name) (λ table. tt)
      (λ named. named_member-EntryPays (decoded_name name) n size hdr p)

feed_bsd_name-EntryPays :
    (hdr : ArHeader) (remaining : ℕ) (buf xs : Bytes) (p : ArParser)
    → EntryPays 1 (feed_bsd_name hdr remaining buf xs p)
unfolding feed_bsd_name
feed_bsd_name-EntryPays hdr remaining buf xs p =
    elim (Bool-cases (ltb 0 (remaining - min (length xs) remaining))) [
      | inl more ↦ rw more tt
      | inr all ↦ rw all (inline_member-EntryPays _ _ _ hdr _)
    ]

feed_magic-EntryPays : (xs : Bytes) (p : ArParser) → EntryPays 0 (feed_magic xs p)
unfolding feed_magic finish_magic
feed_magic-EntryPays xs p = ground arith

feed_name_table-EntryPays :
    (remaining pad : ℕ) (buf xs : Bytes) (p : ArParser)
    → EntryPays 0 (feed_name_table remaining pad buf xs p)
unfolding feed_name_table
feed_name_table-EntryPays remaining pad buf xs p = ground arith

feed_in-EntryPays :
    (st : ArState) (x : ℕ) (xs : Bytes) (p : ArParser)
    → StateIsAligned st (length p.header_buf) p.stream_pos
    → EntryPays (debt_in st) (feed_in st (x ∷ xs) p)
unfolding feed_in feed_header fill_header_buf feed_skip_data
feed_in-EntryPays reading_magic x xs p v = feed_magic-EntryPays (x ∷ xs) p
feed_in-EntryPays reading_header x xs p v = finish_header-EntryPays 0 _ _ (omega (arith, v))
feed_in-EntryPays (reading_name_table remaining pad buf) x xs p v =
    feed_name_table-EntryPays remaining pad buf (x ∷ xs) p
feed_in-EntryPays (reading_bsd_name hdr remaining buf) x xs p v =
    feed_bsd_name-EntryPays hdr remaining buf (x ∷ xs) p
feed_in-EntryPays (skipping_data remaining pad) x xs p v = tt

pub ar_feed-keeps :
    (xs : Bytes) (p q : ArParser) (n : ℕ) (ev : Event ArchiveEntry)
    → IsAligned p
    → feed xs p ≡ fed n ev q
    → IsAligned q
ar_feed-keeps xs p q n ev v h = (ar_feed-Advanced xs p q n ev v h).aligned

pub ar_feed-pays :
    (x : ℕ) (xs : Bytes) (p q : ArParser) (n : ℕ) (ev : Event ArchiveEntry)
    → IsAligned p
    → feed (x ∷ xs) p ≡ fed n ev q
    → GoesOn n ev
    → (n ≤ length (x ∷ xs)) × (ar_debt q < 3 * n + ar_debt p)
unfolding feed
ar_feed-pays x xs p q n ev v h on =
    ((ar_feed-Advanced (x ∷ xs) p q n ev v (unfold feed in h)).within, paid ev h on)
  where
    paid :
        (ev : Event ArchiveEntry)
        → feed_in p.state (x ∷ xs) p ≡ fed n ev q
        → GoesOn n ev
        → ar_debt q < 3 * n + ar_debt p
    paid (entry e) eq on =
        subst (EntryPays (ar_debt p)) eq (feed_in-EntryPays p.state x xs p v.even)
    paid need_data eq on = omega (arith, on, debt-le q.state)
    paid end_of_archive eq on = absurd on

-- The ar parser's invariant makes it progress.
abbrev pub ar_progresses : Progresses ar_parser
ar_progresses = record {
  IsGood = IsAligned;
  debt = ar_debt;
  keeps = ar_feed-keeps;
  pays = ar_feed-pays;
}
