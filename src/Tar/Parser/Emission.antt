-- ===== src/Tar/Parser/Emission.antt =====
-- src/tar/parser.rs: what a reported entry says, and where the parser goes on behind it.
use iluvatar.Common.{
  ℕ, ◌-◌, ◌≡◌, refl, Bool, false, Bytes, [], ◌∷◌, ◌&&◌, subst, ltb, ◌==◌, Bool-cases, inl, inr,
}
use iluvatar.Common.Sizes.{u64_mod}
use iluvatar.Errors.{Result, ok, err, OnOk, OnOk-bind}
use iluvatar.Archive.{entry, need_data, end_of_archive, fed, failed, panicked}
use iluvatar.Tar.Entry.{TarEntry, TarEntryType, is_metadata, is_sparse}
use iluvatar.Tar.Header.{
  block_size, parse_header, read_fields, checked_entry, padded_size, is_zero_block, parse_octal,
  validate_checksum,
}
use iluvatar.Tar.State.{
  ParserState, reading_header, skipping_data, reading_pax_data, reading_gnu_long, one_zero_block,
  at_end, TarParser, Outcome,
}
use iluvatar.Tar.Pax.{Walk, walked, crashed, stuck, parse_pax_data}
use iluvatar.Tar.Parser.{
  max_metadata_size, skip_or_header, apply_pending, emit, dispatch, handle_entry, with_parsed,
  process_header, finish_header, finish_second_zero, feed_header, feed_second_zero, feed_skip,
  after_walk, finish_pax, feed_pax, finish_gnu_long, feed_gnu_long, feed_in, feed_tar, has_pending,
  is_some,
}

-- The entry's data begins where the stream stands; the parser skips it with its padding, or reads
-- the next header if there is none; no pending attribute is left for a later entry; and the entry
-- is no metadata.
pub record Emitted (e : TarEntry) (q : TarParser) : Type 0 where
  pub data_offset : e.data_offset ≡ q.stream_pos
  pub state : q.state ≡ skip_or_header (padded_size e.size)
  pub pending : has_pending q ≡ false
  pub shown : is_metadata e.entry_type ≡ false

abbrev Emits : Outcome → Type 0
Emits (fed n (entry e) q) = Emitted e q
Emits (fed n need_data q) = Unit {0}
Emits (fed n end_of_archive q) = Unit {0}
Emits (failed x q) = Unit {0}
Emits panicked = Unit {0}

checked_entry-OnOk :
    (e : TarEntry) (offset : ℕ)
    → e.data_offset ≡ offset
    → OnOk (λ e'. e'.data_offset ≡ offset) (checked_entry e)
unfolding checked_entry
checked_entry-OnOk e offset h = elim (Bool-cases (ltb (u64_mod - 1 - block_size) e.size)) [
  | inl large ↦ rw large tt
  | inr fine ↦ rw fine (elim (Bool-cases (is_sparse e.entry_type)) [
    | inl sparse ↦ rw sparse tt
    | inr plain ↦ rw plain h
  ])
]

read_fields-OnOk :
    (header : Bytes) (offset : ℕ) → OnOk (λ e. e.data_offset ≡ offset) (read_fields header offset)
unfolding read_fields
read_fields-OnOk header offset =
    let P : TarEntry → Type 0 = λ e. e.data_offset ≡ offset in
    OnOk-bind P (parse_octal _) _ λ mode. OnOk-bind P (parse_octal _) _ λ uid.
      OnOk-bind P (parse_octal _) _ λ gid.
        OnOk-bind P (parse_octal _) _
          λ size. OnOk-bind P (parse_octal _) _ λ mtime. checked_entry-OnOk _ offset refl

pub parse_header-data_offset :
    (header : Bytes) (offset : ℕ) (e : TarEntry)
    → parse_header header offset ≡ ok e
    → e.data_offset ≡ offset
unfolding parse_header
parse_header-data_offset header offset e h = elim (Bool-cases (validate_checksum header)) [
  | inl good ↦
      subst (OnOk (λ e'. e'.data_offset ≡ offset)) (rw good at h) (read_fields-OnOk header offset)
  | inr bad ↦ absurd (cc (rw bad at h))
]

emit-Emits :
    (n : ℕ) (e : TarEntry) (p : TarParser)
    → is_metadata e.entry_type ≡ false
    → e.data_offset ≡ p.stream_pos
    → Emits (emit n e p)
unfolding emit apply_pending has_pending is_some
emit-Emits n e p h k = record { data_offset = k; state = refl; pending = refl; shown = h }

dispatch-Emits :
    (t : TarEntryType) (n : ℕ) (e : TarEntry) (p : TarParser)
    → e.entry_type ≡ t
    → e.data_offset ≡ p.stream_pos
    → Emits (dispatch t n e p)
unfolding dispatch is_metadata
dispatch-Emits TarEntryType.pax_extended n e p h k = tt
dispatch-Emits TarEntryType.pax_global n e p h k = tt
dispatch-Emits TarEntryType.gnu_long_name n e p h k = tt
dispatch-Emits TarEntryType.gnu_long_link n e p h k = tt
dispatch-Emits _ n e p h k = emit-Emits n e p (rw h) k

handle_entry-Emits :
    (n : ℕ) (e : TarEntry) (p : TarParser)
    → e.data_offset ≡ p.stream_pos
    → Emits (handle_entry n e p)
unfolding handle_entry
handle_entry-Emits n e p k =
    elim (Bool-cases (is_metadata e.entry_type && ltb max_metadata_size e.size)) [
      | inl refused ↦ rw refused tt
      | inr fine ↦ rw fine (dispatch-Emits e.entry_type n e p refl k)
    ]

process_header-Emits : (n : ℕ) (p : TarParser) → Emits (process_header n p)
unfolding process_header
process_header-Emits n p = go (parse_header p.header_buf p.stream_pos) refl
  where
    go :
        (r : Result TarEntry)
        → parse_header p.header_buf p.stream_pos ≡ r
        → Emits (with_parsed r n p)
    go (ok e) h =
        unfold with_parsed in
        handle_entry-Emits n e p (parse_header-data_offset p.header_buf p.stream_pos e h)
    go (err x) h = unfold with_parsed in tt

finish_header-Emits : (n : ℕ) (p : TarParser) → Emits (finish_header n p)
unfolding finish_header
finish_header-Emits n p = elim (Bool-cases (ltb p.header_pos block_size)) [
  | inl part ↦ rw part tt
  | inr full ↦ rw full (elim (Bool-cases (is_zero_block p.header_buf)) [
    | inl zeros ↦ rw zeros tt
    | inr header ↦ rw header (process_header-Emits n (record p { header_pos = 0 }))
  ])
]

finish_second_zero-Emits : (n : ℕ) (p : TarParser) → Emits (finish_second_zero n p)
unfolding finish_second_zero
finish_second_zero-Emits n p = elim (Bool-cases (ltb p.header_pos block_size)) [
  | inl part ↦ rw part tt
  | inr full ↦ rw full (elim (Bool-cases (is_zero_block p.header_buf)) [
    | inl zeros ↦ rw zeros tt
    | inr header ↦ rw header (process_header-Emits n (record p { header_pos = 0 }))
  ])
]

after_walk-Emits : (n : ℕ) (w : Walk) → Emits (after_walk n w)
unfolding after_walk
after_walk-Emits n (walked p) = tt
after_walk-Emits n crashed = tt
after_walk-Emits n stuck = tt

finish_pax-Emits :
    (n remaining size : ℕ) (buf : Bytes) (p : TarParser) → Emits (finish_pax n remaining size buf p)
unfolding finish_pax
finish_pax-Emits n remaining size buf p = elim (Bool-cases (remaining == 0)) [
  | inl last ↦ rw last (after_walk-Emits n (parse_pax_data buf p))
  | inr more ↦ rw more tt
]

finish_gnu_long-Emits :
    (n remaining size : ℕ) (buf : Bytes) (is_link : Bool) (p : TarParser)
    → Emits (finish_gnu_long n remaining size buf is_link p)
unfolding finish_gnu_long
finish_gnu_long-Emits n remaining size buf is_link p = elim (Bool-cases (remaining == 0)) [
  | inl last ↦ rw last tt
  | inr more ↦ rw more tt
]

feed_in-Emits : (st : ParserState) (xs : Bytes) (p : TarParser) → Emits (feed_in st xs p)
unfolding feed_in feed_header feed_second_zero feed_skip feed_pax feed_gnu_long
feed_in-Emits reading_header [] p = tt
feed_in-Emits reading_header (x ∷ xs) p = finish_header-Emits _ _
feed_in-Emits (skipping_data r) [] p = tt
feed_in-Emits (skipping_data r) (x ∷ xs) p = tt
feed_in-Emits (reading_pax_data r size buf) [] p = tt
feed_in-Emits (reading_pax_data r size buf) (x ∷ xs) p = finish_pax-Emits _ _ _ _ _
feed_in-Emits (reading_gnu_long r size buf is_link) [] p = tt
feed_in-Emits (reading_gnu_long r size buf is_link) (x ∷ xs) p = finish_gnu_long-Emits _ _ _ _ _ _
feed_in-Emits one_zero_block [] p = tt
feed_in-Emits one_zero_block (x ∷ xs) p = finish_second_zero-Emits _ _
feed_in-Emits at_end xs p = tt

-- Of every entry that `feed_tar` reports: its data offset is the parser's stream position, the
-- parser goes on by skipping exactly its padded size (or at the next header, if that is 0), no
-- pending PAX or GNU attribute outlives it, and its type is none of the metadata types.
pub feed_tar-Emitted :
    (xs : Bytes) (p q : TarParser) (n : ℕ) (e : TarEntry)
    → feed_tar xs p ≡ fed n (entry e) q
    → Emitted e q
unfolding feed_tar
feed_tar-Emitted xs p q n e h = subst Emits h (feed_in-Emits p.state xs p)
