-- ===== src/Tar/Parser/Invariant.antt =====
-- The parser's invariant, and what a call consumes.
use iluvatar.Common.{
  ℕ, ◌+◌, ◌≤◌, ◌<◌, ◌≡◌, refl, arith, min, Bool, true, false, length, ◌^◌, ltb, ltb→le, ltb→lt,
  if◌then◌else◌, Bool-cases, inl, inr,
}
use iluvatar.Common.Sizes.{add_u64, IsU64}
use iluvatar.Errors.{Result, ok, err}
use iluvatar.Archive.{need_data, end_of_archive, fed, failed, panicked}
use iluvatar.Tar.Entry.{TarEntry, TarEntryType, is_metadata}
use iluvatar.Tar.Header.{is_zero_block, block_size, parse_header, padded_size, blocks_for_size}
use iluvatar.Tar.State.{
  ParserState, reading_header, reading_pax_data, reading_gnu_long, one_zero_block, at_end,
  TarParser, Outcome,
}
use iluvatar.Tar.Parser.Needed.{needed}
use iluvatar.Tar.Parser.{
  max_metadata_size, skip_or_header, emit, dispatch, handle_entry, with_parsed, process_header,
  finish_header, finish_second_zero,
}

-- Kept bytes never exceed the logical size, which the data still to come covers.
abbrev pub DataIsValid : ParserState → Type 0
DataIsValid (reading_pax_data remaining size buf) =
    (length buf ≤ size) × (size ≤ length buf + remaining)
DataIsValid (reading_gnu_long remaining size buf is_link) =
    (length buf ≤ size) × (size ≤ length buf + remaining)
DataIsValid _ = Unit {0}

-- A header block is partly filled only while one is being read.
abbrev pub PosIsValid : ParserState → ℕ → Type 0
PosIsValid reading_header pos = pos < block_size
PosIsValid one_zero_block pos = pos < block_size
PosIsValid _ pos = pos ≡ 0

pub record IsValid (p : TarParser) : Type 0 where
  pub fits : IsU64 p.stream_pos
  pub buf_len : length p.header_buf ≡ block_size
  pub pos_ok : PosIsValid p.state p.header_pos
  pub data_ok : DataIsValid p.state

-- What a call has done to the parser: `n` bytes are consumed, none of them past the chunk or the
-- parser's next change of state, and the position has moved by them.
pub record Advanced (p q : TarParser) (len n : ℕ) : Type 0 where
  pub within : n ≡ min len (needed p)
  pub moved : q.stream_pos ≡ add_u64 p.stream_pos n
  pub valid : IsValid q

abbrev pub Accounts : TarParser → ℕ → Outcome → Type 0
Accounts p len (fed n ev q) = Advanced p q len n
Accounts p len (failed e q) = Unit {0}
Accounts p len panicked = Unit {0}

-- The parser between a filled header block and the next state.
record Between (p q : TarParser) (len n : ℕ) : Type 0 where
  within : n ≡ min len (needed p)
  moved : q.stream_pos ≡ add_u64 p.stream_pos n
  buf_len : length q.header_buf ≡ block_size
  pos_ok : q.header_pos ≡ 0

emit-Accounts :
    (p q : TarParser) (len n : ℕ) (e : TarEntry) → Between p q len n → Accounts p len (emit n e q)
unfolding emit skip_or_header
emit-Accounts p q len n e b = ground arith

-- A size below 2 ^ 20 is padded with no wrap-around.
pub padded_size_bounds :
    (size : ℕ) → size ≤ 2 ^ 20 → (size ≤ padded_size size) × (padded_size size < size + block_size)
unfolding padded_size blocks_for_size
padded_size_bounds size h = ground arith

dispatch-Accounts :
    (t : TarEntryType) (p q : TarParser) (len n : ℕ) (e : TarEntry)
    → (is_metadata t ≡ true → e.size ≤ 2 ^ 20)
    → Between p q len n
    → Accounts p len (dispatch t n e q)
unfolding dispatch is_metadata
dispatch-Accounts TarEntryType.pax_extended p q len n e h b =
    ground (arith, padded_size_bounds e.size, h refl)
dispatch-Accounts TarEntryType.pax_global p q len n e h b = ground arith
dispatch-Accounts TarEntryType.gnu_long_name p q len n e h b =
    ground (arith, padded_size_bounds e.size, h refl)
dispatch-Accounts TarEntryType.gnu_long_link p q len n e h b =
    ground (arith, padded_size_bounds e.size, h refl)
dispatch-Accounts _ p q len n e h b = emit-Accounts p q len n e b

handle_entry-Accounts :
    (p q : TarParser) (len n : ℕ) (e : TarEntry)
    → Between p q len n
    → Accounts p len (handle_entry n e q)
unfolding handle_entry
handle_entry-Accounts p q len n e b = elim (Bool-cases (is_metadata e.entry_type)) [
  | inr no_metadata ↦
      rw no_metadata (dispatch-Accounts e.entry_type p q len n e (λ m. absurd (cc)) b)
  | inl metadata ↦ elim (Bool-cases (ltb max_metadata_size e.size)) [
    | inl big ↦ rw (metadata, big) tt
    | inr small ↦
        rw (metadata, small) (dispatch-Accounts e.entry_type p q len n e (λ _. ltb→le _ _ small) b)
  ]
]

process_header-Accounts :
    (p q : TarParser) (len n : ℕ) → Between p q len n → Accounts p len (process_header n q)
unfolding process_header
process_header-Accounts p q len n b = go (parse_header q.header_buf q.stream_pos)
  where
    go : (r : Result TarEntry) → Accounts p len (with_parsed r n q)
    go (ok e) = unfold with_parsed in handle_entry-Accounts p q len n e b
    go (err x) = unfold with_parsed in tt

-- The header block, filled by `n` bytes.
pub record Filled (p q : TarParser) (len n : ℕ) : Type 0 where
  pub within : n ≡ min len (needed p)
  pub moved : q.stream_pos ≡ add_u64 p.stream_pos n
  pub buf_len : length q.header_buf ≡ block_size
  pub pos_le : q.header_pos ≤ block_size
  pub same_state : q.state ≡ p.state
  pub pos_state :
      (q.header_pos < block_size → PosIsValid q.state q.header_pos) × DataIsValid q.state

pub finish_header-Accounts :
    (p q : TarParser) (len n : ℕ) → Filled p q len n → Accounts p len (finish_header n q)
unfolding finish_header
finish_header-Accounts p q len n f = elim (Bool-cases (ltb q.header_pos block_size)) [
  | inl part ↦ rw part (record {
    within = f.within;
    moved = f.moved;
    valid = record {
      fits = omega (arith, f.moved);
      buf_len = f.buf_len;
      pos_ok = f.pos_state.0 (ltb→lt _ _ part);
      data_ok = f.pos_state.1;
    };
  })
  | inr full ↦ rw full (whole (is_zero_block q.header_buf) refl)
]
  where
    whole :
        (z : Bool)
        → is_zero_block q.header_buf ≡ z
        → Accounts p len (
            if z
            then fed n need_data (record q { header_pos = 0; state = one_zero_block })
            else process_header n (record q { header_pos = 0 }))
    whole true e = ground (arith, f.within, f.moved, f.buf_len)
    whole false e =
        process_header-Accounts p (record q { header_pos = 0 }) len n
          (record { within = f.within; moved = f.moved; buf_len = f.buf_len; pos_ok = refl })

pub finish_second_zero-Accounts :
    (p q : TarParser) (len n : ℕ) → Filled p q len n → Accounts p len (finish_second_zero n q)
unfolding finish_second_zero
finish_second_zero-Accounts p q len n f = elim (Bool-cases (ltb q.header_pos block_size)) [
  | inl part ↦ rw part (record {
    within = f.within;
    moved = f.moved;
    valid = record {
      fits = omega (arith, f.moved);
      buf_len = f.buf_len;
      pos_ok = f.pos_state.0 (ltb→lt _ _ part);
      data_ok = f.pos_state.1;
    };
  })
  | inr full ↦ rw full (whole (is_zero_block q.header_buf) refl)
]
  where
    whole :
        (z : Bool)
        → is_zero_block q.header_buf ≡ z
        → Accounts p len (
            if z
            then fed n end_of_archive (record q { header_pos = 0; state = at_end })
            else process_header n (record q { header_pos = 0 }))
    whole true e = ground (arith, f.within, f.moved, f.buf_len)
    whole false e =
        process_header-Accounts p (record q { header_pos = 0 }) len n
          (record { within = f.within; moved = f.moved; buf_len = f.buf_len; pos_ok = refl })
