-- ===== src/Engine/Read/Entry.antt =====
-- src/engine/state_machine.rs, `ReadEngine`: the bytes of an entry that are read.
use iluvatar.Common.{
  ℕ, ◌+◌, ◌-◌, ◌<◌, ◌≡◌, refl, subst, ap, ◌∙◌, arith, true, false, Option, none, some, min, ltb→le,
  lt→ltb, ◌^◌, [], length, take, drop, All, Bytes, if_elim,
}
use iluvatar.Common.Sizes.{add_u64, IsU64}
use iluvatar.Errors.{Error, Result, ok, err}
use iluvatar.Engine.Request.{done}
use iluvatar.Index.Store.{IndexEntry, ArchiveIndex}
use iluvatar.Stream.Index.{validate}
use iluvatar.Stream.Decoder.{Decompressor, Decodes}
use iluvatar.Stream.Reader.{
  State, seek_to_checkpoint, skipping, emitting, need_input_skipping, need_input_emitting, finished,
  StreamReader, clamp_len, is_some, step,
}
use iluvatar.Stream.Reader
use iluvatar.Stream.Reader.Invariant.{Aim, IsValid, InState}
use iluvatar.Stream.Reader.Delivery.{Delivers}
use iluvatar.Stream.Reader.Range.{Marks, aimed, new-IsValid, delivers_all}
use iluvatar.Engine.Read.{reaches_past, require_full_range, required, for_entry_range}

-- The range of an entry that a call asks for, cut to the entry.
abbrev pub entry_aim : IndexEntry → (file_offset len : ℕ) → Aim
entry_aim e file_offset len = record {
  offset = e.uncompressed_offset + min file_offset e.size;
  len = min len (e.size - min file_offset e.size);
  full = true;
}

module _ {D S : Type 0} {dec : Decompressor D S} {content : Bytes} (decoder : Decodes dec content)
    (stream : Bytes) where
  required-InState :
      (st : State) (p : StreamReader D S) → InState st p → InState st (require_full_range p)
  required-InState seek_to_checkpoint p h = h
  required-InState (skipping m) p (s, on) =
      (record { empty = s.empty; ahead = s.ahead; untouched = s.untouched }, on)
  required-InState (emitting m) p (s, on) = (record { left = s.left; in_step = s.in_step }, on)
  required-InState (need_input_skipping m) p (s, on, nothing) =
      (record { empty = s.empty; ahead = s.ahead; untouched = s.untouched }, on, nothing)
  required-InState (need_input_emitting m) p (s, on, nothing) =
      (record { left = s.left; in_step = s.in_step }, on, nothing)
  required-InState finished p h = h

  -- A reader of which its whole range is required.
  required-IsValid :
      (aim : Aim) (p : StreamReader D S)
      → IsValid decoder stream aim [] p
      → IsValid decoder stream (record aim { full = true }) [] (require_full_range p)
  required-IsValid aim p v = record {
    at_offset = v.at_offset;
    at_len = v.at_len;
    at_full = refl;
    restores = v.restores;
    checkpoint_le = v.checkpoint_le;
    checkpoint_within = v.checkpoint_within;
    served_le = v.served_le;
    got_ok = v.got_ok;
    got_len = v.got_len;
    fresh = λ off.
        let f = v.fresh off in
        record {
          empty = f.empty;
          no_input = f.no_input;
          no_eof = f.no_eof;
          untouched = f.untouched;
          behind = f.behind;
        };
    live = λ on.
        let l = v.live on in
        record {
          more = l.more;
          more_ok = l.more_ok;
          compressed_le = l.compressed_le;
          at_eof = l.at_eof;
          decoding = l.decoding;
          unpacked_le = l.unpacked_le;
          buffered_le = l.buffered_le;
          unread_ok = l.unread_ok;
        };
    in_state = required-InState p.state p v.in_state;
  }

  -- An entry that does not reach past the stream is read in full.
  uncut :
      (total : Option ℕ) (e : IndexEntry) (file_offset len : ℕ)
      → IsU64 (e.uncompressed_offset + e.size)
      → reaches_past total e ≡ false
      → clamp_len total
          (e.uncompressed_offset + min file_offset e.size)
          (min len (e.size - min file_offset e.size))
        ≡ min len (e.size - min file_offset e.size)
  unfolding reaches_past clamp_len
  uncut none e file_offset len fits h = refl
  uncut (some total) e file_offset len fits h = omega (arith, ltb→le _ _ h)

  for_entry_range-IsValid :
      {F C : Type 0} (create : C → Result D) (index : ArchiveIndex F C S) (e : IndexEntry)
      (file_offset len : ℕ) (p : StreamReader D S)
      → validate index.stream ≡ ok tt
      → All (Marks decoder stream) index.stream.checkpoints
      → IsU64 (e.uncompressed_offset + e.size)
      → for_entry_range create index e file_offset len ≡ some (ok p)
      → IsValid decoder stream (entry_aim e file_offset len) [] p
  unfolding for_entry_range
  for_entry_range-IsValid create index e file_offset len p sorted marks fits =
      if_elim (λ o. o ≡ some (ok p) → IsValid decoder stream (entry_aim e file_offset len) [] p)
        (reaches_past index.stream.unpacked_len e) (λ past h. absurd (cc))
        (λ near.
          made near (Reader.new create index.stream (add_u64 e.uncompressed_offset start) read_len)
            refl)
    where
      start : ℕ
      start = min file_offset e.size

      read_len : ℕ
      read_len = min len (e.size - min file_offset e.size)

      made :
          reaches_past index.stream.unpacked_len e ≡ false
          → (o : Option (Result (StreamReader D S)))
          → Reader.new create index.stream (add_u64 e.uncompressed_offset start) read_len ≡ o
          → required o ≡ some (ok p)
          → IsValid decoder stream (entry_aim e file_offset len) [] p
      made near none eq h = absurd (unfold required in cc)
      made near (some (err x)) eq h = absurd (unfold required in cc)
      made near (some (ok q)) eq h =
          let same : require_full_range q ≡ p = unfold required in ground (arith, h) in
          let moved : add_u64 e.uncompressed_offset start ≡ e.uncompressed_offset + start =
            omega (arith, fits) in
          let v =
            required-IsValid
              (aimed decoder stream index.stream (add_u64 e.uncompressed_offset start) read_len) q
              (new-IsValid decoder stream create index.stream (add_u64 e.uncompressed_offset start)
                read_len q sorted marks eq) in
          subst (λ r. IsValid decoder stream (entry_aim e file_offset len) [] r) same
            (subst
              (λ n.
                IsValid decoder stream
                  (record { offset = e.uncompressed_offset + start; len = n; full = true }) []
                  (require_full_range q))
              (uncut index.stream.unpacked_len e file_offset len fits near)
              (subst
                (λ o.
                  IsValid decoder stream
                    (record {
                      offset = o;
                      len = clamp_len index.stream.unpacked_len o read_len;
                      full = true;
                    })
                    [] (require_full_range q))
                moved v))

  -- When the engine for a range of an entry says that it is done, a caller that keeps to the protocol
  -- has read that range of the entry's data, cut to the entry, and nothing else: on an index whose
  -- table validates and marks the stream, for a decoder that decodes it, with content, stream and
  -- the entry's end below 2 ^ 64.
  pub read_engine_reads_the_entry :
      {F C : Type 0} (content_fits : IsU64 (length content)) (stream_fits : IsU64 (length stream))
      (create : C → Result D) (index : ArchiveIndex F C S) (e : IndexEntry)
      (file_offset len fuel : ℕ) (p q r : StreamReader D S) (got : Bytes)
      → validate index.stream ≡ ok tt
      → All (Marks decoder stream) index.stream.checkpoints
      → IsU64 (e.uncompressed_offset + e.size)
      → for_entry_range create index e file_offset len ≡ some (ok p)
      → Delivers decoder stream (entry_aim e file_offset len) content_fits stream_fits p got q
      → step dec fuel q ≡ some (done, r)
      → (got
          ≡ take
              (min len (e.size - min file_offset e.size))
              (drop (e.uncompressed_offset + min file_offset e.size) content))
        × (length got ≡ min len (e.size - min file_offset e.size))
  read_engine_reads_the_entry content_fits stream_fits create index e file_offset len fuel p q r got
        sorted marks fits made d finish =
      delivers_all decoder stream content_fits stream_fits (entry_aim e file_offset len) fuel p q r
        got (for_entry_range-IsValid create index e file_offset len p sorted marks fits made) refl d
        finish

-- An entry that reaches past the end of a stream of known length is refused, whatever part of it is
-- asked for.
pub entry_past_the_end :
    {D F C S : Type 0} (create : C → Result D) (index : ArchiveIndex F C S) (e : IndexEntry)
    (file_offset len total : ℕ)
    → index.stream.unpacked_len ≡ some total
    → total < e.uncompressed_offset + e.size
    → total < 2 ^ 64 - 1
    → for_entry_range create index e file_offset len ≡ some (err Error.truncated_input)
unfolding for_entry_range reaches_past
entry_past_the_end create index e file_offset len total known past small =
    let beyond : reaches_past index.stream.unpacked_len e ≡ true =
      ap (λ o. reaches_past o e) known ∙ lt→ltb total _ (omega arith) in
    rw beyond refl
