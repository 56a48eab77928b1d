-- ===== src/Stream/Reader/Decoding.antt =====
-- src/stream/reader.rs, `skip` and `emit`: a step of the decoder keeps the reader in step with it.
use iluvatar.Common.{
  ℕ, ◌+◌, ◌-◌, ◌≤◌, ◌≡◌, sym, subst, ap, ◌∙◌, arith, Bool, ◌++◌, length, length-drop, take, drop,
  drop-drop, drop-take, drop_all, Bytes,
}
use iluvatar.Common.Sizes.{add_u64, IsU64}
use iluvatar.Stream.Decoder.{DecompressResult, Decompressor, Decodes, Decoded}
use iluvatar.Stream.Reader.{State, StreamReader, buffered, decoded}
use iluvatar.Stream.Reader.Invariant.{Live}

module _ {D S : Type 0} {dec : Decompressor D S} {content : Bytes} (decoder : Decodes dec content)
    (stream : Bytes) (content_fits : IsU64 (length content)) where
  -- What the decoder made of the input of a live reader.
  abbrev pub DecodedFrom : (room : ℕ) → StreamReader D S → Bytes → DecompressResult → D → Type 0
  DecodedFrom room p more r d =
      Decoded content (drop p.input_pos p.input_buf) more room p.unpacked_pos decoder.At r d

  position_moved :
      (room : ℕ) (p : StreamReader D S) (more : Bytes) (r : DecompressResult) (d : D)
      → DecodedFrom room p more r d
      → add_u64 p.unpacked_pos (length r.output) ≡ p.unpacked_pos + length r.output
  position_moved room p more r d c = omega (arith, c.within, content_fits)

  decoder_moved :
      (room : ℕ) (p : StreamReader D S) (more : Bytes) (r : DecompressResult) (d : D)
      → DecodedFrom room p more r d
      → decoder.At
          (drop (p.input_pos + r.bytes_consumed) p.input_buf ++ more)
          (add_u64 p.unpacked_pos (length r.output))
          d
  decoder_moved room p more r d c =
      subst (λ k. decoder.At (drop (p.input_pos + r.bytes_consumed) p.input_buf ++ more) k d)
        (sym (position_moved room p more r d c))
        (subst (λ xs. decoder.At (xs ++ more) (p.unpacked_pos + length r.output) d)
          (drop-drop p.input_pos r.bytes_consumed p.input_buf) c.next)

  -- Output that is kept from its byte `j` on.
  pub kept-Live :
      (room j : ℕ) (st : State) (b : Bool) (p : StreamReader D S) (r : DecompressResult) (d : D)
      → j ≤ length r.output
      → (l : Live decoder stream p) → DecodedFrom room p l.more r d
      → Live decoder stream (record (decoded r p) {
        decompressor = d;
        output = drop j r.output;
        output_read = 0;
        state = st;
        stream_ended = b;
      })
  kept-Live room j st b p r d le l c = record {
    more = l.more;
    more_ok = l.more_ok;
    compressed_le = l.compressed_le;
    at_eof = l.at_eof;
    decoding = decoder_moved room p l.more r d c;
    unpacked_le = omega (arith, position_moved room p l.more r d c, c.within);
    buffered_le = omega (arith, position_moved room p l.more r d c, length-drop j r.output);
    unread_ok =
        ap (drop j) c.output
        ∙ drop-take j (length r.output) (drop p.unpacked_pos content)
        ∙ ap (take (length r.output - j)) (drop-drop p.unpacked_pos j content)
        ∙ sym (
            ap (λ n. take n (drop (add_u64 p.unpacked_pos (length r.output) - n) content)) size
            ∙ ap (λ n. take (length r.output - j) (drop n content)) start);
  }
    where
      size : length (drop j r.output) - 0 ≡ length r.output - j
      size = omega (arith, length-drop j r.output)

      start : add_u64 p.unpacked_pos (length r.output) - (length r.output - j) ≡ p.unpacked_pos + j
      start = omega (arith, position_moved room p l.more r d c, le)

  -- A step of which nothing is kept, with nothing buffered.
  pub passed-Live :
      (room : ℕ) (st : State) (b : Bool) (p : StreamReader D S) (r : DecompressResult) (d : D)
      → buffered p ≡ 0
      → (l : Live decoder stream p) → DecodedFrom room p l.more r d
      → Live decoder stream
          (record (decoded r p) { decompressor = d; state = st; stream_ended = b })
  passed-Live room st b p r d empty l c = record {
    more = l.more;
    more_ok = l.more_ok;
    compressed_le = l.compressed_le;
    at_eof = l.at_eof;
    decoding = decoder_moved room p l.more r d c;
    unpacked_le = omega (arith, position_moved room p l.more r d c, c.within);
    buffered_le = omega (arith, empty);
    unread_ok =
        drop_all p.output_read p.output (omega (arith, empty))
        ∙ sym
            (ap (λ n. take n (drop (add_u64 p.unpacked_pos (length r.output) - n) content)) empty);
  }

  -- The state and the mark of the end are no part of it.
  pub restated-Live :
      (st : State) (b : Bool) (p : StreamReader D S)
      → Live decoder stream p
      → Live decoder stream (record p { state = st; stream_ended = b })
  restated-Live st b p l = record {
    more = l.more;
    more_ok = l.more_ok;
    compressed_le = l.compressed_le;
    at_eof = l.at_eof;
    decoding = l.decoding;
    unpacked_le = l.unpacked_le;
    buffered_le = l.buffered_le;
    unread_ok = l.unread_ok;
  }
