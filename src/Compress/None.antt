-- ===== src/Compress/None.antt =====
-- src/compress/none.rs: the decoder of stored data, over any type of checkpoint states.
use iluvatar.Common.{
  ℕ, ◌+◌, ◌-◌, ◌≤◌, ◌≡◌, refl, sym, subst, ap, ◌∙◌, arith, min, some, [], ◌∷◌, ◌++◌, length,
  length-take, length-drop, length-append, take, drop, take-append_within, drop-append_within,
  drop-drop, Bytes,
}
use iluvatar.Common.Sizes.{add_u64}
use iluvatar.Errors.{Result, ok}
use iluvatar.Stream.Index.{Checkpoint}
use iluvatar.Stream.Decoder.{
  continues, stream_end, DecompressResult, Decompressor, Decoded, Decodes, Restores,
}

-- `NoneDecompressor`
pub record NoneDecompressor : Type 0 where
  pub total_in : ℕ
  pub total_out : ℕ

-- `NoneDecompressor::new`
abbrev pub new : NoneDecompressor
new = record { total_in = 0; total_out = 0 }

unfoldable pub decompress :
    Bytes → (room : ℕ) → NoneDecompressor → Result DecompressResult × NoneDecompressor
decompress [] room d = (ok (record { bytes_consumed = 0; output = []; status = stream_end }), d)
decompress (x ∷ xs) room d =
    let n = min (length (x ∷ xs)) room in
    (
      ok (record { bytes_consumed = n; output = take n (x ∷ xs); status = continues }),
      record { total_in = add_u64 d.total_in n; total_out = add_u64 d.total_out n },
    )

module _ {S : Type 0} where
  unfoldable pub restore : Checkpoint S → NoneDecompressor → Result (Unit {0}) × NoneDecompressor
  restore cp d =
      (ok tt, record { total_in = cp.compressed_offset; total_out = cp.uncompressed_offset })

  -- `impl Decompressor for NoneDecompressor`, with `CheckpointState::None` as `no_state`.
  abbrev pub none_decompressor : S → Decompressor NoneDecompressor S
  none_decompressor no_state = record {
    decompress = decompress;
    checkpoint = λ compressed_offset uncompressed_offset d. ok (
        some (record {
          compressed_offset = compressed_offset;
          bit_offset = 0;
          uncompressed_offset = uncompressed_offset;
          state = no_state;
        }));
    restore = restore;
  }

-- What is left of the content is what is left of the stream.
abbrev pub At : (content : Bytes) → Bytes → ℕ → NoneDecompressor → Type 0
At content rest k d = (rest ≡ drop k content) × (k ≤ length content)

abbrev pub DecodedAs :
    (content input more : Bytes) (room k : ℕ) → Result DecompressResult × NoneDecompressor → Type 0
DecodedAs content input more room k (ok r, d) = Decoded content input more room k (At content) r d
DecodedAs content input more room k o = Unit {0}

pub decompress-Decoded :
    (content input more : Bytes) (room k : ℕ) (d : NoneDecompressor)
    → At content (input ++ more) k d
    → DecodedAs content input more room k (decompress input room d)
unfolding decompress
decompress-Decoded content [] more room k d (here, le) = record {
  consumed = omega arith;
  fits = omega arith;
  within = omega (arith, le);
  output = refl;
  next = (here ∙ ap (λ n. drop n content) (omega arith), omega (arith, le));
}
decompress-Decoded content (x ∷ xs) more room k d (here, le) = record {
  consumed = omega arith;
  fits = omega (arith, taken);
  within = omega (arith, taken, sizes, le);
  output =
      sym (take-append_within n (x ∷ xs) more (omega arith))
      ∙ ap (take n) here
      ∙ ap (λ m. take m (drop k content)) (sym taken_all);
  next = (
    sym (drop-append_within n (x ∷ xs) more (omega arith))
        ∙ ap (drop n) here
        ∙ drop-drop k n content
        ∙ ap (λ m. drop (k + m) content) (sym taken_all),
    omega (arith, taken, sizes, le),
  );
}
  where
    n : ℕ
    n = min (length (x ∷ xs)) room

    taken :
        length (take (min (length (x ∷ xs)) room) (x ∷ xs))
        ≡ min (min (length (x ∷ xs)) room) (length (x ∷ xs))
    taken = length-take (min (length (x ∷ xs)) room) (x ∷ xs)

    taken_all : length (take (min (length (x ∷ xs)) room) (x ∷ xs)) ≡ min (length (x ∷ xs)) room
    taken_all = omega (arith, taken)

    sizes : length (x ∷ xs) + length more ≡ length content - k
    sizes = sym (length-append (x ∷ xs) more) ∙ ap length here ∙ length-drop k content

module _ {S : Type 0} (no_state : S) (content : Bytes) where
  -- Stored data is its own content, from any offset that both are cut at.
  abbrev pub none_decodes : Decodes (none_decompressor no_state) content
  none_decodes = record {
    At = At content;
    decodes = λ input more room k d d' r last here eq.
        subst (DecodedAs content input more room k) eq
          (decompress-Decoded content input more room k d here);
  }

  pub none-Restores :
      (cp : Checkpoint S)
      → cp.compressed_offset ≡ cp.uncompressed_offset
      → cp.uncompressed_offset ≤ length content
      → Restores none_decodes content cp
  unfolding restore
  none-Restores cp same le d d' eq = (ap (λ n. drop n content) same, le)
