-- ===== src/Stream/Decoder.antt =====
-- src/compress/decompressor.rs: the interface of the decoders, over decoders of type `D` and
-- checkpoint states of type `S`, and what a stream's decoder promises.
use iluvatar.Common.{ℕ, ◌+◌, ◌≤◌, ◌≡◌, [], ◌++◌, Option, length, take, drop, Bytes}
use iluvatar.Errors.{Result, ok}
use iluvatar.Stream.Index.{Checkpoint}

-- `DecompressStatus`
pub data DecompressStatus : Type 0 where
  continues stream_end : DecompressStatus

-- `DecompressResult`, with the bytes written to the output in place of their number.
pub record DecompressResult : Type 0 where
  pub bytes_consumed : ℕ
  pub output : Bytes
  pub status : DecompressStatus

-- `trait Decompressor`. A call leaves the decoder changed, on errors too; the output buffer stands
-- as the room in it.
pub record Decompressor (D S : Type 0) : Type 0 where
  pub decompress : Bytes → (room : ℕ) → D → Result DecompressResult × D
  pub checkpoint : (compressed_offset uncompressed_offset : ℕ) → D → Result (Option (Checkpoint S))
  pub restore : Checkpoint S → D → Result (Unit {0}) × D

-- What a step that succeeds has done to a decoder at `k` of the content, given `input` of the
-- compressed bytes `input ++ more` to come.
pub record Decoded {D : Type 0} (content input more : Bytes) (room k : ℕ)
    (At : Bytes → ℕ → D → Type 0) (r : DecompressResult) (d : D) : Type 0 where
  pub consumed : r.bytes_consumed ≤ length input
  pub fits : length r.output ≤ room
  pub within : k + length r.output ≤ length content
  pub output : r.output ≡ take (length r.output) (drop k content)
  pub next : At (drop r.bytes_consumed input ++ more) (k + length r.output) d

-- A decoder of the stream that unpacks to `content`: `At rest k d` says that `d` has unpacked the
-- first `k` bytes and is to be given the compressed bytes `rest`. Empty input is given only at the
-- end of those.
pub record Decodes {D S : Type 0} (dec : Decompressor D S) (content : Bytes) : Type 1 where
  pub At : Bytes → ℕ → D → Type 0
  pub decodes :
      (input more : Bytes) (room k : ℕ) (d d' : D) (r : DecompressResult)
      → (input ≡ [] → more ≡ [])
      → At (input ++ more) k d
      → dec.decompress input room d ≡ (ok r, d')
      → Decoded content input more room k At r d'

-- A checkpoint from which the decoder unpacks the rest of the content.
abbrev pub Restores :
    {D S : Type 0} {dec : Decompressor D S} {content : Bytes}
    → Decodes dec content
    → (stream : Bytes) → Checkpoint S
    → Type 0
Restores {D = D} {dec = dec} decoder stream cp =
    (d d' : D)
    → dec.restore cp d ≡ (ok tt, d')
    → decoder.At (drop cp.compressed_offset stream) cp.uncompressed_offset d'
