-- ===== src/Cpio/Parser/Data.antt =====
-- src/cpio/parser.rs: what a call consumes of what stands behind a header.
use iluvatar.Common.{
  ℕ, ◌+◌, ◌-◌, ◌%◌, ◌≡◌, ◌≢◌, refl, subst, arith, min, true, [], ◌∷◌, ◌++◌, none, length,
  length-append, length-take, take, Bytes, Bool-cases, inl, inr, ltb, ltb→le, ◌==◌, ==_iff,
}
use iluvatar.Common.Sizes.{add_u64, sub_u64}
use iluvatar.Common.Search.{trim_end}
use iluvatar.Common.Utf8.{from_utf8_lossy}
use iluvatar.Archive.{ArchiveEntry}
use iluvatar.Cpio.Header.{CpioHeader, newc_header_size}
use iluvatar.Cpio.Links.{InodeKey}
use iluvatar.Cpio.State.{
  reading_filename, skipping_name_pad, reading_link_target, skipping_data, skipping_data_pad,
  CpioParser,
}
use iluvatar.Cpio.Format.{header_size, uses_alignment, padding}
use iluvatar.Cpio.Parser.{
  feed_filename, feed_skip_name_pad, finish_link_target, feed_link_target, feed_skip,
}
use iluvatar.Cpio.Parser.Invariant.{InStep, InBounds, IsValid, Accounts, padding_lem}
use iluvatar.Cpio.Parser.Members.{
  Behind, finish_filename-Accounts, transition_to_data-Accounts, header_size_pos,
}
use iluvatar.Cpio.Parser.Headers.{idle}

pub filename-Accounts :
    (hdr : CpioHeader) (remaining : ℕ) (buf xs : Bytes) (p : CpioParser)
    → p.state ≡ reading_filename hdr remaining buf
    → IsValid p
    → Accounts p (length xs) (feed_filename hdr remaining buf xs p)
unfolding feed_filename
filename-Accounts hdr remaining buf [] p e v = idle p 0 v
filename-Accounts hdr remaining buf (x ∷ xs) p e v =
    let known : p.sub_format ≢ none = λ h. cc ((v.fresh h).0) in
    let n = min (length (x ∷ xs)) remaining in
    let kept = buf ++ take n (x ∷ xs) in
    let len_eq : length kept ≡ length buf + n =
      omega (arith, length-append buf (take n (x ∷ xs)), length-take n (x ∷ xs)) in
    let bounds =
      subst (λ st. InBounds st (header_size p) (length p.header_buf) p.stream_pos) e v.bounds in
    let at : uses_alignment p ≡ true → p.stream_pos % 4 ≡ (newc_header_size + length buf) % 4 =
      λ h. subst (λ st. InStep st (length p.header_buf) p.stream_pos) e (v.aligned h) in
    elim (Bool-cases (ltb 0 (remaining - n))) [
      | inl more ↦ rw more (record {
        within = omega arith;
        moved = refl;
        valid = record {
          fits = omega arith;
          fresh = λ h. absurd (known h);
          bounds = (bounds.0, omega (arith, bounds.1, len_eq));
          aligned = λ h. omega (arith, at h, len_eq);
        };
      })
      | inr all ↦ rw all (
          finish_filename-Accounts p _ (length (x ∷ xs)) n (trim_end 0 (from_utf8_lossy kept)) hdr
            (record { within = omega arith; moved = refl; no_buf = bounds.0; known = known })
            (λ h. omega (arith, at h, len_eq, bounds.1, ltb→le _ _ all)))
    ]

pub name_pad-Accounts :
    (a : ArchiveEntry) (remaining : ℕ) (inode : InodeKey) (nlink : ℕ) (xs : Bytes) (p : CpioParser)
    → p.state ≡ skipping_name_pad a remaining inode nlink
    → IsValid p
    → Accounts p (length xs) (feed_skip_name_pad a remaining inode nlink xs p)
unfolding feed_skip_name_pad
name_pad-Accounts a remaining inode nlink [] p e v = idle p 0 v
name_pad-Accounts a remaining inode nlink (x ∷ xs) p e v =
    let known : p.sub_format ≢ none = λ h. cc ((v.fresh h).0) in
    let n = min (length (x ∷ xs)) remaining in
    let no_buf =
      subst (λ st. InBounds st (header_size p) (length p.header_buf) p.stream_pos) e v.bounds in
    let at : uses_alignment p ≡ true → (p.stream_pos + remaining) % 4 ≡ 0 =
      λ h. subst (λ st. InStep st (length p.header_buf) p.stream_pos) e (v.aligned h) in
    elim (Bool-cases (ltb 0 (remaining - n))) [
      | inl more ↦ rw more (record {
        within = omega arith;
        moved = refl;
        valid = record {
          fits = omega arith;
          fresh = λ h. absurd (known h);
          bounds = no_buf;
          aligned = λ h. omega (arith, at h);
        };
      })
      | inr all ↦ rw all (
          transition_to_data-Accounts p _ (length (x ∷ xs)) n a inode nlink
            (record { within = omega arith; moved = refl; no_buf = no_buf; known = known })
            (λ h. omega (arith, at h, ltb→le _ _ all)))
    ]

finish_link_target-Accounts :
    (p q : CpioParser) (len n m : ℕ) (target : Bytes) (a : ArchiveEntry)
    → Behind p q len n
    → sub_u64 q.stream_pos a.data_offset ≡ m
    → (uses_alignment q ≡ true → q.stream_pos % 4 ≡ m % 4)
    → Accounts p len (finish_link_target n target a q)
unfolding finish_link_target
finish_link_target-Accounts p q len n m target a b size at =
    let pad = padding q (sub_u64 q.stream_pos a.data_offset) in
    let lem = padding_lem q (sub_u64 q.stream_pos a.data_offset) in
    elim (Bool-cases (ltb 0 pad)) [
      | inl some_pad ↦ rw some_pad (record {
        within = b.within;
        moved = b.moved;
        valid = record {
          fits = omega (arith, b.moved);
          fresh = λ h. absurd (b.known h);
          bounds = b.no_buf;
          aligned = λ h. omega (arith, at h, lem.1 h, size);
        };
      })
      | inr no_pad ↦ rw no_pad (record {
        within = b.within;
        moved = b.moved;
        valid = record {
          fits = omega (arith, b.moved);
          fresh = λ h. absurd (b.known h);
          bounds = omega (arith, b.no_buf, header_size_pos q.sub_format);
          aligned = λ h. omega (arith, at h, lem.1 h, size, b.no_buf, ltb→le _ _ no_pad);
        };
      })
    ]

pub link_target-Accounts :
    (a : ArchiveEntry) (remaining : ℕ) (buf xs : Bytes) (p : CpioParser)
    → p.state ≡ reading_link_target a remaining buf
    → IsValid p
    → Accounts p (length xs) (feed_link_target a remaining buf xs p)
unfolding feed_link_target
link_target-Accounts a remaining buf [] p e v = idle p 0 v
link_target-Accounts a remaining buf (x ∷ xs) p e v =
    let known : p.sub_format ≢ none = λ h. cc ((v.fresh h).0) in
    let n = min (length (x ∷ xs)) remaining in
    let kept = buf ++ take n (x ∷ xs) in
    let len_eq : length kept ≡ length buf + n =
      omega (arith, length-append buf (take n (x ∷ xs)), length-take n (x ∷ xs)) in
    let bounds =
      subst (λ st. InBounds st (header_size p) (length p.header_buf) p.stream_pos) e v.bounds in
    let at : uses_alignment p ≡ true → a.data_offset % 4 ≡ 0 =
      λ h. subst (λ st. InStep st (length p.header_buf) p.stream_pos) e (v.aligned h) in
    elim (Bool-cases (ltb 0 (remaining - n))) [
      | inl more ↦ rw more (record {
        within = omega arith;
        moved = refl;
        valid = record {
          fits = omega arith;
          fresh = λ h. absurd (known h);
          bounds = (
            bounds.0,
            omega (arith, bounds.1, len_eq),
            bounds.2,
            omega (arith, bounds.3, len_eq),
          );
          aligned = at;
        };
      })
      | inr all ↦ rw all (
          finish_link_target-Accounts p (record p { stream_pos = add_u64 p.stream_pos n })
            (length (x ∷ xs)) n (length kept) (from_utf8_lossy kept) a
            (record { within = omega arith; moved = refl; no_buf = bounds.0; known = known })
            (omega (arith, bounds.1, bounds.2, bounds.3, len_eq))
            (λ h. omega (arith, at h, bounds.1, len_eq)))
    ]

pub skip_data-Accounts :
    (remaining : ℕ) (xs : Bytes) (p : CpioParser)
    → p.state ≡ skipping_data remaining
    → IsValid p
    → Accounts p (length xs) (feed_skip skipping_data remaining xs p)
unfolding feed_skip
skip_data-Accounts remaining [] p e v = idle p 0 v
skip_data-Accounts remaining (x ∷ xs) p e v =
    let known : p.sub_format ≢ none = λ h. cc ((v.fresh h).0) in
    let n = min (length (x ∷ xs)) remaining in
    let no_buf =
      subst (λ st. InBounds st (header_size p) (length p.header_buf) p.stream_pos) e v.bounds in
    let at : uses_alignment p ≡ true → (p.stream_pos + remaining) % 4 ≡ 0 =
      λ h. subst (λ st. InStep st (length p.header_buf) p.stream_pos) e (v.aligned h) in
    elim (Bool-cases (remaining - n == 0)) [
      | inl all ↦ rw all (record {
        within = omega arith;
        moved = refl;
        valid = record {
          fits = omega arith;
          fresh = λ h. absurd (known h);
          bounds = omega (arith, no_buf, header_size_pos p.sub_format);
          aligned = λ h. omega (arith, at h, no_buf, (==_iff (remaining - n) 0).0 all);
        };
      })
      | inr more ↦ rw more (record {
        within = omega arith;
        moved = refl;
        valid = record {
          fits = omega arith;
          fresh = λ h. absurd (known h);
          bounds = no_buf;
          aligned = λ h. omega (arith, at h);
        };
      })
    ]

pub skip_data_pad-Accounts :
    (remaining : ℕ) (xs : Bytes) (p : CpioParser)
    → p.state ≡ skipping_data_pad remaining
    → IsValid p
    → Accounts p (length xs) (feed_skip skipping_data_pad remaining xs p)
unfolding feed_skip
skip_data_pad-Accounts remaining [] p e v = idle p 0 v
skip_data_pad-Accounts remaining (x ∷ xs) p e v =
    let known : p.sub_format ≢ none = λ h. cc ((v.fresh h).0) in
    let n = min (length (x ∷ xs)) remaining in
    let no_buf =
      subst (λ st. InBounds st (header_size p) (length p.header_buf) p.stream_pos) e v.bounds in
    let at : uses_alignment p ≡ true → (p.stream_pos + remaining) % 4 ≡ 0 =
      λ h. subst (λ st. InStep st (length p.header_buf) p.stream_pos) e (v.aligned h) in
    elim (Bool-cases (remaining - n == 0)) [
      | inl all ↦ rw all (record {
        within = omega arith;
        moved = refl;
        valid = record {
          fits = omega arith;
          fresh = λ h. absurd (known h);
          bounds = omega (arith, no_buf, header_size_pos p.sub_format);
          aligned = λ h. omega (arith, at h, no_buf, (==_iff (remaining - n) 0).0 all);
        };
      })
      | inr more ↦ rw more (record {
        within = omega arith;
        moved = refl;
        valid = record {
          fits = omega arith;
          fresh = λ h. absurd (known h);
          bounds = no_buf;
          aligned = λ h. omega (arith, at h);
        };
      })
    ]
