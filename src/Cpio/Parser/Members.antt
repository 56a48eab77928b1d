-- ===== src/Cpio/Parser/Members.antt =====
-- src/cpio/parser.rs: what a member's name, and the data behind it, leave of the invariant.
use iluvatar.Common.{
  ℕ, ◌+◌, ◌%◌, ◌≤◌, ◌<◌, ◌≡◌, refl, subst, sym, ◌≢◌, arith, true, List, [], ◌∷◌, ◌++◌, Option, none,
  some, length, Bytes, Bool-cases, inl, inr, ltb, ltb→le, bytes_eq,
}
use iluvatar.Common.Sizes.{add_u64}
use iluvatar.Archive.{ArchiveEntry}
use iluvatar.Cpio.Header.{CpioHeader, newc_header_size}
use iluvatar.Cpio.Links.{InodeKey, inode_key, flatten}
use iluvatar.Cpio.State.{
  CpioSubFormat, newc, newc_crc, odc, reading_header, skipping_data, at_end, CpioParser,
}
use iluvatar.Cpio.Policy.{is_sym_link}
use iluvatar.Cpio.Format.{header_size, uses_alignment, padding, aligned_format, header_size_of}
use iluvatar.Cpio.Parser.{
  max_name_size, transition_to_data, pop_or_end, finish_archive, member_entry, start_member,
  finish_filename, trailer_name,
}
use iluvatar.Cpio.Parser.Invariant.{
  InStep, InBounds, Advanced, Accounts, report-Accounts, padding_lem,
}

-- A parser that stands behind a name and its padding.
pub record Behind (p q : CpioParser) (len n : ℕ) : Type 0 where
  pub within : n ≤ len
  pub moved : q.stream_pos ≡ add_u64 p.stream_pos n
  pub no_buf : length q.header_buf ≡ 0
  pub known : q.sub_format ≢ none

pub header_size_pos : (f : Option CpioSubFormat) → 0 < header_size_of f
unfolding header_size_of
header_size_pos none = omega arith
header_size_pos (some newc) = omega arith
header_size_pos (some newc_crc) = omega arith
header_size_pos (some odc) = omega arith

data_pos : (a b c : ℕ) → a % 4 ≡ 0 → (b + c) % 4 ≡ 0 → (a + add_u64 b c) % 4 ≡ 0
data_pos a b c h k = omega (arith, h, k)

pub transition_to_data-Accounts :
    (p q : CpioParser) (len n : ℕ) (e : ArchiveEntry) (inode : InodeKey) (nlink : ℕ)
    → Behind p q len n
    → (uses_alignment q ≡ true → q.stream_pos % 4 ≡ 0)
    → Accounts p len (transition_to_data n e inode nlink q)
unfolding transition_to_data
transition_to_data-Accounts p q len n e inode nlink b at_four =
    let e' = record e { data_offset = q.stream_pos } in
    elim (Bool-cases (ltb 0 e.size)) [
      | inr empty ↦ elim (Bool-cases (is_sym_link e.entry_type)) [
        | inl link ↦
            rw (link, empty)
              (report-Accounts p (record q { state = reading_header }) len n e' inode nlink header)
        | inr other ↦
            rw (other, empty)
              (report-Accounts p (record q { state = reading_header }) len n e' inode nlink header)
      ]
      | inl full ↦ elim (Bool-cases (is_sym_link e.entry_type)) [
        | inr other ↦
            rw (other, full)
              (report-Accounts p
                (record q { state = skipping_data (add_u64 e.size (padding q e.size)) }) len n e'
                inode nlink member)
        | inl link ↦ elim (Bool-cases (ltb max_name_size e.size)) [
          | inl big ↦ rw (link, full, big) tt
          | inr small ↦
              rw (link, full, small)
                (record {
                  within = b.within;
                  moved = b.moved;
                  valid = record {
                    fits = omega (arith, b.moved);
                    fresh = λ h. absurd (b.known h);
                    bounds = (
                      b.no_buf,
                      omega (arith, b.moved),
                      omega (arith, b.moved),
                      omega (arith, ltb→le max_name_size e.size small),
                    );
                    aligned = at_four;
                  };
                })
        ]
      ]
    ]
  where
    header : Advanced p (record q { state = reading_header }) len n
    header = record {
      within = b.within;
      moved = b.moved;
      valid = record {
        fits = omega (arith, b.moved);
        fresh = λ h. absurd (b.known h);
        bounds = omega (arith, b.no_buf, header_size_pos q.sub_format);
        aligned = λ h. omega (arith, at_four h, b.no_buf);
      };
    }

    member :
        Advanced p (record q { state = skipping_data (add_u64 e.size (padding q e.size)) }) len n
    member = record {
      within = b.within;
      moved = b.moved;
      valid = record {
        fits = omega (arith, b.moved);
        fresh = λ h. absurd (b.known h);
        bounds = b.no_buf;
        aligned = λ h.
            data_pos q.stream_pos e.size (padding q e.size) (at_four h)
              ((padding_lem q e.size).1 h);
      };
    }

ended-Advanced :
    (p q : CpioParser) (len n : ℕ) (es : List ArchiveEntry)
    → Behind p q len n
    → q.state ≡ at_end
    → Advanced p (record q { pending = es }) len n
ended-Advanced p q len n es b e = record {
  within = b.within;
  moved = b.moved;
  valid = record {
    fits = omega (arith, b.moved);
    fresh = λ h. absurd (b.known h);
    bounds =
        subst (λ st. InBounds st (header_size q) (length q.header_buf) q.stream_pos) (sym e)
          b.no_buf;
    aligned = λ h. subst (λ st. InStep st (length q.header_buf) q.stream_pos) (sym e) tt;
  };
}

pop_or_end-Accounts :
    (p q : CpioParser) (len n : ℕ) (es : List ArchiveEntry)
    → Behind p q len n
    → q.state ≡ at_end
    → Accounts p len (pop_or_end n es q)
unfolding pop_or_end
pop_or_end-Accounts p q len n [] b e = ended-Advanced p q len n q.pending b e
pop_or_end-Accounts p q len n (x ∷ es) b e = ended-Advanced p q len n es b e

-- Behind a name, in an aligned archive.
pub newc_size : (q : CpioParser) → uses_alignment q ≡ true → header_size q ≡ newc_header_size
newc_size q h = go q.sub_format h
  where
    go : (f : Option CpioSubFormat) → aligned_format f ≡ true → header_size_of f ≡ newc_header_size
    go none k = unfold header_size_of in refl
    go (some newc) k = unfold header_size_of in refl
    go (some newc_crc) k = unfold header_size_of in refl
    go (some odc) k = unfold aligned_format in absurd (cc)

name_pos : (a b c : ℕ) → a % 4 ≡ b % 4 → (b + c) % 4 ≡ 0 → (a + c) % 4 ≡ 0
name_pos a b c h k = omega (arith, h, k)

start_member-Accounts :
    (p q : CpioParser) (len n : ℕ) (path : Bytes) (hdr : CpioHeader)
    → Behind p q len n
    → (uses_alignment q ≡ true → q.stream_pos % 4 ≡ (newc_header_size + hdr.namesize) % 4)
    → Accounts p len (start_member n path hdr q)
unfolding start_member
start_member-Accounts p q len n path hdr b at =
    let pad = padding q (header_size q + hdr.namesize) in
    let e = member_entry path hdr (add_u64 q.stream_pos pad) in
    let lem = padding_lem q (header_size q + hdr.namesize) in
    elim (Bool-cases (ltb 0 pad)) [
      | inl some_pad ↦ rw some_pad (record {
        within = b.within;
        moved = b.moved;
        valid = record {
          fits = omega (arith, b.moved);
          fresh = λ h. absurd (b.known h);
          bounds = b.no_buf;
          aligned = λ h. omega (arith, at h, lem.1 h, newc_size q h);
        };
      })
      | inr no_pad ↦ rw no_pad (
          transition_to_data-Accounts p q len n e (inode_key hdr) hdr.nlink b
            (λ h. omega (arith, at h, lem.1 h, newc_size q h, ltb→le 0 pad no_pad)))
    ]

pub finish_filename-Accounts :
    (p q : CpioParser) (len n : ℕ) (filename : Bytes) (hdr : CpioHeader)
    → Behind p q len n
    → (uses_alignment q ≡ true → q.stream_pos % 4 ≡ (newc_header_size + hdr.namesize) % 4)
    → Accounts p len (finish_filename n filename hdr q)
unfolding finish_filename finish_archive
finish_filename-Accounts p q len n filename hdr b at =
    elim (Bool-cases (bytes_eq filename trailer_name)) [
      | inl trailer ↦ rw trailer (
          pop_or_end-Accounts p _ len n (q.pending ++ flatten q.deferred_links)
            (record { within = b.within; moved = b.moved; no_buf = b.no_buf; known = b.known })
            refl)
      | inr member ↦ rw member (start_member-Accounts p q len n filename hdr b at)
    ]
