-- ===== src/Cpio/Parser/Headers.antt =====
-- src/cpio/parser.rs, `feed_header`: what a call consumes of a member's header.
use iluvatar.Common.{
  ℕ, ◌+◌, ◌-◌, ◌%◌, ◌≤◌, ◌<◌, ◌≡◌, ◌≢◌, refl, sym, subst, arith, min, true, ◌++◌, Option, none,
  some, length, length-append, length-take, length-drop, take, drop, Bytes, Bool-cases, inl, inr,
  ltb, ltb→le, ltb→lt,
}
use iluvatar.Common.Sizes.{add_u64}
use iluvatar.Errors.{Result, ok, err}
use iluvatar.Cpio.Header.{CpioHeader, newc_header_size}
use iluvatar.Cpio.State.{CpioSubFormat, newc, newc_crc, odc, reading_header, CpioParser}
use iluvatar.Cpio.Format.{
  header_size, header_size_of, uses_alignment, aligned_format, sub_format_of, magic_ok,
  parse_header,
}
use iluvatar.Cpio.Parser.{
  max_name_size, with_header, process_header, extend, fill_header, with_format, detect_header,
  header_in,
}
use iluvatar.Cpio.Parser.Invariant.{InStep, InBounds, IsValid, Advanced, Accounts}
use iluvatar.Cpio.Parser.Members.{newc_size}

pub idle : (p : CpioParser) (len : ℕ) → IsValid p → Advanced p p len 0
idle p len v = record { within = omega arith; moved = omega (arith, v.fits); valid = v }

-- A parser that reads a header, with `n` bytes of the chunk taken.
record Reading (p q : CpioParser) (len n : ℕ) : Type 0 where
  within : n ≤ len
  moved : q.stream_pos ≡ add_u64 p.stream_pos n
  state : q.state ≡ reading_header
  room : length q.header_buf < header_size q
  aligned : uses_alignment q ≡ true → q.stream_pos % 4 ≡ length q.header_buf % 4

with_header-Accounts :
    (r : Result CpioHeader) (p q : CpioParser) (len n : ℕ)
    → n ≤ len
    → q.stream_pos ≡ add_u64 p.stream_pos n
    → q.sub_format ≢ none
    → (uses_alignment q ≡ true → q.stream_pos % 4 ≡ newc_header_size % 4)
    → Accounts p len (with_header r n q)
unfolding with_header
with_header-Accounts (err x) p q len n le moved known at = tt
with_header-Accounts (ok hdr) p q len n le moved known at =
    elim (Bool-cases (ltb max_name_size hdr.namesize)) [
      | inl big ↦ rw big tt
      | inr small ↦ rw small (record {
        within = le;
        moved = moved;
        valid = record {
          fits = omega (arith, moved);
          fresh = λ h. absurd (known h);
          bounds = (refl, omega arith);
          aligned = λ h. omega (arith, at h);
        };
      })
    ]

process_header-Accounts :
    (p q : CpioParser) (len n : ℕ)
    → n ≤ len
    → q.stream_pos ≡ add_u64 p.stream_pos n
    → q.sub_format ≢ none
    → (uses_alignment q ≡ true → q.stream_pos % 4 ≡ newc_header_size % 4)
    → Accounts p len (process_header n q)
unfolding process_header
process_header-Accounts p q len n le moved known at =
    elim (Bool-cases (magic_ok q.sub_format (take 6 q.header_buf))) [
      | inl good ↦ rw good (
          with_header-Accounts (parse_header q.sub_format q.header_buf) p q len n le moved known at)
      | inr bad ↦ rw bad tt
    ]

fill_header-Accounts :
    (p q : CpioParser) (xs : Bytes) (n : ℕ)
    → Reading p q (length xs) n
    → q.sub_format ≢ none
    → Accounts p (length xs) (fill_header n xs q)
unfolding fill_header extend
fill_header-Accounts p q xs n r known =
    let k = min (length xs - n) (header_size q - length q.header_buf) in
    let taken = take k (drop n xs) in
    let len_taken : length taken ≡ k = omega (arith, length-take k (drop n xs), length-drop n xs) in
    let len_eq : length (q.header_buf ++ taken) ≡ length q.header_buf + k =
      omega (arith, length-append q.header_buf taken, len_taken) in
    elim (Bool-cases (ltb (length (q.header_buf ++ taken)) (header_size q))) [
      | inl part ↦ rw part (record {
        within = omega (arith, r.within);
        moved = omega (arith, r.moved, len_taken);
        valid = record {
          fits = omega arith;
          fresh = λ h. absurd (known h);
          bounds =
              subst
                (λ st.
                  InBounds st (header_size q) (length (q.header_buf ++ taken))
                    (add_u64 q.stream_pos (length taken)))
                (sym r.state) (ltb→lt _ _ part);
          aligned = λ h.
              subst
                (λ st.
                  InStep st (length (q.header_buf ++ taken)) (add_u64 q.stream_pos (length taken)))
                (sym r.state) (omega (arith, r.aligned h, len_eq, len_taken));
        };
      })
      | inr full ↦ rw full (
          process_header-Accounts p _ (length xs) (n + k) (omega (arith, r.within))
            (omega (arith, r.moved, len_taken)) known
            (λ h.
              omega
                (arith, r.aligned h, len_eq, len_taken, ltb→le _ _ full, r.room, newc_size q h)))
    ]

-- Six bytes fit in every header.
six_fit : (f : Option CpioSubFormat) → 6 < header_size_of f
unfolding header_size_of
six_fit none = omega arith
six_fit (some newc) = omega arith
six_fit (some newc_crc) = omega arith
six_fit (some odc) = omega arith

detected-Accounts :
    (p q : CpioParser) (xs : Bytes) (n : ℕ) (o : Option CpioSubFormat)
    → n ≤ length xs
    → q.stream_pos ≡ add_u64 p.stream_pos n
    → q.state ≡ reading_header
    → length q.header_buf ≤ 6
    → q.stream_pos % 4 ≡ length q.header_buf % 4
    → Accounts p (length xs) (with_format o n xs q)
unfolding with_format
detected-Accounts p q xs n none le moved e room at = tt
detected-Accounts p q xs n (some f) le moved e room at =
    fill_header-Accounts p (record q { sub_format = some f }) xs n
      (record {
        within = le;
        moved = moved;
        state = e;
        room = omega (arith, room, six_fit (some f));
        aligned = λ h. at;
      })
      (λ h. absurd (cc))

detect_header-Accounts :
    (p : CpioParser) (xs : Bytes)
    → p.state ≡ reading_header
    → p.sub_format ≡ none
    → IsValid p
    → Accounts p (length xs) (detect_header xs p)
unfolding detect_header extend
detect_header-Accounts p xs e unknown v =
    let k = min (length xs) (6 - length p.header_buf) in
    let len_taken : length (take k xs) ≡ k = omega (arith, length-take k xs) in
    let len_eq : length (p.header_buf ++ take k xs) ≡ length p.header_buf + k =
      omega (arith, length-append p.header_buf (take k xs), len_taken) in
    let at : p.stream_pos % 4 ≡ length p.header_buf % 4 =
      subst (λ st. InStep st (length p.header_buf) p.stream_pos) e
        (v.aligned (unfold aligned_format in rw unknown refl)) in
    let q = extend (take k xs) p in
    elim (Bool-cases (ltb (length (p.header_buf ++ take k xs)) 6)) [
      | inl part ↦ rw part (record {
        within = omega arith;
        moved = omega (arith, len_taken);
        valid = record {
          fits = omega arith;
          fresh = λ h. (e, ltb→lt _ _ part);
          bounds =
              subst
                (λ st.
                  InBounds st (header_size p) (length (p.header_buf ++ take k xs))
                    (add_u64 p.stream_pos (length (take k xs))))
                (sym e) (omega (arith, six_fit p.sub_format, ltb→lt _ _ part));
          aligned = λ h.
              subst
                (λ st.
                  InStep st (length (p.header_buf ++ take k xs))
                    (add_u64 p.stream_pos (length (take k xs))))
                (sym e) (omega (arith, at, len_eq, len_taken));
        };
      })
      | inr whole ↦ rw whole (
          detected-Accounts p q xs k (sub_format_of (take 6 q.header_buf)) (omega arith)
            (omega (arith, len_taken)) e (omega (arith, len_eq, (v.fresh unknown).1))
            (omega (arith, at, len_eq, len_taken)))
    ]

pub header_in-Accounts :
    (f : Option CpioSubFormat) (p : CpioParser) (xs : Bytes)
    → p.sub_format ≡ f
    → p.state ≡ reading_header
    → IsValid p
    → Accounts p (length xs) (header_in f xs p)
unfolding header_in
header_in-Accounts none p xs known e v = detect_header-Accounts p xs e known v
header_in-Accounts (some f) p xs known e v =
    fill_header-Accounts p p xs 0
      (record {
        within = omega arith;
        moved = omega (arith, v.fits);
        state = e;
        room =
            subst (λ st. InBounds st (header_size p) (length p.header_buf) p.stream_pos) e v.bounds;
        aligned = λ h. subst (λ st. InStep st (length p.header_buf) p.stream_pos) e (v.aligned h);
      })
      (λ h. absurd (cc))
