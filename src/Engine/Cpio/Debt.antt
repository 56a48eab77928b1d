-- ===== src/Engine/Cpio/Debt.antt =====
-- src/cpio/parser.rs: the calls of `feed` that consume nothing.
use iluvatar.Common.{
  ℕ, ◌+◌, ◌-◌, ◌*◌, ◌≤◌, ◌<◌, ◌≡◌, refl, subst, ap, arith, List, [], ◌∷◌, ◌++◌, length,
  length-append, min, Bytes, Bool-cases, inl, inr, ltb, take, if◌then◌else◌, Option, none, some,
  bytes_eq, not, ◌||◌, ◌==◌, leb, drop, suc,
}
use iluvatar.Common.Sizes.{add_u64, sub_u64}
use iluvatar.Errors.{Result, ok, err}
use iluvatar.Archive.{ArchiveEntry, fed, failed, panicked}
use iluvatar.Cpio.Header.{CpioHeader}
use iluvatar.Cpio.Links.{
  InodeKey, inode_key, key_eq, key_lt, Deferred, push_deferred, deferred_at, without, flatten,
  as_links,
}
use iluvatar.Cpio.State.{
  CpioSubFormat, CpioState, reading_header, reading_filename, skipping_name_pad,
  reading_link_target, skipping_data, skipping_data_pad, at_end, CpioParser, Outcome,
}
use iluvatar.Cpio.Policy.{is_regular, is_sym_link, link_or_defer, canonical, apply_hardlink_policy}
use iluvatar.Cpio.Format.{header_size, padding, parse_header, sub_format_of, magic_ok}
use iluvatar.Cpio.Parser.{
  max_name_size, report, transition_to_data, pop_or_end, finish_archive, start_member,
  finish_filename, trailer_name, with_header, process_header, extend, fill_header, with_format,
  detect_header, header_in, feed_header, feed_filename, feed_skip_name_pad, finish_link_target,
  feed_link_target, feed_skip, feed_in, feed_queue,
}
use iluvatar.Engine.Fuel.{GoesOn}

-- A name, its padding or a link target of no bytes may be taken by a call that consumes nothing.
abbrev pub debt_in : CpioState → ℕ
debt_in (reading_filename hdr remaining buf) = 1
debt_in (skipping_name_pad e remaining inode nlink) = 1
debt_in (reading_link_target e remaining buf) = 1
debt_in _ = 0

-- Queued and deferred entries are reported by calls that consume nothing.
abbrev pub owed : CpioParser → ℕ
owed p = length p.pending + length (flatten p.deferred_links)

abbrev pub cpio_debt : CpioParser → ℕ
cpio_debt p = owed p + debt_in p.state

debt-le : (st : CpioState) → debt_in st ≤ 1
debt-le reading_header = omega arith
debt-le (reading_filename hdr remaining buf) = omega arith
debt-le (skipping_name_pad e remaining inode nlink) = omega arith
debt-le (reading_link_target e remaining buf) = omega arith
debt-le (skipping_data remaining) = omega arith
debt-le (skipping_data_pad remaining) = omega arith
debt-le at_end = omega arith

-- The debt behind a call that the loop goes on from.
abbrev pub Pays : ℕ → Outcome → Type 0
Pays debt (fed n ev q) = GoesOn n ev → cpio_debt q < 3 * n + debt
Pays debt (failed e q) = Unit {0}
Pays debt panicked = Unit {0}

length-push_deferred :
    (key : InodeKey) (e : ArchiveEntry) (d : Deferred)
    → length (flatten (push_deferred key e d)) ≡ suc (length (flatten d))
unfolding flatten push_deferred
length-push_deferred key e [] = refl
length-push_deferred key e ((k, es) ∷ rest) = elim (Bool-cases (key_eq key k)) [
  | inl same ↦ rw same (
      omega (
        arith,
        length-append es (flatten rest),
        length-append (es ++ (e ∷ [])) (flatten rest),
        length-append es (e ∷ []),
      ))
  | inr other ↦ elim (Bool-cases (key_lt key k)) [
    | inl before ↦ rw (other, before) refl
    | inr behind ↦
        rw (other, behind)
          (omega (
            arith,
            length-append es (flatten rest),
            length-append es (flatten (push_deferred key e rest)),
            length-push_deferred key e rest,
          ))
  ]
]

length-without :
    (key : InodeKey) (d : Deferred)
    → length (deferred_at key d) + length (flatten (without key d)) ≡ length (flatten d)
unfolding flatten deferred_at without
length-without key [] = refl
length-without key ((k, es) ∷ rest) = elim (Bool-cases (key_eq key k)) [
  | inl same ↦ rw same (omega (arith, length-append es (flatten rest)))
  | inr other ↦ rw other (
      omega (
        arith,
        length-append es (flatten rest),
        length-append es (flatten (without key rest)),
        length-without key rest,
      ))
]

length-as_links :
    (target : Bytes) (es : List ArchiveEntry) → length (as_links target es) ≡ length es
unfolding as_links
length-as_links target [] = refl
length-as_links target (e ∷ es) = omega (arith, length-as_links target es)

canonical-owed :
    (e : ArchiveEntry) (inode : InodeKey) (p : CpioParser) → owed (canonical e inode p) ≡ owed p
unfolding canonical
canonical-owed e inode p = omega (
  arith,
  length-append p.pending (as_links e.path (deferred_at inode p.deferred_links)),
  length-as_links e.path (deferred_at inode p.deferred_links),
  length-without inode p.deferred_links,
)

-- A state from which nothing is taken for free.
link_or_defer-Pays :
    (o : Option Bytes) (n : ℕ) (e : ArchiveEntry) (inode : InodeKey) (p : CpioParser)
    → debt_in p.state ≡ 0
    → Pays (owed p + 1) (report n (link_or_defer o e inode p))
unfolding link_or_defer report
link_or_defer-Pays (some path) n e inode p h = λ on. omega (arith, h)
link_or_defer-Pays none n e inode p h =
    λ on. omega (arith, h, on, length-push_deferred inode e p.deferred_links)

report-Pays :
    (n : ℕ) (e : ArchiveEntry) (inode : InodeKey) (nlink : ℕ) (p : CpioParser)
    → debt_in p.state ≡ 0
    → Pays (owed p + 1) (report n (apply_hardlink_policy e inode nlink p))
unfolding apply_hardlink_policy
report-Pays n e inode nlink p h = elim (Bool-cases (not (is_regular e.entry_type) || leb nlink 1)) [
  | inl alone ↦ rw alone (unfold report in λ on. omega (arith, h))
  | inr linked ↦ elim (Bool-cases (ltb 0 e.size)) [
    | inl full ↦
        rw (linked, full)
          (unfold report in λ on. omega (arith, canonical-owed e inode p, state_kept))
    | inr empty ↦ rw (linked, empty) (link_or_defer-Pays (p.resolved_inodes inode) n e inode p h)
  ]
]
  where
    state_kept : debt_in (canonical e inode p).state ≡ 0
    state_kept = unfold canonical in h

transition_to_data-Pays :
    (n : ℕ) (e : ArchiveEntry) (inode : InodeKey) (nlink : ℕ) (p : CpioParser)
    → Pays (owed p + 1) (transition_to_data n e inode nlink p)
unfolding transition_to_data
transition_to_data-Pays n e inode nlink p =
    let e' = record e { data_offset = p.stream_pos } in
    let header = report-Pays n e' inode nlink (record p { state = reading_header }) refl in
    let member =
      report-Pays n e' inode nlink
        (record p { state = skipping_data (add_u64 e.size (padding p e.size)) }) refl in
    elim (Bool-cases (is_sym_link e.entry_type)) [
      | inr other ↦ elim (Bool-cases (ltb 0 e.size)) [
        | inl full ↦ rw (other, full) member
        | inr empty ↦ rw (other, empty) header
      ]
      | inl link ↦ elim (Bool-cases (ltb 0 e.size)) [
        | inr empty ↦ rw (link, empty) header
        | inl full ↦ elim (Bool-cases (ltb max_name_size e.size)) [
          | inl big ↦ rw (link, full, big) tt
          | inr small ↦ rw (link, full, small) (λ on. omega (arith, on))
        ]
      ]
    ]

pop_or_end-Pays :
    (n d : ℕ) (es : List ArchiveEntry) (p : CpioParser)
    → p.state ≡ at_end
    → p.deferred_links ≡ []
    → length es ≤ d
    → Pays (d + 1) (pop_or_end n es p)
unfolding pop_or_end flatten
pop_or_end-Pays n d [] p e none_left h = λ on. absurd on
pop_or_end-Pays n d (x ∷ es) p e none_left h =
    λ on. omega (arith, ap debt_in e, ap (λ l. length (flatten l)) none_left, h)

finish_filename-Pays :
    (n : ℕ) (filename : Bytes) (hdr : CpioHeader) (p : CpioParser)
    → Pays (owed p + 1) (finish_filename n filename hdr p)
unfolding finish_filename finish_archive start_member
finish_filename-Pays n filename hdr p = elim (Bool-cases (bytes_eq filename trailer_name)) [
  | inl trailer ↦ rw trailer (
      pop_or_end-Pays n (owed p) (p.pending ++ flatten p.deferred_links) _ refl refl
        (omega (arith, length-append p.pending (flatten p.deferred_links))))
  | inr member ↦ elim (Bool-cases (ltb 0 (padding p (header_size p + hdr.namesize)))) [
    | inl some_pad ↦ rw (member, some_pad) (λ on. omega (arith, on))
    | inr no_pad ↦ rw (member, no_pad) (transition_to_data-Pays n _ (inode_key hdr) hdr.nlink p)
  ]
]

with_header-Pays :
    (r : Result CpioHeader) (n : ℕ) (p : CpioParser) → Pays (owed p) (with_header r n p)
unfolding with_header
with_header-Pays (err x) n p = tt
with_header-Pays (ok hdr) n p = elim (Bool-cases (ltb max_name_size hdr.namesize)) [
  | inl big ↦ rw big tt
  | inr small ↦ rw small (λ on. omega (arith, on))
]

fill_header-Pays : (n : ℕ) (xs : Bytes) (p : CpioParser) → Pays (owed p) (fill_header n xs p)
unfolding fill_header process_header extend
fill_header-Pays n xs p =
    let taken = take (min (length xs - n) (header_size p - length p.header_buf)) (drop n xs) in
    let q = extend taken p in
    elim (Bool-cases (ltb (length (p.header_buf ++ taken)) (header_size p))) [
      | inl part ↦ rw part (λ on. omega (arith, on, debt-le p.state))
      | inr full ↦ elim (Bool-cases (magic_ok p.sub_format (take 6 (p.header_buf ++ taken)))) [
        | inl good ↦
            rw (full, good)
              (with_header-Pays (parse_header p.sub_format (p.header_buf ++ taken)) _ q)
        | inr bad ↦ rw (full, bad) tt
      ]
    ]

detect_header-Pays : (xs : Bytes) (p : CpioParser) → Pays (owed p) (detect_header xs p)
unfolding detect_header extend
detect_header-Pays xs p =
    let taken = take (min (length xs) (6 - length p.header_buf)) xs in
    elim (Bool-cases (ltb (length (p.header_buf ++ taken)) 6)) [
      | inl part ↦ rw part (λ on. omega (arith, on, debt-le p.state))
      | inr full ↦ rw full (with (sub_format_of (take 6 (p.header_buf ++ taken))) _ _ refl)
    ]
  where
    with :
        (o : Option CpioSubFormat) (n : ℕ) (q : CpioParser)
        → owed q ≡ owed p
        → Pays (owed p) (with_format o n xs q)
    with none n q same = unfold with_format in tt
    with (some f) n q same =
        unfold with_format in
        (subst (λ d. Pays d (fill_header n xs (record q { sub_format = some f }))) same
          (fill_header-Pays n xs (record q { sub_format = some f })))

header_in-Pays :
    (f : Option CpioSubFormat) (xs : Bytes) (p : CpioParser) → Pays (owed p) (header_in f xs p)
unfolding header_in
header_in-Pays none xs p = detect_header-Pays xs p
header_in-Pays (some f) xs p = fill_header-Pays 0 xs p

feed_skip-Pays :
    (more : ℕ → CpioState) (remaining : ℕ) (xs : Bytes) (p : CpioParser)
    → Pays (owed p) (feed_skip more remaining xs p)
unfolding feed_skip
feed_skip-Pays more remaining [] p = λ on. absurd (omega (arith, on))
feed_skip-Pays more remaining (x ∷ xs) p = λ on. omega (
  arith,
  on,
  debt-le (
      if (remaining - min (length (x ∷ xs)) remaining) == 0
      then reading_header
      else more (remaining - min (length (x ∷ xs)) remaining)),
)

pad-free : (pad : ℕ) → debt_in (if ltb 0 pad then skipping_data_pad pad else reading_header) ≡ 0
pad-free pad = ground arith

finish_link_target-Pays :
    (n : ℕ) (target : Bytes) (e : ArchiveEntry) (p : CpioParser)
    → Pays (owed p + 1) (finish_link_target n target e p)
unfolding finish_link_target
finish_link_target-Pays n target e p =
    λ on. omega (arith, pad-free (padding p (sub_u64 p.stream_pos e.data_offset)))

feed_in-Pays :
    (st : CpioState) (x : ℕ) (xs : Bytes) (p : CpioParser)
    → Pays (owed p + debt_in st) (feed_in st (x ∷ xs) p)
unfolding feed_in feed_header feed_filename feed_skip_name_pad feed_link_target
feed_in-Pays reading_header x xs p =
    subst (λ d. Pays d (header_in p.sub_format (x ∷ xs) p)) (omega arith)
      (header_in-Pays p.sub_format (x ∷ xs) p)
feed_in-Pays (reading_filename hdr remaining buf) x xs p =
    elim (Bool-cases (ltb 0 (remaining - min (length (x ∷ xs)) remaining))) [
      | inl more ↦ rw more (λ on. omega (arith, on))
      | inr all ↦ rw all (finish_filename-Pays _ _ hdr _)
    ]
feed_in-Pays (skipping_name_pad e remaining inode nlink) x xs p =
    elim (Bool-cases (ltb 0 (remaining - min (length (x ∷ xs)) remaining))) [
      | inl more ↦ rw more (λ on. omega (arith, on))
      | inr all ↦ rw all (transition_to_data-Pays _ e inode nlink _)
    ]
feed_in-Pays (reading_link_target e remaining buf) x xs p =
    elim (Bool-cases (ltb 0 (remaining - min (length (x ∷ xs)) remaining))) [
      | inl more ↦ rw more (λ on. omega (arith, on))
      | inr all ↦ rw all (finish_link_target-Pays _ _ e _)
    ]
feed_in-Pays (skipping_data remaining) x xs p =
    subst (λ d. Pays d (feed_skip skipping_data remaining (x ∷ xs) p)) (omega arith)
      (feed_skip-Pays skipping_data remaining (x ∷ xs) p)
feed_in-Pays (skipping_data_pad remaining) x xs p =
    subst (λ d. Pays d (feed_skip skipping_data_pad remaining (x ∷ xs) p)) (omega arith)
      (feed_skip-Pays skipping_data_pad remaining (x ∷ xs) p)
feed_in-Pays at_end x xs p = λ on. absurd on

pub feed_queue-Pays :
    (es : List ArchiveEntry) (x : ℕ) (xs : Bytes) (p : CpioParser)
    → p.pending ≡ es
    → Pays (cpio_debt p) (feed_queue es (x ∷ xs) p)
unfolding feed_queue
feed_queue-Pays [] x xs p h = feed_in-Pays p.state x xs p
feed_queue-Pays (e ∷ es) x xs p h = λ on. omega (arith, ap length h)
