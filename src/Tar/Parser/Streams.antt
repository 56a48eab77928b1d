-- ===== src/Tar/Parser/Streams.antt =====
-- src/tar/parser.rs, `feed_tar`: what a valid parser makes of any stream.
use iluvatar.Common.{
  ℕ, ◌-◌, ◌<◌, ◌≡◌, refl, sym, subst, arith, min, Bool, true, false, List, [], ◌∷◌, length, drop,
  Bytes, Bool-cases, ltb, ltb→lt, ltb→le, inl, inr,
}
use iluvatar.Archive.{Event, entry, need_data, end_of_archive, fed, failed, panicked}
use iluvatar.Tar.Entry.{TarEntry}
use iluvatar.Tar.State.{
  ParserState, reading_header, skipping_data, reading_pax_data, reading_gnu_long, one_zero_block,
  at_end, TarParser, Outcome,
}
use iluvatar.Tar.Pax.{Walk, walked, crashed, stuck}
use iluvatar.Tar.Parser.{
  feed_in, feed_tar, feed_skip, feed_pax, finish_pax, after_walk, feed_gnu_long, finish_gnu_long,
  store_long,
}
use iluvatar.Tar.Parser.Needed.{needed_in, needed}
use iluvatar.Tar.Parser.Invariant.{IsValid, PosIsValid}
use iluvatar.Tar.Parser.Accounting.{feed_tar-Advanced}
use iluvatar.Tar.Parser.Chunks.{
  Run, drained, calls, After, reports, asks, ends, fails, panics, Finish, any_size,
}

-- A call that the stream goes on from.
abbrev Continues : Event TarEntry → Type 0
Continues (entry e) = Unit {0}
Continues need_data = Unit {0}
Continues end_of_archive = ⊥

-- Where such a call stands at a header.
abbrev AtHeader : Outcome → Type 0
AtHeader (fed n ev q) = Continues ev → q.state ≡ reading_header
AtHeader (failed x q) = Unit {0}
AtHeader panicked = Unit {0}

after_walk-AtHeader : (n : ℕ) (w : Walk) → AtHeader (after_walk n w)
unfolding after_walk
after_walk-AtHeader n (walked p) = λ _. refl
after_walk-AtHeader n crashed = tt
after_walk-AtHeader n stuck = tt

store_long-state :
    (is_link : Bool) (name : Bytes) (p : TarParser)
    → (store_long is_link name p).state ≡ reading_header
unfolding store_long
store_long-state true name p = refl
store_long-state false name p = refl

-- A state that has no bytes to take gives way to a header.
feed_in-AtHeader :
    (st : ParserState) (x : ℕ) (xs : Bytes) (p : TarParser)
    → PosIsValid st p.header_pos
    → needed_in st p ≡ 0
    → AtHeader (feed_in st (x ∷ xs) p)
unfolding feed_in needed_in feed_skip feed_pax finish_pax feed_gnu_long finish_gnu_long
feed_in-AtHeader reading_header x xs p v h = absurd (omega arith)
feed_in-AtHeader (skipping_data r) x xs p v h =
    let none_left : (r - min (length (x ∷ xs)) r) ≡ 0 = omega arith in rw none_left (λ _. refl)
feed_in-AtHeader (reading_pax_data r size buf) x xs p v h =
    let none_left : (r - min (length (x ∷ xs)) r) ≡ 0 = omega arith in
    rw none_left (after_walk-AtHeader _ _)
feed_in-AtHeader (reading_gnu_long r size buf is_link) x xs p v h =
    let none_left : (r - min (length (x ∷ xs)) r) ≡ 0 = omega arith in
    rw none_left (λ _. store_long-state is_link _ _)
feed_in-AtHeader one_zero_block x xs p v h = absurd (omega arith)
feed_in-AtHeader at_end x xs p v h = λ on. absurd on

-- Some run of the parser over the stream.
abbrev pub Runs : TarParser → Bytes → Type 0
Runs p w = (es : List TarEntry) × (f : Finish) × Run any_size p w es f

-- A call on one byte, and a run behind it.
call :
    (x : ℕ) (ws : Bytes) (p : TarParser)
    → ((n : ℕ) (ev : Event TarEntry) (q : TarParser)
        → feed_tar (x ∷ []) p ≡ fed n ev q
        → Continues ev
        → Runs q (drop n (x ∷ ws)))
    → Runs p (x ∷ ws)
call x ws p rest = go (feed_tar (x ∷ []) p) refl
  where
    go : (r : Outcome) → feed_tar (x ∷ []) p ≡ r → Runs p (x ∷ ws)
    go (fed n (entry e) q) h =
        let (es, f, run) = rest n (entry e) q h tt in
        (
          e ∷ es,
          f,
          calls 0 x ws p
              (subst (λ r. After any_size r (x ∷ ws) (e ∷ es) f) (sym h) (reports n e q run)),
        )
    go (fed n need_data q) h =
        let (es, f, run) = rest n need_data q h tt in
        (es, f, calls 0 x ws p (subst (λ r. After any_size r (x ∷ ws) es f) (sym h) (asks n q run)))
    go (fed n end_of_archive q) h = (
      [],
      Finish.ended q,
      calls 0 x ws p
          (subst (λ r. After any_size r (x ∷ ws) [] (Finish.ended q)) (sym h) (ends n q)),
    )
    go (failed e q) h = (
      [],
      Finish.refused e q,
      calls 0 x ws p
          (subst (λ r. After any_size r (x ∷ ws) [] (Finish.refused e q)) (sym h) (fails e q)),
    )
    go panicked h = (
      [],
      Finish.crashed,
      calls 0 x ws p (subst (λ r. After any_size r (x ∷ ws) [] Finish.crashed) (sym h) panics),
    )

-- A call that takes the byte.
call_taking :
    (x : ℕ) (ws : Bytes) (p : TarParser)
    → IsValid p
    → 0 < needed p
    → ((q : TarParser) → IsValid q → Runs q ws)
    → Runs p (x ∷ ws)
call_taking x ws p v far rest = call x ws p behind
  where
    behind :
        (n : ℕ) (ev : Event TarEntry) (q : TarParser)
        → feed_tar (x ∷ []) p ≡ fed n ev q
        → Continues ev
        → Runs q (drop n (x ∷ ws))
    behind n ev q h on =
        let a = feed_tar-Advanced (x ∷ []) p q n ev v h in
        let one : n ≡ 1 = omega (arith, a.within) in
        subst (λ m. Runs q (drop m (x ∷ ws))) (sym one) (rest q a.valid)

-- A call that takes nothing, and one that takes the byte.
call_twice :
    (x : ℕ) (ws : Bytes) (p : TarParser)
    → IsValid p
    → needed p ≡ 0
    → ((q : TarParser) → IsValid q → Runs q ws)
    → Runs p (x ∷ ws)
call_twice x ws p v none_left rest = call x ws p behind
  where
    behind :
        (n : ℕ) (ev : Event TarEntry) (q : TarParser)
        → feed_tar (x ∷ []) p ≡ fed n ev q
        → Continues ev
        → Runs q (drop n (x ∷ ws))
    behind n ev q h on =
        let a = feed_tar-Advanced (x ∷ []) p q n ev v h in
        let nothing : n ≡ 0 = omega (arith, a.within) in
        let at_header : AtHeader (feed_tar (x ∷ []) p) =
          unfold feed_tar in feed_in-AtHeader p.state x [] p v.pos_ok none_left in
        let header : q.state ≡ reading_header = (subst AtHeader h at_header) on in
        subst (λ m. Runs q (drop m (x ∷ ws))) (sym nothing)
          (call_taking x ws q a.valid (far q header a.valid.pos_ok) rest)
      where
        far :
            (q : TarParser)
            → q.state ≡ reading_header
            → PosIsValid q.state q.header_pos
            → 0 < needed q
        far q e ok =
            let pos : PosIsValid reading_header q.header_pos =
              subst (λ st. PosIsValid st q.header_pos) e ok in
            subst (λ st. 0 < needed_in st q) (sym e) (unfold needed_in in omega (arith, pos))

-- From every valid state there is a run of the tar parser over every stream: calls on what is left
-- of it, one behind the other, come to its end, to the end of the archive, or to a call that fails.
pub feed_tar-Runs : (w : Bytes) (p : TarParser) → IsValid p → Runs p w
feed_tar-Runs [] p v = ([], Finish.ran_out p, drained p)
feed_tar-Runs (x ∷ ws) p v = elim (Bool-cases (ltb 0 (needed p))) [
  | inl far ↦ call_taking x ws p v (ltb→lt _ _ far) (λ q. feed_tar-Runs ws q)
  | inr near ↦ call_twice x ws p v (omega (arith, ltb→le _ _ near)) (λ q. feed_tar-Runs ws q)
]
