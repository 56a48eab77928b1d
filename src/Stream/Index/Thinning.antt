-- ===== src/Stream/Index/Thinning.antt =====
-- src/stream/index.rs, `thin`: which checkpoints stay.
use iluvatar.Common.{
  ℕ, suc, ◌+◌, ◌-◌, ◌≤◌, ap, ◌<◌, ◌%◌, ◌/◌, ◌≡◌, refl, sym, ◌∙◌, arith, ◌||◌, List, [], ◌∷◌, some,
  length, get_elem?, true, false, take, ◌==◌, Bool-cases, inl, inr, if◌then◌else◌,
}
use iluvatar.Errors.{ok}
use iluvatar.Stream.Index.{
  Checkpoint, StreamIndex, last, retain_from, thin_checkpoints, thin, validate,
}
use iluvatar.Stream.Index.Best.{Ascends, IsValid, validate-IsValid, IsValid-validate}

module _ {S : Type 0} where
  Ascends-lower :
      (low low' : ℕ) (cs : List (Checkpoint S)) → low ≤ low' → Ascends low' cs → Ascends low cs
  Ascends-lower low low' [] h a = tt
  Ascends-lower low low' (c ∷ cs) h (le, a) = (omega arith, a)

  retain_from-Ascends :
      (n i low : ℕ) (cs : List (Checkpoint S)) → Ascends low cs → Ascends low (retain_from n i cs)
  unfolding retain_from
  retain_from-Ascends n i low [] a = tt
  retain_from-Ascends n i low (c ∷ cs) (le, a) = elim (Bool-cases (i % 2 == 0 || i == n - 1)) [
    | inl keep ↦ rw keep (le, retain_from-Ascends n (suc i) c.uncompressed_offset cs a)
    | inr drop ↦ rw drop (
        Ascends-lower low c.uncompressed_offset (retain_from n (suc i) cs) le
          (retain_from-Ascends n (suc i) c.uncompressed_offset cs a))
  ]

  thin_checkpoints-IsValid :
      (cs : List (Checkpoint S)) → IsValid cs → IsValid (thin_checkpoints cs).0
  unfolding thin_checkpoints
  thin_checkpoints-IsValid [] h = h
  thin_checkpoints-IsValid (c ∷ []) h = h
  thin_checkpoints-IsValid (c ∷ d ∷ []) (z, h) = (z, tt)
  thin_checkpoints-IsValid (c ∷ d ∷ e ∷ cs) (z, h) =
      unfold retain_from in
      (z, retain_from-Ascends (length (c ∷ d ∷ e ∷ cs)) 1 c.uncompressed_offset (d ∷ e ∷ cs) h)

  last-cons :
      (c x : Checkpoint S) (cs : List (Checkpoint S)) → last cs ≡ some x → last (c ∷ cs) ≡ some x
  unfolding last
  last-cons c x [] h = absurd (cc)
  last-cons c x (d ∷ cs) h = h

  last-some :
      (c : Checkpoint S) (cs : List (Checkpoint S)) → (x : Checkpoint S) × (last (c ∷ cs) ≡ some x)
  unfolding last
  last-some c [] = (c, refl)
  last-some c (d ∷ cs) = last-some d cs

  -- The last of the list is kept, where the list ends at index `n - 1`.
  last-retain_from :
      (n i : ℕ) (c : Checkpoint S) (cs : List (Checkpoint S))
      → n ≡ i + length (c ∷ cs)
      → last (retain_from n i (c ∷ cs)) ≡ last (c ∷ cs)
  unfolding retain_from
  last-retain_from n i c [] h = elim (Bool-cases (i % 2 == 0 || i == n - 1)) [
    | inl keep ↦ rw keep
    | inr drop ↦ absurd (ground arith)
  ]
  last-retain_from n i c (d ∷ cs) h =
      let (x, e) = last-some d cs in
      let rest = last-retain_from n (suc i) d cs (omega arith) ∙ e in
      elim (Bool-cases (i % 2 == 0 || i == n - 1)) [
        | inl keep ↦ rw keep (last-cons c x _ rest ∙ sym (last-cons c x (d ∷ cs) e))
        | inr drop ↦ rw drop (rest ∙ sym (last-cons c x (d ∷ cs) e))
      ]

  -- Every other one is kept, and the last.
  length-retain_from :
      (n i : ℕ) (c : Checkpoint S) (cs : List (Checkpoint S))
      → n ≡ i + length (c ∷ cs)
      → length (retain_from n i (c ∷ cs)) + (i + 1) / 2 ≡ n / 2 + 1
  unfolding retain_from
  length-retain_from n i c [] h = ground arith
  length-retain_from n i c (d ∷ cs) h =
      step (retain_from n (suc i) (d ∷ cs)) (length-retain_from n (suc i) d cs (omega arith))
    where
      step :
          (rest : List (Checkpoint S))
          → length rest + (suc i + 1) / 2 ≡ n / 2 + 1
          → length (if i % 2 == 0 || i == n - 1 then c ∷ rest else rest) + (i + 1) / 2 ≡ n / 2 + 1
      step rest e = ground arith

  -- Every other checkpoint, and the last.
  abbrev pub halved : List (Checkpoint S) → List (Checkpoint S)
  halved [] = []
  halved (c ∷ []) = c ∷ []
  halved (c ∷ d ∷ []) = c ∷ d ∷ []
  halved (c ∷ d ∷ e ∷ cs) = c ∷ halved (e ∷ cs)

  -- From an even index on, where the list ends at index `n - 1`.
  retain_from-halved :
      (n i : ℕ) (cs : List (Checkpoint S))
      → i % 2 ≡ 0
      → n ≡ i + length cs
      → retain_from n i cs ≡ halved cs
  unfolding retain_from
  retain_from-halved n i [] even h = refl
  retain_from-halved n i (c ∷ []) even h = ground arith
  retain_from-halved n i (c ∷ d ∷ []) even h = ground arith
  retain_from-halved n i (c ∷ d ∷ e ∷ cs) even h =
      let rest = retain_from-halved n (suc (suc i)) (e ∷ cs) (omega arith) (omega arith) in
      let first : (i % 2 == 0 || i == n - 1) ≡ true = ground arith in
      let second : (suc i % 2 == 0 || suc i == n - 1) ≡ false = ground arith in
      rw (first, second) (ap (◌∷◌ c) rest)

  -- What thinning does to a table of checkpoints, which `kept` determines.
  pub record Thinned (before after : List (Checkpoint S)) : Type 0 where
    pub valid : IsValid after
    pub size : length after ≡ (if length before == 2 then 1 else length before / 2 + 1)
    pub smaller : length after < length before
    pub kept : after ≡ (if length before == 2 then take 1 before else halved before)
    pub keeps_first : get_elem? after 0 ≡ get_elem? before 0
    pub keeps_last : last after ≡ (if length before == 2 then get_elem? before 0 else last before)

  thin_checkpoints-Thinned :
      (cs : List (Checkpoint S)) → IsValid cs → 2 ≤ length cs → Thinned cs (thin_checkpoints cs).0
  thin_checkpoints-Thinned [] h two = absurd (omega arith)
  thin_checkpoints-Thinned (c ∷ []) h two = absurd (omega arith)
  thin_checkpoints-Thinned (c ∷ d ∷ []) h two = record {
    valid = thin_checkpoints-IsValid (c ∷ d ∷ []) h;
    size = unfold thin_checkpoints in refl;
    smaller = unfold thin_checkpoints in omega arith;
    kept = unfold thin_checkpoints in refl;
    keeps_first = unfold thin_checkpoints in refl;
    keeps_last = unfold thin_checkpoints last in refl;
  }
  thin_checkpoints-Thinned (c ∷ d ∷ e ∷ cs) h two =
      let n = length (c ∷ d ∷ e ∷ cs) in
      let len = length-retain_from n 0 c (d ∷ e ∷ cs) (omega arith) in
      record {
        valid = thin_checkpoints-IsValid (c ∷ d ∷ e ∷ cs) h;
        size = unfold thin_checkpoints in ground (arith, len);
        smaller = unfold thin_checkpoints in omega (arith, len);
        kept =
            unfold thin_checkpoints in
            ground (arith, retain_from-halved n 0 (c ∷ d ∷ e ∷ cs) (omega arith) (omega arith));
        keeps_first = unfold thin_checkpoints retain_from in refl;
        keeps_last =
            unfold thin_checkpoints in
            ground (arith, last-retain_from n 0 c (d ∷ e ∷ cs) (omega arith));
      }

module _ {C S : Type 0} where
  -- Thinning an index that validates, of two checkpoints at least: the index still validates. Of two
  -- checkpoints the first is left. Of `n`, three or more, every other one is left from the first on,
  -- in order, and the last: `n / 2 + 1` of them, always fewer than before.
  pub thin-Thinned :
      (s : StreamIndex C S)
      → validate s ≡ ok tt
      → 2 ≤ length s.checkpoints
      → Thinned s.checkpoints (thin s).0.checkpoints × (validate (thin s).0 ≡ ok tt)
  unfolding validate thin
  thin-Thinned s h two =
      let t = thin_checkpoints-Thinned s.checkpoints (validate-IsValid s.checkpoints h) two in
      (t, IsValid-validate _ t.valid)
