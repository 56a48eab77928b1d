-- ===== src/Tar/Parser/Chunks.antt =====
-- src/tar/parser.rs, `feed_tar`: whole streams, fed in chunks of any sizes.
use iluvatar.Common.{
  ℕ, zero, suc, ◌+◌, ◌≡◌, refl, sym, subst, ap, ◌∙◌, arith, List, [], ◌∷◌, take, drop, Bytes,
  Bool-cases, ltb, ltb→lt, ltb→le, inl, inr,
}
use iluvatar.Errors.{Error}
use iluvatar.Archive.{entry, need_data, end_of_archive, fed, failed, panicked, advance, and_then}
use iluvatar.Tar.Entry.{TarEntry}
use iluvatar.Tar.State.{TarParser, Outcome}
use iluvatar.Tar.Parser.{feed_tar}
use iluvatar.Tar.Parser.Needed.{needed}
use iluvatar.Tar.Parser.Split.{feed_tar-append, feed_tar_partial, feed_tar-append_past}

-- How a run ends: at the end of the stream, at the end of the archive, or at a call that fails.
pub data Finish : Type 0 where
  ran_out : TarParser → Finish
  ended : TarParser → Finish
  refused : Error → TarParser → Finish
  crashed : Finish

-- The runs of a parser over a stream, with the entries that they report. Each call is offered some
-- first bytes of what is left of the stream, at least one: `suc (cut k)` of them, for some `k`.
mutual
  pub data Run (cut : ℕ → ℕ) : TarParser → Bytes → List TarEntry → Finish → Type 0 where
    drained : (p : TarParser) → Run cut p [] [] (ran_out p)
    calls :
        {es : List TarEntry} {f : Finish} (k x : ℕ) (ws : Bytes) (p : TarParser)
        → After cut (feed_tar (x ∷ take (cut k) ws) p) (x ∷ ws) es f
        → Run cut p (x ∷ ws) es f

  pub data After (cut : ℕ → ℕ) : Outcome → Bytes → List TarEntry → Finish → Type 0 where
    reports :
        {w : Bytes} {es : List TarEntry} {f : Finish} (n : ℕ) (e : TarEntry) (q : TarParser)
        → Run cut q (drop n w) es f
        → After cut (fed n (entry e) q) w (e ∷ es) f
    asks :
        {w : Bytes} {es : List TarEntry} {f : Finish} (n : ℕ) (q : TarParser)
        → Run cut q (drop n w) es f
        → After cut (fed n need_data q) w es f
    ends : {w : Bytes} (n : ℕ) (q : TarParser) → After cut (fed n end_of_archive q) w [] (ended q)
    fails : {w : Bytes} (x : Error) (q : TarParser) → After cut (failed x q) w [] (refused x q)
    panics : {w : Bytes} → After cut panicked w [] crashed

-- Any sizes.
abbrev pub any_size : ℕ → ℕ
any_size k = k

-- One byte at a time.
abbrev pub one_byte : ℕ → ℕ
one_byte k = 0

drop_past : (n x : ℕ) (ws : Bytes) → drop (1 + n) (x ∷ ws) ≡ drop n ws
drop_past n x ws = ap (λ m. drop m (x ∷ ws)) one_more
  where
    one_more : 1 + n ≡ suc n
    one_more = omega arith

-- What follows a call on one byte and more follows a call on those behind the first.
After-advance :
    {cut : ℕ → ℕ} {es : List TarEntry} {f : Finish} (x : ℕ) (ws : Bytes) (r : Outcome)
    → After cut (advance 1 r) (x ∷ ws) es f
    → After cut r ws es f
After-advance {cut = cut} {f = f} x ws (fed n (entry e) q) (reports {es = es} _ _ _ run) =
    reports n e q (subst (λ w. Run cut q w es f) (drop_past n x ws) run)
After-advance {cut = cut} {es = es} {f = f} x ws (fed n need_data q) (asks _ _ run) =
    asks n q (subst (λ w. Run cut q w es f) (drop_past n x ws) run)
After-advance x ws (fed n end_of_archive q) (ends _ _) = ends n q
After-advance x ws (failed e q) (fails _ _) = fails e q
After-advance x ws panicked panics = panics

-- A call on more than a byte is a call on its first byte, and what the run over the rest makes of
-- the others.
one_byte_first :
    {es : List TarEntry} {f : Finish} (k x : ℕ) (ws : Bytes) (p : TarParser)
    → After one_byte (feed_tar (x ∷ take k ws) p) (x ∷ ws) es f
    → Run one_byte p (x ∷ ws) es f
one_byte_first zero x ws p a = calls 0 x ws p a
one_byte_first (suc k) x [] p a = calls 0 x [] p a
one_byte_first {es = es} {f = f} (suc k) x (y ∷ ys) p a = elim (Bool-cases (ltb 1 (needed p))) [
  | inl more ↦
      let far = ltb→lt _ _ more in
      let (q, first, _) = feed_tar_partial x [] p far in
      let split : feed_tar (x ∷ y ∷ take k ys) p ≡ advance 1 (feed_tar (y ∷ take k ys) q) =
        feed_tar-append (x ∷ []) (y ∷ take k ys) p far
        ∙ ap (λ r. and_then r (feed_tar (y ∷ take k ys))) first in
      let rest =
        one_byte_first k y ys q
          (After-advance x (y ∷ ys) _ (subst (λ r. After one_byte r (x ∷ y ∷ ys) es f) split a)) in
      calls 0 x (y ∷ ys) p
        (subst (λ r. After one_byte r (x ∷ y ∷ ys) es f) (sym first) (asks 1 q rest))
  | inr near ↦ calls 0 x (y ∷ ys) p (
      subst (λ r. After one_byte r (x ∷ y ∷ ys) es f)
        (feed_tar-append_past x [] (y ∷ take k ys) p (ltb→le _ _ near)) a)
]

mutual
  -- Every run, whatever the sizes of its chunks, is a run of one byte at a time.
  pub Run-one_byte :
      {p : TarParser} {w : Bytes} {es : List TarEntry} {f : Finish}
      → Run any_size p w es f
      → Run one_byte p w es f
  Run-one_byte (drained p) = drained p
  Run-one_byte (calls k x ws p a) = one_byte_first k x ws p (After-one_byte a)

  After-one_byte :
      {r : Outcome} {w : Bytes} {es : List TarEntry} {f : Finish}
      → After any_size r w es f
      → After one_byte r w es f
  After-one_byte (reports n e q run) = reports n e q (Run-one_byte run)
  After-one_byte (asks n q run) = asks n q (Run-one_byte run)
  After-one_byte (ends n q) = ends n q
  After-one_byte (fails x q) = fails x q
  After-one_byte panics = panics

-- The same entries and the same end.
abbrev pub Agree : List TarEntry → Finish → List TarEntry → Finish → Type 0
Agree es f es' f' = (es ≡ es') × (f ≡ f')

mutual
  one_byte-Agree :
      {p : TarParser} {w : Bytes} {es es' : List TarEntry} {f f' : Finish}
      → Run one_byte p w es f
      → Run one_byte p w es' f'
      → Agree es f es' f'
  one_byte-Agree (drained p) (drained _) = (refl, refl)
  one_byte-Agree (calls k x ws p a) (calls _ _ _ _ b) = After-Agree a b

  After-Agree :
      {r : Outcome} {w : Bytes} {es es' : List TarEntry} {f f' : Finish}
      → After one_byte r w es f
      → After one_byte r w es' f'
      → Agree es f es' f'
  After-Agree (reports n e q run) (reports _ _ _ run') =
      let (same, same_end) = one_byte-Agree run run' in (ap (◌∷◌ e) same, same_end)
  After-Agree (asks n q run) (asks _ _ run') = one_byte-Agree run run'
  After-Agree (ends n q) (ends _ _) = (refl, refl)
  After-Agree (fails x q) (fails _ _) = (refl, refl)
  After-Agree panics panics = (refl, refl)

-- The sizes of the chunks do not matter: two runs of the tar parser over the same stream, from the
-- same state, report the same entries in the same order, and end the same way, with the same parser.
pub Run-Agree :
    {p : TarParser} {w : Bytes} {es es' : List TarEntry} {f f' : Finish}
    → Run any_size p w es f
    → Run any_size p w es' f'
    → Agree es f es' f'
Run-Agree run run' = one_byte-Agree (Run-one_byte run) (Run-one_byte run')
