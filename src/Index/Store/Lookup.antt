-- ===== src/Index/Store/Lookup.antt =====
-- src/index/store.rs, `get` and `list`: lookups by path, against searches of the list of entries.
use iluvatar.Common.{
  ℕ, suc, ◌+◌, ◌≡◌, refl, sym, ap, subst, length-append, ◌∙◌, arith, Bool, true, false, List, [],
  ◌∷◌, ◌++◌, Option, none, some, length, get_elem?, bytes_eq, Bytes, if◌then◌else◌, Bool-cases, inl,
  inr, ◌⊎◌,
}
use iluvatar.Common.Search.{starts_with}
use iluvatar.Stream.Index.{StreamIndex}
use iluvatar.Index.Store.{
  IndexEntry, IndexMetadata, insert_path, collect_paths, or_else, other_spelling, below, new,
  entry_at, get,
}
use mathlib.Core.Option
use mathlib.Core.List.{append-nil}

-- The last entry with a path.
abbrev pub find_last : Bytes → List IndexEntry → Option IndexEntry
find_last path [] = none
find_last path (e ∷ es) =
    or_else (find_last path es) (if bytes_eq e.path path then some e else none)

abbrev last_position : Bytes → List IndexEntry → Option ℕ
last_position path [] = none
last_position path (e ∷ es) =
    or_else (Option.map suc (last_position path es)) (if bytes_eq e.path path then some 0 else none)

or_else_assoc {ℓ} :
    {A : Type ℓ} (a b c : Option A) → or_else (or_else a b) c ≡ or_else a (or_else b c)
unfolding or_else
or_else_assoc none b c = refl
or_else_assoc (some a) b c = refl

-- The map holds the last position of each path, and what it held before for the others.
collect_paths-last_position :
    (es : List IndexEntry) (i : ℕ) (m : Bytes → Option ℕ) (path : Bytes)
    → collect_paths i es m path ≡ or_else (Option.map (λ j. i + j) (last_position path es)) (m path)
unfolding collect_paths
collect_paths-last_position [] i m path = unfold or_else in refl
collect_paths-last_position (e ∷ es) i m path =
    collect_paths-last_position es (suc i) (insert_path e.path i m) path
    ∙ step (last_position path es) (bytes_eq e.path path) refl
  where
    step :
        (o : Option ℕ) (b : Bool)
        → bytes_eq e.path path ≡ b
        → or_else (Option.map (λ j. suc i + j) o) (insert_path e.path i m path)
          ≡ or_else
              (Option.map (λ j. i + j) (or_else (Option.map suc o) (if b then some 0 else none)))
              (m path)
    step none true h = unfold or_else insert_path in rw h (ap some (omega arith))
    step none false h = unfold or_else insert_path in rw h
    step (some j) b h = unfold or_else in ap some (omega arith)

-- The position of the last entry with a path, beside that entry.
record Found (path : Bytes) (es : List IndexEntry) : Type 0 where
  at : ℕ
  hit : IndexEntry
  at_eq : last_position path es ≡ some at
  hit_eq : find_last path es ≡ some hit
  elem_eq : get_elem? es at ≡ some hit

Found-cases :
    (es : List IndexEntry) (path : Bytes)
    → ((last_position path es ≡ none) × (find_last path es ≡ none)) ⊎ Found path es
unfolding or_else
Found-cases [] path = inl (refl, refl)
Found-cases (e ∷ es) path = elim (Found-cases es path) [
  | inr f ↦ inr (record {
    at = suc f.at;
    hit = f.hit;
    at_eq = rw f.at_eq;
    hit_eq = rw f.hit_eq;
    elem_eq = f.elem_eq;
  })
  | inl (no_at, no_hit) ↦ elim (Bool-cases (bytes_eq e.path path)) [
    | inl same ↦ inr (record {
      at = 0;
      hit = e;
      at_eq = rw (no_at, same);
      hit_eq = rw (no_hit, same);
      elem_eq = refl;
    })
    | inr differs ↦ inl (rw (no_at, differs), rw (no_hit, differs))
  ]
]

module _ {F C S : Type 0} (meta : IndexMetadata F) (stream : StreamIndex C S)
    (es : List IndexEntry) where
  plus_zero : (o : Option ℕ) → or_else (Option.map (λ j. 0 + j) o) none ≡ o
  unfolding or_else
  plus_zero none = refl
  plus_zero (some i) = ap some (omega arith)

  by_path-new : (path : Bytes) → (new meta stream es).by_path path ≡ last_position path es
  unfolding new
  by_path-new path =
      collect_paths-last_position es 0 (λ _. none) path ∙ plus_zero (last_position path es)

  -- The position that `get` looks at holds the entry that a search from the end finds.
  entry_at-last_position :
      (path other : Bytes)
      → entry_at (new meta stream es) (or_else (last_position path es) (last_position other es))
        ≡ or_else (find_last path es) (find_last other es)
  unfolding entry_at or_else new
  entry_at-last_position path other = elim (Found-cases es path) [
    | inr f ↦ rw (f.at_eq, f.hit_eq) f.elem_eq
    | inl (no_at, no_hit) ↦
        rw (no_at, no_hit)
          (elim (Found-cases es other) [
            | inr g ↦ rw (g.at_eq, g.hit_eq) g.elem_eq
            | inl (still_no_at, still_no_hit) ↦ rw (still_no_at, still_no_hit)
          ])
  ]

  -- `get` finds the last entry with the path, or else the last with the path's other spelling: a
  -- slash added at the end, or the slashes at the end taken off.
  pub get-find_last :
      (path : Bytes)
      → get (new meta stream es) path
        ≡ or_else (find_last path es) (find_last (other_spelling path) es)
  unfolding get
  get-find_last path =
      (λ i.
        entry_at (new meta stream es)
          (or_else (by_path-new path i) (by_path-new (other_spelling path) i)))
      ∙ entry_at-last_position path (other_spelling path)

starts_with-split :
    (prefix path : Bytes)
    → starts_with prefix path ≡ true
    → (rest : Bytes) × (path ≡ prefix ++ rest)
unfolding starts_with
starts_with-split [] path h = (path, refl)
starts_with-split (c ∷ cs) [] h = absurd (cc)
starts_with-split (c ∷ cs) (x ∷ xs) h =
    let (rest, e) = starts_with-split cs xs (ground arith) in (rest, ground (arith, e))

starts_with-append : (prefix rest : Bytes) → starts_with prefix (prefix ++ rest) ≡ true
unfolding starts_with
starts_with-append [] rest = refl
starts_with-append (c ∷ cs) rest = ground (arith, starts_with-append cs rest)

get_elem?-append : (xs ys : Bytes) → get_elem? (xs ++ ys) (length xs) ≡ get_elem? ys 0
get_elem?-append [] ys = refl
get_elem?-append (x ∷ xs) ys = get_elem?-append xs ys

-- What a path below a prefix is.
abbrev pub IsBelow : Bytes → Bytes → Type 0
IsBelow prefix path = (path ≡ prefix) ⊎ ((rest : Bytes) × (path ≡ prefix ++ (b'/' ∷ rest)))

below-append :
    (prefix rest : Bytes) → below prefix (prefix ++ rest) ≡ true → IsBelow prefix (prefix ++ rest)
unfolding below
below-append prefix [] h = inl (append-nil prefix)
below-append prefix (c ∷ rest) h = inr (
  rest,
  ap (λ d. prefix ++ (d ∷ rest))
      (ground (arith, get_elem?-append prefix (c ∷ rest), length-append prefix (c ∷ rest))),
)

-- What `below` accepts is the prefix itself or a path of the form `<prefix>/…`.
pub below-IsBelow : (prefix path : Bytes) → below prefix path ≡ true → IsBelow prefix path
below-IsBelow prefix path h =
    let (rest, e) = starts_with-split prefix path (unfold below in ground arith) in
    subst (IsBelow prefix) (sym e)
      (below-append prefix rest (subst (λ p. below prefix p ≡ true) e h))

-- `below` accepts the prefix itself and every path of the form `<prefix>/…`.
pub IsBelow-below : (prefix path : Bytes) → IsBelow prefix path → below prefix path ≡ true
unfolding below
IsBelow-below prefix path (inl e) =
    rw e (ground (arith, starts_with-append prefix [], append-nil prefix))
IsBelow-below prefix path (inr (rest, e)) = rw e (
    ground (
      arith,
      starts_with-append prefix (b'/' ∷ rest),
      get_elem?-append prefix (b'/' ∷ rest),
      length-append prefix (b'/' ∷ rest),
    ))
