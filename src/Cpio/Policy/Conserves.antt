-- ===== src/Cpio/Policy/Conserves.antt =====
-- src/cpio/parser.rs, `apply_hardlink_policy`: what becomes of the members of a hard-link set.
use mathlib.Core.List.{append_assoc, map-append, Perm, perm_middle}
use mathlib.Core.List.Perm
use iluvatar.Common.{
  ℕ, ◌≡◌, refl, sym, ap, ◌∙◌, subst, not, ◌||◌, List, [], ◌∷◌, ◌++◌, map, Option, none, some, leb,
  ltb, Bytes, Bool-cases, inl, inr,
}
use iluvatar.Archive.{ArchiveEntry}
use iluvatar.Cpio.Links.{
  InodeKey, key_eq, key_lt, Deferred, push_deferred, deferred_at, without, flatten, as_link,
  as_links,
}
use iluvatar.Cpio.State.{CpioParser}
use iluvatar.Cpio.Policy.{is_regular, link_or_defer, canonical, apply_hardlink_policy}

-- What identifies a member of the archive: its path, and where its data stands.
abbrev pub Member : Type 0
Member = Bytes × ℕ

abbrev pub member : ArchiveEntry → Member
member e = (e.path, e.data_offset)

abbrev pub members : List ArchiveEntry → List Member
members = map member

abbrev pub listed : Option ArchiveEntry → List ArchiveEntry
listed none = []
listed (some e) = e ∷ []

-- The members that the parser keeps for a later report.
abbrev pub held : CpioParser → List Member
held p = members (p.pending ++ flatten p.deferred_links)

members-append : (xs ys : List ArchiveEntry) → members (xs ++ ys) ≡ members xs ++ members ys
members-append xs ys = map-append member xs ys

members-as_links :
    (target : Bytes) (es : List ArchiveEntry) → members (as_links target es) ≡ members es
unfolding as_links as_link
members-as_links target [] = refl
members-as_links target (e ∷ es) = ap (◌∷◌ (member e)) (members-as_links target es)

-- The members of an append, up to the order of the second part.
members_append_perm :
    (es xs : List ArchiveEntry) (l : List Member)
    → Perm (members xs) l
    → Perm (members (es ++ xs)) (members es ++ l)
members_append_perm es xs l h =
    subst (λ k. Perm k (members es ++ l)) (sym (members-append es xs))
      (Perm.append_left (members es) h)

-- One member among others, moved to the front.
member_front :
    (m : Member) (es xs : List ArchiveEntry)
    → Perm (members es ++ (m ∷ members xs)) (m ∷ members (es ++ xs))
member_front m es xs =
    subst (λ k. Perm (members es ++ (m ∷ members xs)) (m ∷ k)) (sym (members-append es xs))
      (perm_middle (members es) (members xs))

flatten-push_deferred :
    (key : InodeKey) (e : ArchiveEntry) (d : Deferred)
    → Perm (members (flatten (push_deferred key e d))) (member e ∷ members (flatten d))
unfolding flatten push_deferred
flatten-push_deferred key e [] = Perm.refl (member e ∷ [])
flatten-push_deferred key e ((k, es) ∷ rest) = elim (Bool-cases (key_eq key k)) [
  | inl same ↦ rw same (
      subst (λ l. Perm (members l) (member e ∷ members (es ++ flatten rest)))
        (sym (append_assoc es (e ∷ []) (flatten rest)))
        (Perm.trans
          (members_append_perm es (e ∷ flatten rest) _ (Perm.refl (members (e ∷ flatten rest))))
          (member_front (member e) es (flatten rest))))
  | inr other ↦ elim (Bool-cases (key_lt key k)) [
    | inl before ↦ rw (other, before) (Perm.refl (member e ∷ members (es ++ flatten rest)))
    | inr behind ↦
        rw (other, behind)
          (Perm.trans
            (members_append_perm es (flatten (push_deferred key e rest)) _
              (flatten-push_deferred key e rest))
            (member_front (member e) es (flatten rest)))
  ]
]

exchange : (a b c : List Member) → Perm (a ++ (b ++ c)) (b ++ (a ++ c))
exchange [] b c = Perm.refl (b ++ c)
exchange (x ∷ a) b c =
    Perm.trans (Perm.cons x (exchange a b c)) (Perm.symm (perm_middle b (a ++ c)))

flatten-without :
    (key : InodeKey) (d : Deferred)
    → Perm (members (deferred_at key d) ++ members (flatten (without key d))) (members (flatten d))
unfolding flatten deferred_at without
flatten-without key [] = Perm.refl []
flatten-without key ((k, es) ∷ rest) = elim (Bool-cases (key_eq key k)) [
  | inl same ↦ rw same (
      subst (λ l. Perm (members es ++ members (flatten rest)) l)
        (sym (members-append es (flatten rest))) (Perm.refl (members es ++ members (flatten rest))))
  | inr other ↦ rw other (
      Perm.trans
        (Perm.append_left (members (deferred_at key rest))
          (members_append_perm es (flatten (without key rest)) _ (Perm.refl _)))
        (Perm.trans
          (exchange (members (deferred_at key rest)) (members es)
            (members (flatten (without key rest))))
          (Perm.symm
            (members_append_perm es (flatten rest) _ (Perm.symm (flatten-without key rest))))))
]

canonical-held :
    (e : ArchiveEntry) (inode : InodeKey) (p : CpioParser)
    → Perm (held (canonical e inode p)) (held p)
unfolding canonical
canonical-held e inode p =
    let links = as_links e.path (deferred_at inode p.deferred_links) in
    let rest = flatten (without inode p.deferred_links) in
    subst (λ l. Perm (members l) (held p)) (sym (append_assoc p.pending links rest))
      (Perm.trans
        (members_append_perm p.pending (links ++ rest) _ (
          subst (λ l. Perm l (members (flatten p.deferred_links)))
            (sym (
              members-append links rest
              ∙ ap (λ l. l ++ members rest)
                  (members-as_links e.path (deferred_at inode p.deferred_links))))
            (flatten-without inode p.deferred_links)))
        (Perm.symm (members_append_perm p.pending (flatten p.deferred_links) _ (Perm.refl _))))

link_or_defer-perm :
    (o : Option Bytes) (e : ArchiveEntry) (inode : InodeKey) (p : CpioParser)
    → Perm
        (members (listed (link_or_defer o e inode p).0) ++ held (link_or_defer o e inode p).1)
        (member e ∷ held p)
unfolding link_or_defer as_link
link_or_defer-perm (some path) e inode p = Perm.refl (member e ∷ held p)
link_or_defer-perm none e inode p =
    Perm.trans
      (members_append_perm p.pending (flatten (push_deferred inode e p.deferred_links)) _
        (flatten-push_deferred inode e p.deferred_links))
      (member_front (member e) p.pending (flatten p.deferred_links))

-- No member of a hard-link set is lost, and none is made up: those reported and those held after a
-- call of the policy are, in some order, the member it is called with and those held before.
pub apply_hardlink_policy-perm :
    (e : ArchiveEntry) (inode : InodeKey) (nlink : ℕ) (p : CpioParser)
    → Perm
        (members (listed (apply_hardlink_policy e inode nlink p).0)
          ++ held (apply_hardlink_policy e inode nlink p).1)
        (member e ∷ held p)
unfolding apply_hardlink_policy
apply_hardlink_policy-perm e inode nlink p =
    elim (Bool-cases (not (is_regular e.entry_type) || leb nlink 1)) [
      | inl alone ↦ rw alone (Perm.refl (member e ∷ held p))
      | inr linked ↦ elim (Bool-cases (ltb 0 e.size)) [
        | inl full ↦ rw (linked, full) (Perm.cons (member e) (canonical-held e inode p))
        | inr empty ↦ rw (linked, empty) (link_or_defer-perm (p.resolved_inodes inode) e inode p)
      ]
    ]
