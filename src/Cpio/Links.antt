-- ===== src/Cpio/Links.antt =====
-- src/cpio/parser.rs: the keys of hard-link sets, and the two maps over them. The hash map of data
-- members is the function that it stands for; the ordered map of deferred members is a list of its
-- keys and values, in the order of the keys.
use iluvatar.Common.{
  ℕ, Bool, ◌&&◌, ◌||◌, List, [], ◌∷◌, ◌++◌, Option, some, ltb, ◌==◌, Bytes, if◌then◌else◌,
}
use iluvatar.Archive.{ArchiveEntry, EntryType}
use iluvatar.Cpio.Header.{CpioHeader}

-- `InodeKey`
pub record InodeKey : Type 0 where
  pub devmajor : ℕ
  pub devminor : ℕ
  pub ino : ℕ

-- `inode_key`
unfoldable pub inode_key : CpioHeader → InodeKey
inode_key hdr = record { devmajor = hdr.devmajor; devminor = hdr.devminor; ino = hdr.ino }

unfoldable pub key_eq : InodeKey → InodeKey → Bool
key_eq a b = a.devmajor == b.devmajor && a.devminor == b.devminor && a.ino == b.ino

-- The order of tuples.
unfoldable pub key_lt : InodeKey → InodeKey → Bool
key_lt a b =
    ltb a.devmajor b.devmajor
    || a.devmajor == b.devmajor
      && (ltb a.devminor b.devminor || a.devminor == b.devminor && ltb a.ino b.ino)

-- `HashMap<InodeKey, String>`
abbrev pub Resolved : Type 0
Resolved = InodeKey → Option Bytes

unfoldable pub resolve : InodeKey → Bytes → Resolved → Resolved
resolve key path m other = if key_eq key other then some path else m other

-- `BTreeMap<InodeKey, Vec<ArchiveEntry>>`
abbrev pub Deferred : Type 0
Deferred = List (InodeKey × List ArchiveEntry)

-- `entry(key).or_default().push(e)`
unfoldable pub push_deferred : InodeKey → ArchiveEntry → Deferred → Deferred
push_deferred key e [] = (key, e ∷ []) ∷ []
push_deferred key e ((k, es) ∷ rest) =
    let later = (k, es) ∷ push_deferred key e rest in
    if key_eq key k
    then (k, es ++ (e ∷ [])) ∷ rest
    else if key_lt key k
    then (key, e ∷ []) ∷ (k, es) ∷ rest
    else later

-- `remove(&key)`: the value, if there is one, and the map without it.
unfoldable pub deferred_at : InodeKey → Deferred → List ArchiveEntry
deferred_at key [] = []
deferred_at key ((k, es) ∷ rest) = if key_eq key k then es else deferred_at key rest

unfoldable pub without : InodeKey → Deferred → Deferred
without key [] = []
without key ((k, es) ∷ rest) =
    let later = (k, es) ∷ without key rest in if key_eq key k then rest else later

-- `into_values().flatten()`
unfoldable pub flatten : Deferred → List ArchiveEntry
flatten [] = []
flatten ((k, es) ∷ rest) = es ++ flatten rest

-- An entry made a hard link to `target`.
unfoldable pub as_link : Bytes → ArchiveEntry → ArchiveEntry
as_link target e = record e { entry_type = EntryType.hard_link; link_target = some target }

-- The loop over the deferred members of a set.
unfoldable pub as_links : Bytes → List ArchiveEntry → List ArchiveEntry
as_links target [] = []
as_links target (e ∷ es) = as_link target e ∷ as_links target es
