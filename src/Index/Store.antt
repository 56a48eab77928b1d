-- ===== src/Index/Store.antt =====
-- src/index/entry.rs and src/index/store.rs: the entries of an archive, found by path.
-- The hash map from paths to positions is the function that it stands for: the last position
-- inserted for a path.
pub mod Lookup
use iluvatar.Common.{
  ℕ, zero, suc, ◌+◌, Bool, true, false, ◌&&◌, ◌||◌, List, [], ◌∷◌, ◌++◌, map, Option, none, some,
  length, get_elem?, bytes_eq, ◌==◌, Bytes, if◌then◌else◌,
}
use iluvatar.Common.Search.{trim_end, starts_with}
use iluvatar.Archive.{ArchiveFormat, EntryType, tar}
use iluvatar.Stream.Index.{StreamIndex}

-- `IndexEntry`
pub record IndexEntry : Type 0 where
  pub path : Bytes
  pub size : ℕ
  pub entry_type : EntryType
  pub mode : ℕ
  pub uid : ℕ
  pub gid : ℕ
  pub mtime : ℕ
  pub link_target : Option Bytes
  pub uncompressed_offset : ℕ
  pub checkpoint_index : ℕ

abbrev pub index_version : ℕ
index_version = 6

-- `IndexMetadata`, over the type of compression formats.
pub record IndexMetadata (F : Type 0) : Type 0 where
  pub version : ℕ
  pub compression : F
  pub archive_format : ArchiveFormat
  pub archive_size : ℕ
  pub uncompressed_size : ℕ
  pub complete : Bool

-- `ArchiveIndex`
pub record ArchiveIndex (F C S : Type 0) : Type 0 where
  pub metadata : IndexMetadata F
  pub stream : StreamIndex C S
  pub entries : List IndexEntry
  pub by_path : Bytes → Option ℕ

-- `.enumerate().map(|(i, e)| (e.path.clone(), i)).collect()`: each insertion replaces.
unfoldable pub insert_path : Bytes → ℕ → (Bytes → Option ℕ) → Bytes → Option ℕ
insert_path path i m key = if bytes_eq path key then some i else m key

unfoldable pub collect_paths : ℕ → List IndexEntry → (Bytes → Option ℕ) → Bytes → Option ℕ
collect_paths i [] m = m
collect_paths i (e ∷ es) m = collect_paths (suc i) es (insert_path e.path i m)

-- `path.ends_with('/')`
unfoldable pub ends_with_slash : Bytes → Bool
ends_with_slash [] = false
ends_with_slash (c ∷ []) = c == b'/'
ends_with_slash (c ∷ d ∷ cs) = ends_with_slash (d ∷ cs)

-- `or_else`
unfoldable pub or_else {ℓ} : {A : Type ℓ} → Option A → Option A → Option A
or_else none other = other
or_else (some a) other = some a

-- The spelling of a path that is tried second.
unfoldable pub other_spelling : Bytes → Bytes
other_spelling path = if ends_with_slash path then trim_end b'/' path else path ++ (b'/' ∷ [])

-- The member `prefix` itself, or a path below it.
unfoldable pub below : Bytes → Bytes → Bool
below prefix path =
    starts_with prefix path
    && (length path == length prefix
        || (elim (get_elem? path (length prefix)) [ none ↦ false | some c ↦ c == b'/' ]))

unfoldable pub filter_by {ℓ} : {A : Type ℓ} → (A → Bool) → List A → List A
filter_by p [] = []
filter_by p (x ∷ xs) = if p x then x ∷ filter_by p xs else filter_by p xs

module _ {F C S : Type 0} where
  -- `ArchiveIndex::new`
  unfoldable pub new : IndexMetadata F → StreamIndex C S → List IndexEntry → ArchiveIndex F C S
  new metadata stream entries = record {
    metadata = metadata;
    stream = stream;
    entries = entries;
    by_path = collect_paths 0 entries (λ _. none);
  }

  -- The entry at a position; the slice access panics out of range.
  unfoldable pub entry_at : ArchiveIndex F C S → Option ℕ → Option IndexEntry
  entry_at index none = none
  entry_at index (some i) = get_elem? index.entries i

  -- `get`
  unfoldable pub get : ArchiveIndex F C S → Bytes → Option IndexEntry
  get index path =
      entry_at index (or_else (index.by_path path) (index.by_path (other_spelling path)))

  -- `get_all`
  unfoldable pub get_all : ArchiveIndex F C S → Bytes → List IndexEntry
  get_all index path = elim (get index path) [
    | none ↦ []
    | some found ↦ filter_by (λ e. bytes_eq e.path found.path) index.entries
  ]

  -- `list`
  unfoldable pub list : ArchiveIndex F C S → Option Bytes → List IndexEntry
  list index none = index.entries
  list index (some prefix) = filter_by (λ e. below (trim_end b'/' prefix) e.path) index.entries
