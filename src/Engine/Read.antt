-- ===== src/Engine/Read.antt =====
-- src/engine/state_machine.rs, `ReadEngine`: a stream reader aimed at an entry's data. Its other
-- methods are those of the reader.
pub mod Entry
use iluvatar.Common.{
  ℕ, ◌+◌, ◌-◌, ◌^◌, Bool, true, false, Option, none, some, min, ltb, Bytes, if◌then◌else◌,
}
use iluvatar.Common.Sizes.{add_u64, saturating_add_u64, u64_mod}
use iluvatar.Errors.{Error, Result, ok, err}
use iluvatar.Index.Store.{IndexEntry, ArchiveIndex, get}
use iluvatar.Stream.Reader.{StreamReader}
use iluvatar.Stream.Reader

-- Whether an entry reaches past the end of a stream of known length.
unfoldable pub reaches_past : Option ℕ → IndexEntry → Bool
reaches_past none e = false
reaches_past (some total) e = ltb total (saturating_add_u64 e.uncompressed_offset e.size)

module _ {D S : Type 0} where
  -- `require_full_range`
  abbrev pub require_full_range : StreamReader D S → StreamReader D S
  require_full_range p = record p { require_full = true }

  -- `?` on the reader, which may panic.
  unfoldable pub required : Option (Result (StreamReader D S)) → Option (Result (StreamReader D S))
  required none = none
  required (some (err e)) = some (err e)
  required (some (ok p)) = some (ok (require_full_range p))

module _ {D F C S : Type 0} (create : C → Result D) (index : ArchiveIndex F C S) where
  -- `for_entry_range`
  unfoldable pub for_entry_range :
      IndexEntry → (file_offset len : ℕ) → Option (Result (StreamReader D S))
  for_entry_range e file_offset len =
      let start = min file_offset e.size in
      if reaches_past index.stream.unpacked_len e
      then some (err Error.truncated_input)
      else required (
          Reader.new create index.stream (add_u64 e.uncompressed_offset start)
            (min len (e.size - start)))

  -- `for_entry`
  abbrev pub for_entry : IndexEntry → Option (Result (StreamReader D S))
  for_entry e = for_entry_range e 0 (u64_mod - 1)

  unfoldable pub range_of :
      Option IndexEntry → Bytes → (file_offset len : ℕ) → Option (Result (StreamReader D S))
  range_of none path file_offset len = some (err (Error.file_not_found path))
  range_of (some e) path file_offset len = for_entry_range e file_offset len

  -- `ReadEngine::new_range`
  unfoldable pub new_range : Bytes → (file_offset len : ℕ) → Option (Result (StreamReader D S))
  new_range path file_offset len = range_of (get index path) path file_offset len

  -- `ReadEngine::new`
  abbrev pub new : Bytes → Option (Result (StreamReader D S))
  new path = new_range path 0 (u64_mod - 1)
