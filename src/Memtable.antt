-- ===== src/Memtable.antt =====
-- skiplist/skiplist.go, as the database, the compaction and the collection use it: New, Put, Get,
-- Empty, and what an iterator walks over.
pub mod SortedList
use seol.Base.{ℕ, ◌*◌, ◌^◌, Bool, true, false, ◌≡◌, sym, ap, ◌∙◌, Option, none, some, List, [], ◌∷◌}
use seol.Base.{if◌then◌else◌, ltb}
use seol.Base.Order.{bytes_equal}
use seol.Sstable.Blocks.{Entry}
use seol.Sstable.BlockLookup.{Sorted, find}

-- db.go: the sizes of the arenas of memtables.
abbrev pub min_memtable_arena_size : ℕ
min_memtable_arena_size = 2 ^ 20

-- The size is an int64, and its double is below 2^63.
unfoldable pub memtable_arena_size : ℕ → ℕ
memtable_arena_size max_bytes =
    if ltb (max_bytes * 2) min_memtable_arena_size then min_memtable_arena_size else max_bytes * 2

-- `new` takes the size of the arena. `entries` is what NewIterator, SeekToFirst and Next give.
pub record Memtable (M : Type 0) : Type 0 where
  pub new : ℕ → M
  pub put : M → List ℕ → List ℕ → M
  pub get : M → List ℕ → Option (List ℕ)
  pub entries : M → List Entry

-- A map from keys to values, of which a new one is empty.
pub record IsLawful {M : Type 0} (mem : Memtable M) : Type 0 where
  pub get-new :
      (max_bytes : ℕ) (key : List ℕ) → mem.get (mem.new (memtable_arena_size max_bytes)) key ≡ none
  pub get-put :
      (m : M) (key value other : List ℕ)
      → mem.get (mem.put m key value) other
        ≡ (if bytes_equal key other then some value else mem.get m other)

module _ {M : Type 0} (mem : Memtable M) where
  -- `Empty`
  unfoldable pub is_empty : M → Bool
  is_empty m = elim (mem.entries m) [ [] ↦ true | e ∷ es ↦ false ]
