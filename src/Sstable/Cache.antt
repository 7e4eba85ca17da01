-- ===== src/Sstable/Cache.antt =====
-- sstable/sstable.go: dataBlockCache. Its shards' mutexes make each operation atomic.
use seol.Base.{ℕ, ◌+◌, ◌-◌, ◌/◌, ◌%◌, not, Option, none, some, List, [], ◌∷◌, ◌++◌}
use seol.Base.{ltb, ◌==◌, if◌then◌else◌, length, get_or, set, replicate, map}
use seol.Base.Files.{lookup, insert}
use seol.Sstable.{CachedDataBlock}

abbrev pub block_cache_shard_count : ℕ
block_cache_shard_count = 16

abbrev pub block_cache_entry_limit : ℕ
block_cache_entry_limit = 256

-- The map is an association list; its keys are distinct.
pub record Shard : Type 0 where
  pub blocks : List (ℕ × CachedDataBlock)
  pub order : List ℕ
  pub max_entries : ℕ

abbrev pub no_shard : Shard
no_shard = record { blocks = []; order = []; max_entries = 0 }

-- `none` is the nil cache.
unfoldable pub new_data_block_cache : ℕ → Option (List Shard)
new_data_block_cache max_entries =
    let shard_count =
      if ltb max_entries block_cache_shard_count then max_entries else block_cache_shard_count in
    let per_shard = (max_entries + shard_count - 1) / shard_count in
    if ltb max_entries 1
    then none
    else some (replicate shard_count (record { blocks = []; order = []; max_entries = per_shard }))

-- A shard count is never 0.
abbrev pub shard_index : List Shard → ℕ → ℕ
shard_index shards offset = offset % length shards

unfoldable pub delete : {V : Type 0} → ℕ → List (ℕ × V) → List (ℕ × V)
delete k [] = []
delete k ((j, v) ∷ m) = if j == k then delete k m else (j, v) ∷ delete k m

unfoldable pub evict_loop :
    List (ℕ × CachedDataBlock) → List ℕ → List (ℕ × CachedDataBlock) × List ℕ
unfolding delete
evict_loop blocks [] = (blocks, [])
evict_loop blocks (oldest ∷ order) = elim (lookup oldest blocks) [
  | some b ↦ (delete oldest blocks, order)
  | none ↦ evict_loop blocks order
]

unfoldable pub evict_oldest_locked : Shard → Shard
unfolding evict_loop
evict_oldest_locked s =
    let (blocks, order) = evict_loop s.blocks s.order in record s { blocks = blocks; order = order }

unfoldable pub shard_add : Shard → ℕ → CachedDataBlock → Shard
unfolding evict_oldest_locked
shard_add s offset block = elim (lookup offset s.blocks) [
  | some b ↦ record s { blocks = insert offset block s.blocks }
  | none ↦
      let s' = if not (ltb (length s.blocks) s.max_entries) then evict_oldest_locked s else s in
      record s' { blocks = insert offset block s'.blocks; order = s'.order ++ (offset ∷ []) }
]

unfoldable pub cache_get : Option (List Shard) → ℕ → Option CachedDataBlock
cache_get none offset = none
cache_get (some shards) offset =
    lookup offset (get_or shards (shard_index shards offset) no_shard).blocks

unfoldable pub cache_add : Option (List Shard) → ℕ → CachedDataBlock → Option (List Shard)
unfolding shard_add
cache_add none offset block = none
cache_add (some shards) offset block =
    let i = shard_index shards offset in
    some (set shards i (shard_add (get_or shards i no_shard) offset block))

unfoldable pub cache_clear : Option (List Shard) → Option (List Shard)
cache_clear none = none
cache_clear (some shards) =
    some (map {A = Shard} (λ s. record s { blocks = []; order = [] }) shards)
