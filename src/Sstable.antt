-- ===== src/Sstable.antt =====
-- sstable/sstable.go: the data blocks. A block is a run of entries: the key's length in two bytes,
-- the value's in four, the key and the value.
pub mod Blocks
pub mod BlockLookup
pub mod Index
pub mod Ranges
pub mod Cache
pub mod Caching
pub mod CacheAnswers
pub mod Table
pub mod Lookups
pub mod Gets
pub mod Transparent
mod Examples
use seol.Base.{
  ℕ, zero, suc, ◌+◌, ◌-◌, ◌*◌, ◌%◌, ◌^◌, Bool, true, false, not, ◌&&◌, ◌||◌, Option, none, some,
  List, [], ◌∷◌, ◌++◌,
}
use seol.Base.{ltb, leb, ◌==◌, if◌then◌else◌, length, take, drop, get_or, slice}
use seol.Base.Result.{
  Error, Result, ok, err, ◌>>=◌, ◌>>◌, require, truncated_header, truncated_body, out_of_fuel,
}
use seol.Base.Bytes.{put_uint, get_uint}
use seol.Base.Order.{bytes_equal, bytes_lt}
use seol.Base.Search.{search}

abbrev pub sstable_block_size : ℕ
sstable_block_size = 4 * 1024

abbrev pub entry_meta_size : ℕ
entry_meta_size = 2 + 4

-- `appendBlockEntry`. The lengths are cut to 16 and 32 bits by `put_uint`.
unfoldable pub append_block_entry : List ℕ → List ℕ → List ℕ → List ℕ
append_block_entry block key value =
    block ++ (put_uint 2 (length key) ++ (put_uint 4 (length value) ++ (key ++ value)))

pub record CachedDataBlock : Type 0 where
  pub bytes : List ℕ
  pub entry_offsets : List ℕ

-- The loop of `newCachedDataBlock`, which answers the offsets from `ptr` on.
unfoldable pub entry_offsets_loop : ℕ → List ℕ → ℕ → Result (List ℕ)
entry_offsets_loop zero bytes ptr = err out_of_fuel
entry_offsets_loop (suc fuel) bytes ptr =
    let klen = get_uint 2 (drop ptr bytes) in
    let vlen = get_uint 4 (drop (ptr + 2) bytes) in
    let body = ptr + entry_meta_size in
    let next = entry_offsets_loop fuel bytes (body + (klen + vlen)) in
    if not (ltb ptr (length bytes))
    then ok []
    else if ltb (length bytes - ptr) entry_meta_size
    then err truncated_header
    else if ltb (length bytes) (body + klen + vlen)
    then err truncated_body
    else (next >>= λ offsets. ok (ptr % 2 ^ 32 ∷ offsets))

-- Each round passes an entry's header at least.
unfoldable pub new_cached_data_block : List ℕ → Result CachedDataBlock
unfolding entry_offsets_loop
new_cached_data_block raw = entry_offsets_loop (suc (length raw)) raw 0 >>= λ offsets.
    ok (record { bytes = raw; entry_offsets = offsets })

-- The entry at an offset; the slices are inside the block for the offsets of a parsed block.
unfoldable pub entry_from : List ℕ → ℕ → List ℕ × List ℕ
entry_from bytes ptr =
    let klen = get_uint 2 (drop ptr bytes) in
    let vlen = get_uint 4 (drop (ptr + 2) bytes) in
    let body = ptr + entry_meta_size in
    (slice bytes body (body + klen), slice bytes (body + klen) (body + klen + vlen))

-- The index is in bounds where the program calls it.
unfoldable pub entry_at : CachedDataBlock → ℕ → List ℕ × List ℕ
entry_at b i = entry_from b.bytes (get_or b.entry_offsets i 0)

-- `none` is nil; a value that is present is never nil here, even if it is empty.
unfoldable pub block_lookup : CachedDataBlock → List ℕ → Option (List ℕ)
block_lookup b key =
    let idx = search (λ i. not (bytes_lt (entry_at b i).0 key)) (length b.entry_offsets) in
    if idx == length b.entry_offsets
    then none
    else if not (bytes_equal (entry_at b idx).0 key)
    then none
    else some (entry_at b idx).1
