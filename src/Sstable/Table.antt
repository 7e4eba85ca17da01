-- ===== src/Sstable/Table.antt =====
-- sstable/sstable.go: an open table, point lookups, scans and metadata. The file is a list of bytes,
-- and a call that reads a block returns the table with its cache. `stale` is what the pooled buffer of
-- the call holds before the read.
pub mod Iterator
pub mod Writing
pub mod Layout
pub mod Written
pub mod Flushed
use seol.Base.{
  ℕ, zero, suc, ◌+◌, ◌-◌, ◌%◌, ◌^◌, ◌/◌, ◌*◌, Bool, true, false, not, ◌&&◌, ◌||◌, Option, none,
  some, List, [], ◌∷◌, ◌++◌,
}
use seol.Base.{ltb, leb, ◌==◌, if◌then◌else◌, length, take, drop, get_or, replicate}
use seol.Base.Result.{
  Error, Result, ok, err, ◌>>=◌, ◌>>◌, require, io_error, truncated_header, invalid_magic,
  unsupported_version, invalid_bit_count, invalid_index_offset,
}
use seol.Base.Bytes.{put_uint, get_uint}
use seol.Base.Files.{read_at}
use seol.Bloom.{Filter, contains}
use seol.Bloom.Codec.{read_filter, header_size, magic, version}
use seol.Sstable.{
  sstable_block_size, CachedDataBlock, new_cached_data_block, entry_at, block_lookup,
}
use seol.Sstable.Index.{DataRange, no_range, encode_full_range, decode_full_range, find_data_range}
use seol.Sstable.Cache.{
  Shard, cache_get, cache_add, cache_clear, new_data_block_cache, block_cache_entry_limit,
}

abbrev pub sstable_magic : ℕ
sstable_magic = 0xFF12FF45

abbrev pub sstable_version : ℕ
sstable_version = 2

abbrev pub sstable_footer_size : ℕ
sstable_footer_size = 8 + 4 + 1

-- The path is left out: no operation depends on it. An empty `smallest` or `largest` is nil.
pub record Table : Type 0 where
  pub ranges : List DataRange
  pub filter : Option Filter
  pub file : List ℕ
  pub is_open : Bool
  pub block_cache : Option (List Shard)
  pub smallest : List ℕ
  pub largest : List ℕ
  pub size_bytes : ℕ

-- A pooled buffer is not cleared, and a buffer of its own is all zeros.
unfoldable pub get_data_block : ℕ → List ℕ → List ℕ
get_data_block size stale =
    if ltb sstable_block_size size then replicate size 0 else take size stale

-- `ReadAt`, of which io.EOF is no error here: what the file lacks stays as it was.
unfoldable pub read_raw : List ℕ → ℕ → List ℕ → List ℕ
read_raw file offset raw =
    let found = take (length raw) (drop offset file) in found ++ drop (length found) raw

unfoldable pub get_cached_block : Table → DataRange → List ℕ → Result CachedDataBlock × Table
unfolding get_data_block read_raw
get_cached_block t ra stale = elim (cache_get t.block_cache ra.offset) [
  | some block ↦ (ok block, t)
  | none ↦
      let raw = read_raw t.file ra.offset (get_data_block ra.size stale) in
      if not t.is_open || not (ltb ra.offset (2 ^ 63))
      then (err io_error, t)
      else elim (new_cached_data_block raw) [
        | err e ↦ (err e, t)
        | ok block ↦ (ok block, record t { block_cache = cache_add t.block_cache ra.offset block })
      ]
]

-- `append([]byte(nil), value...)`: the copy of an empty value is nil.
unfoldable pub copy_value : Option (List ℕ) → Option (List ℕ)
copy_value none = none
copy_value (some []) = none
copy_value (some (b ∷ bs)) = some (b ∷ bs)

unfoldable pub copy_found :
    Result CachedDataBlock × Table → List ℕ → Result (Option (List ℕ)) × Table
unfolding copy_value
copy_found (ok block, t) key = (ok (copy_value (block_lookup block key)), t)
copy_found (err e, t) key = (err e, t)

unfoldable pub get_range :
    Table → List ℕ → List ℕ → Option DataRange → Result (Option (List ℕ)) × Table
unfolding copy_found
get_range t key stale none = (ok none, t)
get_range t key stale (some ra) = copy_found (get_cached_block t ra stale) key

unfoldable pub may_contain : (List ℕ → ℕ → ℕ) → Option Filter → List ℕ → Bool
may_contain hash_seed none key = true
may_contain hash_seed (some f) key = contains hash_seed f key

unfoldable pub table_get :
    (List ℕ → ℕ → ℕ) → Table → List ℕ → List ℕ → Result (Option (List ℕ)) × Table
unfolding get_range may_contain
table_get hash_seed t key stale =
    if not (may_contain hash_seed t.filter key)
    then (ok none, t)
    else get_range t key stale (find_data_range t.ranges key)

-- `Scan`, with a callback that changes a state or fails; `count` entries from `i` on.
module _ {ℓ} {S : Type ℓ} (fn : List ℕ → List ℕ → S → Result S) where
  unfoldable pub scan_block : CachedDataBlock → ℕ → ℕ → S → Result S
  scan_block block zero i s = ok s
  scan_block block (suc count) i s =
      let (key, value) = entry_at block i in
      do s' ← fn key value s; scan_block block count (suc i) s'

  unfoldable pub scan_ranges : List DataRange → List ℕ → Table → S → Result S × Table
  unfolding scan_block
  scan_ranges [] stale t s = (ok s, t)
  scan_ranges (ra ∷ ranges) stale t s =
      let (loaded, t') = get_cached_block t ra stale in
      elim loaded [
        | err e ↦ (err e, t')
        | ok block ↦ elim (scan_block block (length block.entry_offsets) 0 s) [
          | err e ↦ (err e, t')
          | ok s' ↦ scan_ranges ranges stale t' s'
        ]
      ]

  unfoldable pub table_scan : List ℕ → Table → S → Result S × Table
  unfolding scan_ranges
  table_scan stale t s = scan_ranges t.ranges stale t s

unfoldable pub table_close : Table → Table
table_close t = record t { block_cache = cache_clear t.block_cache; is_open = false }

unfoldable pub load_metadata : Table → List ℕ → Result (Unit {0}) × Table
load_metadata t stale =
    let sized = record t { size_bytes = length t.file } in
    if length t.ranges == 0
    then (ok tt, record sized { smallest = []; largest = [] })
    else (let first = record sized { smallest = (get_or t.ranges 0 no_range).first_key } in
        let (loaded, t') =
          get_cached_block first (get_or t.ranges (length t.ranges - 1) no_range) stale in
        elim loaded [
          | err e ↦ (err e, t')
          | ok block ↦
              if length block.entry_offsets == 0 then (ok tt, record t' { largest = [] }) else (
                ok tt,
                record t' { largest = (entry_at block (length block.entry_offsets - 1)).0 },
              )
        ])

unfoldable pub write_index_and_footer : List DataRange → ℕ → List ℕ
write_index_and_footer ranges index_offset =
    encode_full_range ranges
    ++ (put_uint 8 index_offset ++ (put_uint 4 sstable_magic ++ (sstable_version ∷ [])))

unfoldable pub load_bloom_filter : List ℕ → Result (Filter × ℕ)
load_bloom_filter file = do
  require (not (ltb (length file) sstable_footer_size)) truncated_header
  bloom_header ← read_at file 0 header_size
  require (get_uint 4 bloom_header == magic) invalid_magic
  require (get_or bloom_header 4 0 == version) unsupported_version
  let bloom_bits = get_uint 8 (drop 5 bloom_header)
  require (not (bloom_bits == 0 || not (bloom_bits % 64 == 0))) invalid_bit_count
  let bloom_size = header_size + bloom_bits / 64 * 8
  require (not (ltb (length file) (bloom_size + sstable_footer_size))) truncated_header
  bloom_data ← read_at file 0 bloom_size
  filter ← read_filter bloom_data
  ok (filter, bloom_size)

-- The index stands between the blocks and the footer, so that the read never meets the end.
unfoldable pub read_index_data : List ℕ → ℕ → Result (List ℕ)
read_index_data file bloom_size = do
  let footer_offset = length file - sstable_footer_size
  footer ← read_at file footer_offset sstable_footer_size
  require (get_uint 4 (drop 8 footer) == sstable_magic) invalid_magic
  require (get_or footer 12 0 == sstable_version) unsupported_version
  let index_offset = get_uint 8 footer
  require (not (ltb index_offset bloom_size || ltb footer_offset index_offset)) invalid_index_offset
  (if footer_offset - index_offset == 0
      then ok []
      else read_at file index_offset (footer_offset - index_offset))

unfoldable pub opened : Result (Unit {0}) × Table → Result Table
opened (ok u, t) = ok t
opened (err e, t) = err e

-- `Open`, once the file is open.
unfoldable pub open_table : List ℕ → List ℕ → Result Table
unfolding opened load_metadata
open_table file stale = do
  (filter, bloom_size) ← load_bloom_filter file
  index_data ← read_index_data file bloom_size
  ranges ← decode_full_range index_data
  opened (
      load_metadata
        (record {
          ranges = ranges;
          filter = some filter;
          file = file;
          is_open = true;
          block_cache = new_data_block_cache block_cache_entry_limit;
          smallest = [];
          largest = [];
          size_bytes = 0;
        })
        stale)
