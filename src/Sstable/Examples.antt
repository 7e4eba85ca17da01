-- ===== src/Sstable/Examples.antt =====
-- sstable/sstable.go: a table of one block of two entries.
use seol.Base.{
  ℕ, zero, suc, ◌++◌, ◌<◌, ◌^◌, true, false, ◌≡◌, refl, arith, none, some, List, [], ◌∷◌, ◌⊎◌,
  length, get_or, replicate, All, length-replicate,
}
use seol.Base.Result.{ok}
use seol.Base.Order.{bytes_compare}
use seol.Base.Files.{lookup, insert}
use seol.Sstable.{CachedDataBlock, sstable_block_size, block_lookup, new_cached_data_block}
use seol.Sstable.Blocks.{Entry, EntryFits, encode_entries, block_of, build_block, parse-build}
use seol.Sstable.BlockLookup.{Sorted, find, block_lookup-find}
use seol.Sstable.Index.{DataRange, no_range, encode_full_range, decode_full_range}
use seol.Sstable.Ranges.{decode_full_range-encode_full_range}
use seol.Sstable.Cache.{Shard, cache_get, cache_add, shard_add}
use seol.Sstable.Caching.{IsBounded, shard_add-IsBounded}
use seol.Sstable.CacheAnswers.{cache_get-cache_add}
use seol.Sstable.Table.{Table, table_get, get_cached_block, copy_value, may_contain}
use seol.Bloom.{Filter, add}
use seol.Sstable.{append_block_entry}
use seol.Sstable.Table.Writing.{
  Writer, flush_block, begin_range, write_entry, write_entries, write_data_blocks,
}
use seol.Sstable.Table.Written.{Complete, write_data_blocks-Complete}
use seol.Sstable.Table.Flushed.{table_of, table_get-write_data_blocks}
use seol.Sstable.Lookups.{concat}
use seol.Sstable.Gets.{Holds, Represents, table_get-find}
use seol.Sstable.Transparent.{AreApart, get_cached_block-Represents}

abbrev two_entries : List Entry
two_entries = (1 ∷ [], 9 ∷ []) ∷ (2 ∷ [], 8 ∷ 8 ∷ []) ∷ []

two_entries-fit : All EntryFits two_entries
two_entries-fit = ((omega arith, omega arith), ((omega arith, omega arith), tt))

two_entries-Sorted : Sorted two_entries
unfolding bytes_compare
two_entries-Sorted = ((refl, tt), (tt, tt))

parse-build_example : new_cached_data_block (build_block [] two_entries) ≡ ok (block_of two_entries)
parse-build_example = parse-build two_entries two_entries-fit

two_entries-short : length (encode_entries two_entries) < 2 ^ 32
unfolding encode_entries
two_entries-short = omega arith

block_lookup-find_example : block_lookup (block_of two_entries) (2 ∷ []) ≡ find two_entries (2 ∷ [])
block_lookup-find_example =
    block_lookup-find two_entries two_entries-fit two_entries-Sorted two_entries-short (2 ∷ [])

-- The block begins at the third byte of the file.
abbrev only_range : DataRange
only_range = record { first_key = 1 ∷ []; offset = 2; size = 17 }

abbrev some_shard : Shard
some_shard = record { blocks = []; order = []; max_entries = 1 }

abbrev small_table : Table
small_table = record {
  ranges = only_range ∷ [];
  filter = none;
  file = 0 ∷ 0 ∷ encode_entries two_entries;
  is_open = true;
  block_cache = some (some_shard ∷ []);
  smallest = 1 ∷ [];
  largest = 2 ∷ [];
  size_bytes = 19;
}

small_table-Holds : Holds small_table.file only_range two_entries
unfolding encode_entries
small_table-Holds = record {
  some_entry = omega arith;
  first = refl;
  in_file = refl;
  size = refl;
  fits = two_entries-fit;
  is_sorted = two_entries-Sorted;
  offset_small = omega arith;
  size_small = omega arith;
}

only_block :
    (i : ℕ)
    → i < 1
    → Holds small_table.file (get_or (only_range ∷ []) i no_range) (get_or (two_entries ∷ []) i [])
only_block zero h = small_table-Holds
only_block (suc i) h = absurd (omega arith)

nothing_cached :
    (i : ℕ) (b : CachedDataBlock)
    → i < 1
    → cache_get (some (some_shard ∷ [])) (get_or (only_range ∷ []) i no_range).offset ≡ some b
    → b ≡ block_of (get_or (two_entries ∷ []) i [])
unfolding cache_get lookup
nothing_cached zero b h e = absurd (cc e)
nothing_cached (suc i) b h e = absurd (omega arith)

small_table-Represents : Represents small_table (two_entries ∷ [])
small_table-Represents = record {
  is_opened = refl;
  counts = refl;
  sorted = two_entries-Sorted;
  holds = only_block;
  cached = nothing_cached;
}

abbrev stale_byte : ℕ
stale_byte = 3

abbrev stale_buffer : List ℕ
stale_buffer = replicate sstable_block_size stale_byte

small_table-AreApart : AreApart small_table.ranges
small_table-AreApart zero zero h k e = refl
small_table-AreApart (suc i) j h k e = absurd (omega arith)
small_table-AreApart zero (suc j) h k e = absurd (omega arith)

get_cached_block-Represents_example :
    let (block, after) = get_cached_block small_table only_range stale_buffer in
    (block ≡ ok (block_of two_entries)) × Represents after (two_entries ∷ [])
get_cached_block-Represents_example =
    get_cached_block-Represents stale_buffer (length-replicate sstable_block_size stale_byte)
      small_table (two_entries ∷ []) 0 small_table-Represents small_table-AreApart (omega arith)

abbrev any_hash : List ℕ → ℕ → ℕ
any_hash b seed = seed

lets_all_through :
    may_contain any_hash none (2 ∷ []) ≡ false → find (concat (two_entries ∷ [])) (2 ∷ []) ≡ none
unfolding may_contain
lets_all_through e = absurd (cc e)

table_get-find_example :
    (table_get any_hash small_table (2 ∷ []) stale_buffer).0
    ≡ ok (copy_value (find (concat (two_entries ∷ [])) (2 ∷ [])))
table_get-find_example =
    table_get-find any_hash small_table (two_entries ∷ []) (2 ∷ []) stale_buffer
      small_table-Represents (length-replicate sstable_block_size stale_byte) lets_all_through

decode_full_range-encode_full_range_example :
    decode_full_range (encode_full_range (only_range ∷ only_range ∷ []))
    ≡ ok (only_range ∷ only_range ∷ [])
decode_full_range-encode_full_range_example =
    decode_full_range-encode_full_range (only_range ∷ only_range ∷ [])
      ((omega arith, omega arith, omega arith), ((omega arith, omega arith, omega arith), tt))

nothing_held : (k : ℕ) (b : CachedDataBlock) → lookup k [] ≡ some b → false ≡ true
unfolding lookup
nothing_held k b e = absurd (cc e)

some_shard-IsBounded : IsBounded some_shard
some_shard-IsBounded = record {
  some_room = omega arith;
  within = omega arith;
  evictable = nothing_held;
}

-- The second block takes the place of the first.
shard_add-IsBounded_example :
    IsBounded (shard_add (shard_add some_shard 2 (block_of two_entries)) 5 (block_of []))
shard_add-IsBounded_example =
    shard_add-IsBounded (shard_add some_shard 2 (block_of two_entries)) 5 (block_of [])
      (shard_add-IsBounded some_shard 2 (block_of two_entries) some_shard-IsBounded)

the_block_added :
    cache_get (cache_add (some (some_shard ∷ [])) 2 (block_of two_entries)) 2
    ≡ some (block_of two_entries)
unfolding cache_get cache_add shard_add lookup insert
the_block_added = refl

cache_get-cache_add_example :
    ((only_range.offset ≡ only_range.offset) × (block_of two_entries ≡ block_of two_entries))
    ⊎ (cache_get (some (some_shard ∷ [])) 2 ≡ some (block_of two_entries))
cache_get-cache_add_example =
    cache_get-cache_add (some (some_shard ∷ [])) 2 2 (block_of two_entries) (block_of two_entries)
      the_block_added

abbrev one_word : Filter
one_word = record { words = 0 ∷ []; num_bits = 64; num_hashes = 2; seed = 7 }

-- The writer after both entries, whose block begins behind 33 bytes of the filter.
abbrev done : Writer
done = record {
  block = [];
  current_range = no_range;
  offset = 50;
  ranges = record { first_key = 1 ∷ []; offset = 33; size = 17 } ∷ [];
  written = encode_entries two_entries;
  filter = (add any_hash (add any_hash one_word (1 ∷ [])).0 (2 ∷ [])).0;
}

two_written : write_data_blocks any_hash one_word 33 two_entries ≡ ok done
unfolding write_data_blocks write_entries write_entry flush_block begin_range append_block_entry
    encode_entries
two_written = refl

write_data_blocks-Complete_example : Complete any_hash 33 two_entries done
write_data_blocks-Complete_example =
    write_data_blocks-Complete any_hash 33 one_word two_entries done
      (unfold encode_entries in omega arith) two_written

abbrev filter_bytes : List ℕ
filter_bytes = replicate 33 stale_byte

done-short : length (filter_bytes ++ (done.written ++ (7 ∷ []))) < 2 ^ 63
unfolding encode_entries
done-short = omega arith

no_filter : may_contain any_hash none (2 ∷ []) ≡ false → find two_entries (2 ∷ []) ≡ none
unfolding may_contain
no_filter e = absurd (cc e)

table_get-write_data_blocks_example :
    (table_get any_hash (table_of done none filter_bytes (7 ∷ [])) (2 ∷ []) stale_buffer).0
    ≡ ok (copy_value (find two_entries (2 ∷ [])))
table_get-write_data_blocks_example =
    table_get-write_data_blocks any_hash one_word none two_entries done filter_bytes (7 ∷ [])
      (2 ∷ []) stale_buffer two_written two_entries-Sorted done-short
      (unfold encode_entries in omega arith) (length-replicate sstable_block_size stale_byte)
      no_filter
