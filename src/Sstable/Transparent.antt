-- ===== src/Sstable/Transparent.antt =====
-- sstable/sstable.go: getCachedBlock, which reads what the file holds and caches nothing else.
use seol.Base.{ℕ, ◌<◌, ◌≡◌, sym, ap, ◌∙◌, refl, arith, List, []}
use seol.Base.{length, get_or, Option-cases, inl, inr}
use seol.Base.Result.{ok}
use seol.Sstable.{sstable_block_size}
use seol.Sstable.Blocks.{Entry, block_of}
use seol.Sstable.Cache.{cache_get, cache_add}
use seol.Sstable.CacheAnswers.{cache_get-cache_add}
use seol.Sstable.Gets.{Represents, get_cached_block-hit, get_cached_block-miss}
use seol.Sstable.Index.{DataRange, no_range}
use seol.Sstable.Table.{Table, get_cached_block}

-- No two blocks have an offset in common.
abbrev pub AreApart : List DataRange → Type 0
AreApart ranges =
    (i j : ℕ)
    → i < length ranges
    → j < length ranges
    → (get_or ranges i no_range).offset ≡ (get_or ranges j no_range).offset
    → i ≡ j

module _ (stale : List ℕ) (buffer : length stale ≡ sstable_block_size) where
  -- The table with the block in its cache.
  added-Represents :
      (t : Table) (bs : List (List Entry)) (i : ℕ)
      → Represents t bs
      → AreApart t.ranges
      → i < length bs
      → Represents
          (record t {
            block_cache =
                cache_add t.block_cache
                  (get_or t.ranges i no_range).offset
                  (block_of (get_or bs i []));
          })
          bs
  added-Represents t bs i v apart h = record {
    is_opened = v.is_opened;
    counts = v.counts;
    sorted = v.sorted;
    holds = v.holds;
    cached = λ j b k e.
        elim (cache_get-cache_add t.block_cache (get_or t.ranges i no_range).offset
          (get_or t.ranges j no_range).offset (block_of (get_or bs i [])) b e) [
            | inr before ↦ v.cached j b k before
            | inl (same, added) ↦
                sym added
                ∙ ap (λ n. block_of (get_or bs n []))
                    (apart i j (omega (arith, h, v.counts)) (omega (arith, k, v.counts)) same)
          ];
  }

  -- The cache is transparent: with or without a hit, and whatever the pooled buffer of a block's
  -- size held, a block of a table that represents sorted blocks is the block that its file holds,
  -- and the table with the cache as the read leaves it represents the same blocks again, so that
  -- this holds for every sequence of reads. No two ranges of the index overlap.
  pub get_cached_block-Represents :
      (t : Table) (bs : List (List Entry)) (i : ℕ)
      → Represents t bs
      → AreApart t.ranges
      → i < length bs
      → let (block, after) = get_cached_block t (get_or t.ranges i no_range) stale in
        (block ≡ ok (block_of (get_or bs i []))) × Represents after bs
  get_cached_block-Represents t bs i v apart h =
      let ra = get_or t.ranges i no_range in
      elim (Option-cases (cache_get t.block_cache ra.offset)) [
        | inr (b, e) ↦ rw (get_cached_block-hit stale buffer t ra b e) (ap ok (v.cached i b h e), v)
        | inl e ↦
            rw
              (get_cached_block-miss stale buffer t ra (get_or bs i []) v.is_opened (v.holds i h) e)
              (refl, added-Represents t bs i v apart h)
      ]
