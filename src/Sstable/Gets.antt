-- ===== src/Sstable/Gets.antt =====
-- sstable/sstable.go: Get on a table whose file holds sorted blocks.
use native.Mathlib.Decide.{dec_lt}
use mathlib.Core.Path.{subst}
use seol.Base.{
  ℕ, zero, suc, ◌+◌, ◌-◌, ◌^◌, ◌<◌, true, false, ◌≡◌, refl, sym, ap, ◌∙◌, arith, none, some, List,
  [], ◌∷◌, ◌++◌, append-nil,
}
use seol.Base.{
  lt→ltb, le→ltb, ◌==◌, if◌then◌else◌, length, take, drop, get_or, All, drop_all, drop_at,
  get_or-drop, length-take, length-replicate, length-drop, Option-cases, Bool-cases, inl, inr,
}
use seol.Base.Result.{Result, ok, err}
use seol.Base.Order.{bytes_lt}
use seol.Base.Search.{search, Found, search_lem}
use seol.Sstable.{CachedDataBlock, sstable_block_size, block_lookup}
use seol.Sstable.Blocks.{Entry, EntryFits, no_entry, encode_entries, block_of, parse-encode}
use seol.Sstable.BlockLookup.{Sorted, find, block_lookup-find}
use seol.Sstable.Index.{DataRange, no_range, find_data_range}
use seol.Sstable.Cache.{cache_get, cache_add}
use seol.Sstable.Table.{
  Table, get_data_block, read_raw, get_cached_block, copy_value, copy_found, get_range, may_contain,
  table_get,
}
use seol.Sstable.Lookups.{concat, find-drop_blocks, find_first_block, Sorted-drop_blocks}

-- The file holds the block where the range says.
pub record Holds (file : List ℕ) (ra : DataRange) (es : List Entry) : Type 0 where
  pub some_entry : 0 < length es
  pub first : ra.first_key ≡ (get_or es 0 no_entry).0
  pub in_file : take ra.size (drop ra.offset file) ≡ encode_entries es
  pub size : ra.size ≡ length (encode_entries es)
  pub fits : All EntryFits es
  pub is_sorted : Sorted es
  pub offset_small : ra.offset < 2 ^ 63
  pub size_small : ra.size < 2 ^ 32

-- The table stands for the entries of the blocks, and its cache holds nothing else.
pub record Represents (t : Table) (bs : List (List Entry)) : Type 0 where
  pub is_opened : t.is_open ≡ true
  pub counts : length t.ranges ≡ length bs
  pub sorted : Sorted (concat bs)
  pub holds : (i : ℕ) → i < length bs → Holds t.file (get_or t.ranges i no_range) (get_or bs i [])
  pub cached :
      (i : ℕ) (b : CachedDataBlock)
      → i < length bs
      → cache_get t.block_cache (get_or t.ranges i no_range).offset ≡ some b
      → b ≡ block_of (get_or bs i [])

module _ (stale : List ℕ) (buffer : length stale ≡ sstable_block_size) where
  length-get_data_block : (n : ℕ) → length (get_data_block n stale) ≡ n
  unfolding get_data_block
  length-get_data_block n = elim (dec_lt sstable_block_size n) [
    | yes h ↦ rw (lt→ltb sstable_block_size n h) (length-replicate n 0)
    | no h ↦ rw (le→ltb sstable_block_size n (omega arith)) (omega (arith, length-take n stale))
  ]

  read_raw-Holds :
      (file : List ℕ) (ra : DataRange) (es : List Entry)
      → Holds file ra es
      → read_raw file ra.offset (get_data_block ra.size stale) ≡ encode_entries es
  unfolding read_raw
  read_raw-Holds file ra es h =
      rw (length-get_data_block ra.size, h.in_file)
        (rw
          (drop_all (length (encode_entries es)) (get_data_block ra.size stale)
            (omega (arith, length-get_data_block ra.size, h.size)))
          (append-nil (encode_entries es)))

  pub get_cached_block-hit :
      (t : Table) (ra : DataRange) (b : CachedDataBlock)
      → cache_get t.block_cache ra.offset ≡ some b
      → get_cached_block t ra stale ≡ (ok b, t)
  unfolding get_cached_block
  get_cached_block-hit t ra b e = rw (get_cached_block, e) refl

  pub get_cached_block-miss :
      (t : Table) (ra : DataRange) (es : List Entry)
      → t.is_open ≡ true
      → Holds t.file ra es
      → cache_get t.block_cache ra.offset ≡ none
      → get_cached_block t ra stale ≡ (
        ok (block_of es),
        record t { block_cache = cache_add t.block_cache ra.offset (block_of es) },
      )
  unfolding get_cached_block
  get_cached_block-miss t ra es o h e =
      rw
        (
          get_cached_block,
          e,
          o,
          lt→ltb ra.offset (2 ^ 63) h.offset_small,
          read_raw-Holds t.file ra es h,
          parse-encode es h.fits,
        )
        (ap
          (λ is_open. (
            ok (block_of es),
            record t {
              is_open = is_open;
              block_cache = cache_add t.block_cache ra.offset (block_of es);
            },
          ))
          o)

  -- A block is read from the cache or from the file.
  pub get_cached_block-ok :
      (t : Table) (bs : List (List Entry)) (i : ℕ)
      → Represents t bs
      → i < length bs
      → (get_cached_block t (get_or t.ranges i no_range) stale).0 ≡ ok (block_of (get_or bs i []))
  get_cached_block-ok t bs i v h =
      elim (Option-cases (cache_get t.block_cache (get_or t.ranges i no_range).offset)) [
        | inr (b, e) ↦
            ap (λ r. r.0) (get_cached_block-hit t (get_or t.ranges i no_range) b e)
            ∙ ap ok (v.cached i b h e)
        | inl e ↦
            ap (λ r. r.0)
              (get_cached_block-miss t (get_or t.ranges i no_range) (get_or bs i []) v.is_opened
                (v.holds i h) e)
      ]

  -- A lookup through the index.
  get_range-Represents :
      (t : Table) (bs : List (List Entry)) (i : ℕ) (key : List ℕ)
      → Represents t bs
      → i < length bs
      → (get_range t key stale (some (get_or t.ranges i no_range))).0
        ≡ ok (copy_value (find (get_or bs i []) key))
  unfolding get_range copy_found
  get_range-Represents t bs i key v h =
      let hold = v.holds i h in
      copy_found-ok (get_cached_block t (get_or t.ranges i no_range) stale)
        (block_of (get_or bs i [])) key (get_cached_block-ok t bs i v h)
      ∙ ap (λ o. ok (copy_value o))
          (block_lookup-find (get_or bs i []) hold.fits hold.is_sorted
            (omega (arith, hold.size, hold.size_small)) key)
    where
      copy_found-ok :
          (r : Result CachedDataBlock × Table) (b : CachedDataBlock) (key : List ℕ)
          → r.0 ≡ ok b
          → (copy_found r key).0 ≡ ok (copy_value (block_lookup b key))
      copy_found-ok (ok c, t') b key e =
          let q : c ≡ b = cc e in ap (λ x. ok (copy_value (block_lookup x key))) q
      copy_found-ok (err x, t') b key e = absurd (cc e)

one_before {ℓ} :
    {A : Type ℓ} (k : ℕ) (x : A) (f : ℕ → A) → (if suc k == 0 then x else f (suc k - 1)) ≡ f k
one_before k x f =
    let positive : (suc k == 0) ≡ false = ground arith in
    let less : suc k - 1 ≡ k = omega arith in rw (positive, less) refl

-- Where the search of the index ends.
index_answer :
    (t : Table) (bs : List (List Entry)) (key : List ℕ) (r : ℕ)
    → Represents t bs
    → Found (λ i. bytes_lt key (get_or t.ranges i no_range).first_key) (length t.ranges) r
    → find (concat bs) key ≡ (if r == 0 then none else find (get_or bs (r - 1) []) key)
index_answer t bs key zero v found =
    unfold find in
    (find_first_block [] bs key v.sorted (λ lt. (
      (v.holds 0 lt).some_entry,
      rw (← (v.holds 0 lt).first) (found.holds_at (omega (arith, v.counts))),
    )))
index_answer t bs key (suc k) v found =
    let inside : k < length bs = omega (arith, found.inside, v.counts) in
    let hold = v.holds k inside in
    let split : drop k bs ≡ get_or bs k [] ∷ drop (suc k) bs = drop_at bs k [] inside in
    let s : Sorted (get_or bs k [] ++ concat (drop (suc k) bs)) =
      subst (λ (cs : List (List Entry)). Sorted (concat cs)) split
        (Sorted-drop_blocks bs k v.sorted) in
    find-drop_blocks bs k key v.sorted hold.some_entry
      (rw (← hold.first) (found.fails_before k refl))
    ∙ ap (λ cs. find (concat cs) key) split
    ∙ find_first_block (get_or bs k []) (drop (suc k) bs) key s (λ lt. next lt)
    ∙ sym (one_before k none (λ j. find (get_or bs j []) key))
  where
    next :
        0 < length (drop (suc k) bs)
        → (0 < length (get_or (drop (suc k) bs) 0 []))
          × (bytes_lt key (get_or (get_or (drop (suc k) bs) 0 []) 0 no_entry).0 ≡ true)
    next lt =
        let more : suc k < length bs = omega (arith, length-drop (suc k) bs) in
        let same : suc k + 0 ≡ suc k = omega arith in
        let head : get_or (drop (suc k) bs) 0 [] ≡ get_or bs (suc k) [] =
          get_or-drop bs (suc k) 0 [] ∙ ap (λ j. get_or bs j []) same in
        let hold = v.holds (suc k) more in
        subst
          (λ (es : List Entry). (0 < length es) × (bytes_lt key (get_or es 0 no_entry).0 ≡ true))
          (sym head) (hold.some_entry, rw (← hold.first) (found.holds_at (omega (arith, v.counts))))

module _ (hash_seed : List ℕ → ℕ → ℕ) (t : Table) (bs : List (List Entry))
    (key stale : List ℕ) where
  from_index :
      (r : ℕ)
      → Represents t bs
      → length stale ≡ sstable_block_size
      → Found (λ i. bytes_lt key (get_or t.ranges i no_range).first_key) (length t.ranges) r
      → (get_range t key stale (if r == 0 then none else some (get_or t.ranges (r - 1) no_range))).0
        ≡ ok (copy_value (find (concat bs) key))
  from_index zero v buffer found =
      rw (index_answer t bs key zero v found) (unfold get_range copy_value in refl)
  from_index (suc k) v buffer found =
      ap (λ o. (get_range t key stale o).0)
        (one_before k none (λ j. some (get_or t.ranges j no_range)))
      ∙ (get_range-Represents stale buffer t bs k key v (omega (arith, found.inside, v.counts)))
      ∙ ap (λ o. ok (copy_value o))
          (sym (
            index_answer t bs key (suc k) v found
            ∙ one_before k none (λ j. find (get_or bs j []) key)))

  -- Get is the lookup in the entries of the table, the filter, the index, the cache and the search
  -- in the block notwithstanding: on a table that represents sorted blocks, for a key that the
  -- filter lets through or that is in no entry, it answers without an error a copy of the value
  -- stored with the key, or nil where there is none. The pooled buffer of the read is of a block's
  -- size and holds anything.
  pub table_get-find :
      Represents t bs
      → length stale ≡ sstable_block_size
      → (may_contain hash_seed t.filter key ≡ false → find (concat bs) key ≡ none)
      → (table_get hash_seed t key stale).0 ≡ ok (copy_value (find (concat bs) key))
  unfolding table_get find_data_range copy_value
  table_get-find v buffer sound = elim (Bool-cases (may_contain hash_seed t.filter key)) [
    | inr out ↦ rw (out, sound out) refl
    | inl through ↦ rw through (
        from_index
          (search (λ i. bytes_lt key (get_or t.ranges i no_range).first_key) (length t.ranges)) v
          buffer (search_lem _ (length t.ranges)))
  ]
