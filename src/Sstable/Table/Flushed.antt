-- ===== src/Sstable/Table/Flushed.antt =====
-- sstable/sstable.go: Get on the table that writeDataBlocks has written.
use mathlib.Core.Path.{subst}
use seol.Base.{
  ℕ, zero, suc, ◌+◌, ◌%◌, ◌^◌, ◌<◌, true, false, ◌≡◌, refl, sym, ap, ◌∙◌, arith, Option, none, List,
  [], ◌∷◌, ◌++◌, append_assoc,
}
use seol.Base.{length, take, get_or, replicate, All, length-append, take-append, drop-append}
use seol.Base.Result.{ok}
use seol.Base.Order.{bytes_lt}
use seol.Base.Files.{lookup}
use seol.Bloom.{Filter}
use seol.Sstable.{sstable_block_size}
use seol.Sstable.Blocks.{Entry, EntryFits, encode_entry, encode_entries, length-encode_entry}
use seol.Sstable.BlockLookup.{Sorted, find}
use seol.Sstable.Index.{DataRange, no_range}
use seol.Sstable.Cache.{Shard, no_shard, cache_get, new_data_block_cache, block_cache_entry_limit}
use seol.Sstable.Lookups.{concat, Sorted-right}
use seol.Sstable.Gets.{Holds, Represents, table_get-find}
use seol.Sstable.Table.{Table, table_get, copy_value, may_contain}
use seol.Sstable.Table.Writing.{Writer, write_data_blocks}
use seol.Sstable.Table.Layout.{encode_blocks, LaysOut, Describes}
use seol.Sstable.Table.Written.{write_data_blocks-Complete}

All-left : (P : Entry → Type 0) (xs ys : List Entry) → All P (xs ++ ys) → All P xs
All-left P [] ys h = tt
All-left P (x ∷ xs) ys h = (h.0, All-left P xs ys h.1)

Sorted-left : (xs ys : List Entry) → Sorted (xs ++ ys) → Sorted xs
Sorted-left [] ys s = tt
Sorted-left (x ∷ xs) ys s =
    (All-left (λ y. bytes_lt x.0 y.0 ≡ true) xs ys s.0, Sorted-left xs ys s.1)

-- Entries of a block that is short enough fit their fields.
EntryFits-short : (es : List Entry) → length (encode_entries es) < 2 ^ 16 → All EntryFits es
unfolding encode_entries
EntryFits-short [] h = tt
EntryFits-short (e ∷ es) h =
    let split = length-append (encode_entry e) (encode_entries es) in
    (
      (omega (arith, split, length-encode_entry e), omega (arith, split, length-encode_entry e)),
      EntryFits-short es (omega (arith, split)),
    )

module _ (rest : List ℕ) where
  abbrev file_with : List ℕ → List (List Entry) → List ℕ
  file_with pre bs = pre ++ (encode_blocks bs ++ rest)

  further :
      (pre : List ℕ) (es : List Entry) (bs : List (List Entry))
      → file_with pre (es ∷ bs) ≡ file_with (pre ++ encode_entries es) bs
  further pre es bs =
      ap (λ bytes. pre ++ bytes) (append_assoc (encode_entries es) (encode_blocks bs) rest)
      ∙ sym (append_assoc pre (encode_entries es) (encode_blocks bs ++ rest))

  first-Holds :
      (pre : List ℕ) (ra : DataRange) (es : List Entry) (bs : List (List Entry))
      → Describes ra (length pre) es
      → Sorted (es ++ concat bs)
      → length (file_with pre (es ∷ bs)) < 2 ^ 63
      → Holds (file_with pre (es ∷ bs)) ra es
  first-Holds pre ra es bs d s small =
      let behind = append_assoc (encode_entries es) (encode_blocks bs) rest in
      record {
        some_entry = d.some_entry;
        first = d.first;
        in_file =
            ap (take ra.size) (
              drop-append ra.offset pre ((encode_entries es ++ encode_blocks bs) ++ rest)
                (sym d.place)
              ∙ behind)
            ∙ take-append ra.size (encode_entries es) (encode_blocks bs ++ rest) (sym d.size_is);
        size = d.size_is;
        fits = EntryFits-short es (omega (arith, d.bounded));
        is_sorted = Sorted-left es (concat bs) s;
        offset_small =
            omega
              (arith, d.place, length-append pre ((encode_entries es ++ encode_blocks bs) ++ rest));
        size_small = omega (arith, d.size_is, d.bounded);
      }

  LaysOut-Holds :
      (pre : List ℕ) (ranges : List DataRange) (bs : List (List Entry)) (i : ℕ)
      → LaysOut (length pre) ranges bs
      → Sorted (concat bs)
      → length (file_with pre bs) < 2 ^ 63
      → i < length bs
      → Holds (file_with pre bs) (get_or ranges i no_range) (get_or bs i [])
  LaysOut-Holds pre ranges [] i l s small h = absurd (omega arith)
  LaysOut-Holds pre [] (es ∷ bs) i l s small h = absurd (cc l)
  LaysOut-Holds pre (ra ∷ ranges) (es ∷ bs) zero l s small h = first-Holds pre ra es bs l.0 s small
  LaysOut-Holds pre (ra ∷ ranges) (es ∷ bs) (suc i) l s small h =
      let longer = pre ++ encode_entries es in
      let next : LaysOut (length longer) ranges bs =
        subst (λ n. LaysOut n ranges bs) (sym (length-append pre (encode_entries es))) l.1 in
      subst (λ file. Holds file (get_or ranges i no_range) (get_or bs i []))
        (sym (further pre es bs))
        (LaysOut-Holds longer ranges bs i next (Sorted-right es (concat bs) s)
          (omega (arith, small, ap length (further pre es bs))) (omega arith))

same_length :
    (offset : ℕ) (ranges : List DataRange) (bs : List (List Entry))
    → LaysOut offset ranges bs
    → length ranges ≡ length bs
same_length offset [] [] l = refl
same_length offset [] (es ∷ bs) l = absurd (cc l)
same_length offset (ra ∷ ranges) [] l = absurd (cc l)
same_length offset (ra ∷ ranges) (es ∷ bs) l =
    ap suc (same_length (offset + length (encode_entries es)) ranges bs l.1)

empty_shards :
    (n i : ℕ) (s : Shard) → s.blocks ≡ [] → (get_or (replicate n s) i no_shard).blocks ≡ []
empty_shards zero i s e = refl
empty_shards (suc n) zero s e = e
empty_shards (suc n) (suc i) s e = empty_shards n i s e

new_cache-empty : (k : ℕ) → cache_get (new_data_block_cache block_cache_entry_limit) k ≡ none
unfolding cache_get new_data_block_cache lookup
new_cache-empty k =
    ap (lookup k)
      (empty_shards 16 (k % 16) (record { blocks = []; order = []; max_entries = 16 }) refl)

-- The table of a file whose blocks stand between its filter and its index, with a new cache.
abbrev pub table_of : Writer → Option Filter → List ℕ → List ℕ → Table
table_of w filter pre rest = record {
  ranges = w.ranges;
  filter = filter;
  file = pre ++ (w.written ++ rest);
  is_open = true;
  block_cache = new_data_block_cache block_cache_entry_limit;
  smallest = [];
  largest = [];
  size_bytes = 0;
}

Represents-table_of :
    (w : Writer) (filter : Option Filter) (pre rest : List ℕ) (bs : List (List Entry))
    → LaysOut (length pre) w.ranges bs
    → w.written ≡ encode_blocks bs
    → Sorted (concat bs)
    → length (pre ++ (w.written ++ rest)) < 2 ^ 63
    → Represents (table_of w filter pre rest) bs
Represents-table_of w filter pre rest bs l e s small =
    let same : pre ++ (w.written ++ rest) ≡ pre ++ (encode_blocks bs ++ rest) =
      ap (λ bytes. pre ++ (bytes ++ rest)) e in
    record {
      is_opened = refl;
      counts = same_length (length pre) w.ranges bs l;
      sorted = s;
      holds = λ i h.
          subst (λ file. Holds file (get_or w.ranges i no_range) (get_or bs i [])) (sym same)
            (LaysOut-Holds rest pre w.ranges bs i l s (omega (arith, small, ap length same)) h);
      cached = λ i b h q. absurd (cc (q, new_cache-empty (get_or w.ranges i no_range).offset));
    }

module _ (hash_seed : List ℕ → ℕ → ℕ) where
  -- A table refines the sorted list of its entries: if writeDataBlocks succeeds on sorted entries,
  -- then Get on the open table whose file has the written blocks behind the bytes of the filter,
  -- whose index is the one that was built and whose cache is new, answers for a key that the filter
  -- lets through or that no entry has a copy of the value that the entries give to the key, or nil
  -- where there is none. The file is below 2^63 bytes, and the buffer of the read is of a block's
  -- size and holds anything.
  pub table_get-write_data_blocks :
      (built : Filter) (filter : Option Filter) (entries : List Entry) (w : Writer)
      (pre rest key stale : List ℕ)
      → write_data_blocks hash_seed built (length pre) entries ≡ ok w
      → Sorted entries
      → length (pre ++ (w.written ++ rest)) < 2 ^ 63
      → length pre + length (encode_entries entries) < 2 ^ 64
      → length stale ≡ sstable_block_size
      → (may_contain hash_seed filter key ≡ false → find entries key ≡ none)
      → (table_get hash_seed (table_of w filter pre rest) key stale).0
        ≡ ok (copy_value (find entries key))
  table_get-write_data_blocks built filter entries w pre rest key stale e s small fits buffer
        sound =
      let (bs, l, written, at, all) =
        write_data_blocks-Complete hash_seed (length pre) built entries w fits e in
      let v = Represents-table_of w filter pre rest bs l written (subst Sorted (sym all) s) small in
      table_get-find hash_seed (table_of w filter pre rest) bs key stale v buffer
        (λ out. ap (λ es. find es key) all ∙ sound out)
      ∙ ap (λ es. ok (copy_value (find es key))) all
