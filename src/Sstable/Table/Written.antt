-- ===== src/Sstable/Table/Written.antt =====
-- sstable/sstable.go: the loop of writeDataBlocks writes every entry, in order, in blocks that fit.
use mathlib.Core.Path.{subst}
use seol.Base.{
  ℕ, ◌+◌, ◌^◌, ◌≤◌, ◌<◌, true, false, not, ◌&&◌, ◌≡◌, refl, sym, ap, ◌∙◌, arith, List, [], ◌∷◌,
  ◌++◌, append_assoc, append-nil, inl, inr,
}
use seol.Base.{ltb, ◌==◌, if◌then◌else◌, length, length-append, if_cases}
use seol.Base.Result.{Result, ok, Result-cases}
use seol.Bloom.{Filter, add}
use seol.Sstable.{entry_meta_size, sstable_block_size, append_block_entry}
use seol.Sstable.Blocks.{Entry, encode_entry, encode_entries}
use seol.Sstable.Index.{no_range}
use seol.Sstable.Lookups.{concat}
use seol.Sstable.Table.Writing.{
  Writer, flush_block, begin_range, write_entry, write_entries, write_data_blocks,
}
use seol.Sstable.Table.Layout.{
  encode_blocks, LaysOut, Holding, no_entries, some_entries, flushed-Holding, added-Holding,
  concat-snoc,
}

filter-Holding :
    (w : Writer) (f : Filter) (start : ℕ) (bs : List (List Entry)) (cur : List Entry)
    → Holding w start bs cur
    → Holding (record w { filter = f }) start bs cur
filter-Holding w f start bs cur v = record {
  lays = v.lays;
  wrote = v.wrote;
  at = v.at;
  current = v.current;
  fits = v.fits;
  begun = v.begun;
}

added-size :
    (w : Writer) (key value : List ℕ)
    → (begin_range w key).offset + length (append_block_entry (begin_range w key).block key value)
      ≡ w.offset + length w.block + length (encode_entry (key, value))
unfolding begin_range append_block_entry
added-size w key value =
    if_cases
      (λ (b : Writer).
        b.offset + length (b.block ++ encode_entry (key, value))
        ≡ w.offset + length w.block + length (encode_entry (key, value)))
      (length w.block == 0) _ _
      (λ e. omega (arith, length-append w.block (encode_entry (key, value))))
      (λ e. omega (arith, length-append w.block (encode_entry (key, value))))

-- Where a writer has got to, for the entries that went to it.
abbrev Reached : ℕ → List Entry → ℕ → Writer → Type 0
Reached start es end w =
    (bs : List (List Entry)) × (cur : List Entry) × Holding w start bs cur
    × (concat bs ++ cur ≡ es)
    × (w.offset + length w.block ≡ end)

begin_range-Reached :
    (w : Writer) (start : ℕ) (bs : List (List Entry)) (cur : List Entry) (key value : List ℕ)
    (es : List Entry) (end : ℕ)
    → Holding w start bs cur
    → length w.block + (entry_meta_size + length key + length value) ≤ sstable_block_size
    → concat bs ++ cur ≡ es
    → w.offset + length w.block ≡ end
    → Reached start
        (es ++ ((key, value) ∷ []))
        (end + length (encode_entry (key, value)))
        (record (begin_range w key) {
          block = append_block_entry (begin_range w key).block key value;
        })
begin_range-Reached w start bs cur key value es end v room all e =
    let v' = added-Holding w start bs cur v key value room in
    (
      bs,
      cur ++ ((key, value) ∷ []),
      v',
      sym (append_assoc (concat bs) cur ((key, value) ∷ []))
          ∙ ap (λ xs. xs ++ ((key, value) ∷ [])) all,
      added-size w key value ∙ ap (λ n. n + length (encode_entry (key, value))) e,
    )

module _ (w : Writer) (start : ℕ) (bs : List (List Entry)) (cur : List Entry)
    (key value : List ℕ) where
  abbrev entry_size : ℕ
  entry_size = entry_meta_size + length key + length value

  -- The entry went to the current block of `r`.
  abbrev Added : Writer → Type 0
  Added r =
      Reached start ((concat bs ++ cur) ++ ((key, value) ∷ []))
        (w.offset + length w.block + length (encode_entry (key, value)))
        (record (begin_range r key) {
          block = append_block_entry (begin_range r key).block key value;
        })

  module _ (v : Holding w start bs cur) (small : w.offset + length w.block < 2 ^ 64)
      (entry_fits : ltb sstable_block_size entry_size ≡ false) where
    flushed-Added : (length w.block == 0) ≡ false → Added (flush_block w)
    unfolding flush_block
    flushed-Added some_bytes =
        if_cases Added (length w.block == 0) _ _ (λ e. absurd (cc (e, some_bytes)))
          (λ e.
            begin_range-Reached _ start (bs ++ (cur ∷ [])) [] key value (concat bs ++ cur)
              (w.offset + length w.block)
              (flushed-Holding w start bs cur v (some_entries cur (positive e)) small)
              (ground (arith, entry_fits))
              (append-nil (concat (bs ++ (cur ∷ []))) ∙ concat-snoc bs cur) (omega (arith, small)))
      where
        positive : (length w.block == 0) ≡ false → 0 < length (encode_entries cur)
        positive e = let same = ap length v.current in ground (arith, e, same)

    roomy-Added : Added (
        if not (length w.block == 0) && ltb sstable_block_size (length w.block + entry_size)
        then flush_block w
        else w)
    roomy-Added =
        if_cases Added
          (not (length w.block == 0) && ltb sstable_block_size (length w.block + entry_size)) _ _
          (λ full. flushed-Added (ground (arith, full)))
          (λ room.
            begin_range-Reached w start bs cur key value (concat bs ++ cur)
              (w.offset + length w.block) v (ground (arith, room, entry_fits)) refl refl)

module _ (hash_seed : List ℕ → ℕ → ℕ) (start : ℕ) where
  write_entry-Reached :
      (w w' : Writer) (bs : List (List Entry)) (cur : List Entry) (key value : List ℕ)
      → Holding w start bs cur
      → w.offset + length w.block < 2 ^ 64
      → write_entry hash_seed w key value ≡ ok w'
      → Reached start
          ((concat bs ++ cur) ++ ((key, value) ∷ []))
          (w.offset + length w.block + length (encode_entry (key, value)))
          w'
  unfolding write_entry
  write_entry-Reached w w' bs cur key value v small =
      let f = (add hash_seed w.filter key).0 in
      let v' = filter-Holding w f start bs cur v in
      if_cases
        (λ (answer : Result Writer).
          answer ≡ ok w'
          → Reached start ((concat bs ++ cur) ++ ((key, value) ∷ []))
              (w.offset + length w.block + length (encode_entry (key, value))) w')
        (ltb sstable_block_size (entry_meta_size + length key + length value)) _ _
        (λ big e. absurd (cc e))
        (λ fits e.
          subst
            (Reached start ((concat bs ++ cur) ++ ((key, value) ∷ []))
              (w.offset + length w.block + length (encode_entry (key, value))))
            (ok_injective e)
            (roomy-Added (record w { filter = f }) start bs cur key value v' small fits))
    where
      ok_injective : {x y : Writer} → ok x ≡ ok y → x ≡ y
      ok_injective e = cc e

  -- The blocks that a writer has written when it is done.
  abbrev pub Complete : List Entry → Writer → Type 0
  Complete es w =
      (bs : List (List Entry)) × LaysOut start w.ranges bs
      × (w.written ≡ encode_blocks bs)
      × (w.offset ≡ start + length (encode_blocks bs))
      × (concat bs ≡ es)

  last_flush-Complete :
      (w : Writer) (bs : List (List Entry)) (cur : List Entry)
      → Holding w start bs cur
      → w.offset + length w.block < 2 ^ 64
      → Complete (concat bs ++ cur) (flush_block w)
  unfolding flush_block
  last_flush-Complete w bs cur v small =
      if_cases (Complete (concat bs ++ cur)) (length w.block == 0) _ _
        (λ e. (
          bs,
          v.lays,
          v.wrote,
          v.at,
          sym (ap (λ xs. concat bs ++ xs) (none_left e) ∙ append-nil (concat bs)),
        ))
        (λ e.
          let d = flushed-Holding w start bs cur v (some_entries cur (positive e)) small in
          (bs ++ (cur ∷ []), d.lays, d.wrote, d.at, concat-snoc bs cur))
    where
      none_left : (length w.block == 0) ≡ true → cur ≡ []
      none_left e = no_entries cur (let same = ap length v.current in ground (arith, e, same))

      positive : (length w.block == 0) ≡ false → 0 < length (encode_entries cur)
      positive e = let same = ap length v.current in ground (arith, e, same)

  write_entries-Complete :
      (entries : List Entry) (w w' : Writer) (bs : List (List Entry)) (cur : List Entry)
      → Holding w start bs cur
      → w.offset + length w.block + length (encode_entries entries) < 2 ^ 64
      → write_entries hash_seed w entries ≡ ok w'
      → Complete ((concat bs ++ cur) ++ entries) w'
  unfolding write_entries encode_entries
  write_entries-Complete [] w w' bs cur v small e =
      let same : flush_block w ≡ w' = cc e in
      subst (Complete ((concat bs ++ cur) ++ [])) same (
        subst (λ es. Complete es (flush_block w)) (sym (append-nil (concat bs ++ cur)))
          (last_flush-Complete w bs cur v (omega arith)))
  write_entries-Complete ((key, value) ∷ entries) w w' bs cur v small e =
      elim (Result-cases (write_entry hash_seed w key value)) [
        | inr (x, q) ↦ absurd (cc (rw (write_entries, q) at e))
        | inl (w1, q) ↦
            let (bs1, cur1, v1, all, end) =
              write_entry-Reached w w1 bs cur key value v (omega arith) q in
            let rest : Complete ((concat bs1 ++ cur1) ++ entries) w' =
              write_entries-Complete entries w1 w' bs1 cur1 v1
                (omega
                  (arith, end, length-append (encode_entry (key, value)) (encode_entries entries)))
                (rw (write_entries, q) at e) in
            subst (λ es. Complete es w')
              (ap (λ es. es ++ entries) all
                ∙ append_assoc (concat bs ++ cur) ((key, value) ∷ []) entries)
              rest
      ]

  -- When writeDataBlocks succeeds, what it wrote are blocks of 4096 bytes at most, none of them
  -- empty, that hold together exactly the entries that it was given, in order; the index has a range
  -- for each block, with its first key, its offset and its size; and the offset that it returns is
  -- that of their end. The offsets stay below 2^64.
  pub write_data_blocks-Complete :
      (filter : Filter) (entries : List Entry) (w : Writer)
      → start + length (encode_entries entries) < 2 ^ 64
      → write_data_blocks hash_seed filter start entries ≡ ok w
      → Complete entries w
  unfolding write_data_blocks
  write_data_blocks-Complete filter entries w small e =
      write_entries-Complete entries _ w [] [] fresh (omega arith) e
    where
      fresh :
          Holding
            (record {
              block = [];
              current_range = no_range;
              offset = start;
              ranges = [];
              written = [];
              filter = filter;
            })
            start
            []
            []
      fresh = record {
        lays = tt;
        wrote = refl;
        at = omega arith;
        current = unfold encode_entries in refl;
        fits = omega arith;
        begun = λ h. absurd (omega arith);
      }
