-- ===== src/Sstable/Table/Writing.antt =====
-- sstable/sstable.go: writeDataBlocks. The entries are those that the memtable's iterator gives, and
-- what goes to the bufio.Writer is a list of bytes; its errors are the operating system's.
use seol.Base.{ℕ, ◌+◌, ◌%◌, ◌^◌, not, ◌&&◌, List, [], ◌∷◌, ◌++◌}
use seol.Base.{ltb, ◌==◌, if◌then◌else◌, length}
use seol.Base.Result.{Result, ok, err, entry_too_large}
use seol.Bloom.{Filter, add}
use seol.Sstable.{entry_meta_size, sstable_block_size, append_block_entry}
use seol.Sstable.Index.{DataRange, no_range}

pub record Writer : Type 0 where
  pub block : List ℕ
  pub current_range : DataRange
  pub offset : ℕ
  pub ranges : List DataRange
  pub written : List ℕ
  pub filter : Filter

-- The cut of the length to 32 bits is written out.
unfoldable pub flush_block : Writer → Writer
flush_block w = if length w.block == 0 then w else record w {
  block = [];
  current_range = no_range;
  offset = (w.offset + length w.block) % 2 ^ 64;
  ranges = w.ranges ++ (record w.current_range { size = length w.block % 2 ^ 32 } ∷ []);
  written = w.written ++ w.block;
}

unfoldable pub begin_range : Writer → List ℕ → Writer
begin_range w key =
    if length w.block == 0
    then record w { current_range = record w.current_range { first_key = key; offset = w.offset } }
    else w

-- A round of the loop, and the loop.
module _ (hash_seed : List ℕ → ℕ → ℕ) where
  unfoldable pub write_entry : Writer → List ℕ → List ℕ → Result Writer
  unfolding flush_block begin_range
  write_entry w key value =
      let entry_size = entry_meta_size + length key + length value in
      let added = record w { filter = (add hash_seed w.filter key).0 } in
      let roomy =
        if not (length w.block == 0) && ltb sstable_block_size (length w.block + entry_size)
        then flush_block added
        else added in
      let begun = begin_range roomy key in
      if ltb sstable_block_size entry_size
      then err entry_too_large
      else ok (record begun { block = append_block_entry begun.block key value })

  unfoldable pub write_entries : Writer → List (List ℕ × List ℕ) → Result Writer
  unfolding write_entry
  write_entries w [] = ok (flush_block w)
  write_entries w ((key, value) ∷ entries) = elim (write_entry w key value) [
    | err e ↦ err e
    | ok w' ↦ write_entries w' entries
  ]

  unfoldable pub write_data_blocks : Filter → ℕ → List (List ℕ × List ℕ) → Result Writer
  unfolding write_entries
  write_data_blocks filter start_offset entries =
      write_entries
        (record {
          block = [];
          current_range = no_range;
          offset = start_offset;
          ranges = [];
          written = [];
          filter = filter;
        })
        entries
