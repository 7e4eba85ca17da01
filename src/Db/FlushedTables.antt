-- ===== src/Db/FlushedTables.antt =====
-- db.go and sstable/sstable.go: a round of the flush loop whose table is what writeDataBlocks writes
-- and Table.Get reads.
use seol.Base.{ℕ, ◌+◌, ◌^◌, ◌<◌, false, ◌≡◌, Option, none, List, ◌++◌}
use seol.Base.{length}
use seol.Base.Result.{Result, ok}
use seol.Bloom.{Filter}
use seol.Db.{Db}
use seol.Memtable.{Memtable}
use seol.Sstable.{sstable_block_size}
use seol.Sstable.Blocks.{Entry, encode_entries}
use seol.Sstable.BlockLookup.{find}
use seol.Sstable.Table.{Table, table_get, may_contain}
use seol.Sstable.Table.Flushed.{table_of}
use seol.Sstable.Table.Writing.{Writer, write_data_blocks}

module _ (hash_seed : List ℕ → ℕ → ℕ) where
  -- The open table has the blocks that writeDataBlocks made of the entries, and its filter lets the
  -- key through if an entry has it.
  pub record IsWritten (entries : List Entry) (key : List ℕ) (t : Table) : Type 0 where
    pub built : Filter
    pub filter : Option Filter
    pub writer : Writer
    pub pre : List ℕ
    pub rest : List ℕ
    pub written : write_data_blocks hash_seed built (length pre) entries ≡ ok writer
    pub table : t ≡ table_of writer filter pre rest
    pub small : length (pre ++ (writer.written ++ rest)) < 2 ^ 63
    pub fits : length pre + length (encode_entries entries) < 2 ^ 64
    pub lets_through : may_contain hash_seed filter key ≡ false → find entries key ≡ none

  module _ {M T : Type 0} (mem : Memtable M) (table : T → Table) (stale : List ℕ)
      (buffer : length stale ≡ sstable_block_size) where
    abbrev pub get_in_table : T → List ℕ → Result (Option (List ℕ))
    get_in_table sst key = (table_get hash_seed (table sst) key stale).0
