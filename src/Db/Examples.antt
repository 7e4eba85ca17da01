-- ===== src/Db/Examples.antt =====
-- db.go: the results on a database with three memtables, two puts, and a log that is cut.
use seol.Base.{Option, ◌++◌, ◌<◌, ◌≡◌, true, false, refl, ap, arith, none, some, List, [], ◌∷◌, ◌⊎◌}
use seol.Base.{ℕ, replicate}
use seol.Base.Order.{bytes_compare}
use seol.Bloom.{Filter, add}
use seol.Compaction.{TableMeta}
use seol.Sstable.{sstable_block_size}
use seol.Sstable.Blocks.{encode_entries}
use seol.Sstable.BlockLookup.{Sorted}
use seol.Sstable.Index.{no_range}
use seol.Sstable.Table
use seol.Sstable.Table.Flushed.{table_of}
use seol.Sstable.Table.Writing.{Writer}
use seol.Base.Result.{Result, ok}
use seol.Base.Order.{bytes_equal}
use seol.Compaction.{read_stored_value, sort_table_meta_for_level}
use seol.Compaction.Grouping.{LevelState, build_level_state, table_by_name}
use seol.Db.{Db, snapshot_read_state_locked, search_memtable, db_get}
use seol.Db.Written.{ServedBy, process_write_batch-Served}
use seol.Db.Histories.{realized_db}
use seol.Db.Collecting.{Waiting, Drained, collect_write_batch, collect_write_batch-Drained}
use seol.Db.Flushes.{IsFlushable, flush_round-Get}
use seol.Db.Flushing
use seol.Db.Flushing.{name_of, flush_round, sync_value_log}
use seol.Db.OutOfOrder.{flush_round_stale}
use seol.Db.Opening.{OpenOptions, Found, open_db}
use seol.Db.Replays.{TornLog}
use seol.Db.Reopened.{after_crash}
use seol.Db.Writing.{process_write_batch}
use seol.Manifest.{ManifestStore, replace_tables, write}
use seol.Memtable.SortedList.{SortedEntries, sorted_list}
use seol.Skiplist.{Skiplist}
use seol.Record.{encode}
use seol.Sstable.BlockLookup.{find}
use seol.Vlog.{sync, active_is_open}
use seol.Sstable.Blocks.{Entry}
use seol.Db.Samples.{
  lists, lists_empty, first_segment, empty_log, Table, db_over, get, meta_of, new_meta, flush_fn,
  one_entry, older, newer, heap, db_with, empty_db, empty_db-Represents, good_day, env, two_puts,
  two_puts-IsPlain,
}

process_write_batch-Served_example :
    ServedBy lists get lists_empty two_puts
      (λ key. none)
      (process_write_batch lists (λ i. env) two_puts (realized_db lists empty_db))
process_write_batch-Served_example =
    process_write_batch-Served lists get lists_empty (λ i. env) two_puts (λ key. none) empty_db 2
      empty_log first_segment empty_db-Represents two_puts-IsPlain (unfold encode in omega arith)

abbrev flush_env : Flushing.Env
flush_env = record {
  value_log = good_day;
  manifest = record { writes = true; renames = true };
  removes = true;
}

abbrev flushing_db : Db SortedEntries Table
flushing_db = db_with (older ∷ newer ∷ [])

abbrev nothing_built : LevelState Table
nothing_built = record { levels = []; flat_meta = []; flat_tables = [] }

made_is : (sst : Table) → flush_fn (heap 0) ≡ ok sst → sst ≡ (new_meta, (one_entry (7 ∷ [])).0)
made_is sst e = cc e

older-IsFlushable : IsFlushable sorted_list get meta_of flush_fn flushing_db 2 older (newer ∷ [])
unfolding snapshot_read_state_locked build_level_state table_by_name
older-IsFlushable = record {
  ready = record {
    published = refl;
    open_db = refl;
    current = refl;
    given_out = refl;
    older = (omega arith, (omega arith, tt));
  };
  oldest = refl;
  before = nothing_built;
  built = refl;
  levels = refl;
  no_tables = λ h. refl;
  level_zero = λ sst e. ap (λ (t : Table). t.0.level) (made_is sst e);
  newest = λ sst e. tt;
  new_name = λ sst e. refl;
}

flush_round-Get_example :
    db_get sorted_list get (flush_round meta_of flush_fn flush_env older flushing_db) (1 ∷ [])
    ≡ db_get sorted_list get flushing_db (1 ∷ [])
flush_round-Get_example =
    flush_round-Get sorted_list get meta_of flush_fn flushing_db 2 older (newer ∷ [])
      older-IsFlushable flush_env (1 ∷ [])
      (λ sst e. ap (λ (t : Table). get t (1 ∷ [])) (made_is sst e))

-- A table in its file, of the oldest memtable's two entries.
abbrev DiskTable : Type 0
DiskTable = TableMeta × Table.Table

abbrev two_entries : List Entry
two_entries = (1 ∷ [], 9 ∷ []) ∷ (2 ∷ [], 8 ∷ 8 ∷ []) ∷ []

two_entries-Sorted : Sorted two_entries
unfolding bytes_compare
two_entries-Sorted = ((refl, tt), (tt, tt))

abbrev any_hash : List ℕ → ℕ → ℕ
any_hash b seed = seed

abbrev one_word : Filter
one_word = record { words = 0 ∷ []; num_bits = 64; num_hashes = 2; seed = 7 }

abbrev done : Writer
done = record {
  block = [];
  current_range = no_range;
  offset = 50;
  ranges = record { first_key = 1 ∷ []; offset = 33; size = 17 } ∷ [];
  written = encode_entries two_entries;
  filter = (add any_hash (add any_hash one_word (1 ∷ [])).0 (2 ∷ [])).0;
}

abbrev byte : ℕ
byte = 3

abbrev filter_bytes : List ℕ
filter_bytes = replicate 33 byte

abbrev stale : List ℕ
stale = replicate sstable_block_size byte

abbrev disk_table : DiskTable
disk_table = (new_meta, table_of done none filter_bytes (7 ∷ []))

abbrev full_heap : ℕ → SortedEntries
full_heap a = (two_entries, two_entries-Sorted)

abbrev full_db : Db SortedEntries DiskTable
full_db = db_over full_heap (older ∷ newer ∷ [])

abbrev disk_meta : DiskTable → TableMeta
disk_meta t = t.0

abbrev flush_to_disk : SortedEntries → Result DiskTable
flush_to_disk m = ok disk_table

abbrev disk_file : DiskTable → Table.Table
disk_file t = t.1

abbrev no_levels : LevelState DiskTable
no_levels = record { levels = []; flat_meta = []; flat_tables = [] }

abbrev one_level : LevelState Table
one_level = record {
  levels =
      record { level = 0; meta = new_meta ∷ []; tables = (new_meta, (one_entry (8 ∷ [])).0) ∷ [] }
      ∷ [];
  flat_meta = new_meta ∷ [];
  flat_tables = (new_meta, (one_entry (8 ∷ [])).0) ∷ [];
}

newer_built :
    build_level_state
      (name_of meta_of flush_fn)
      (new_meta ∷ [])
      ((new_meta, (one_entry (8 ∷ [])).0) ∷ [])
    ≡ ok one_level
unfolding build_level_state sort_table_meta_for_level bytes_equal
newer_built = refl

flush_round_stale_example :
    (db_get sorted_list get flushing_db (1 ∷ []) ≡ read_stored_value (some empty_log) (8 ∷ []))
    × (db_get sorted_list get (flush_round meta_of flush_fn flush_env newer flushing_db) (1 ∷ [])
        ≡ read_stored_value (some empty_log) (7 ∷ []))
flush_round_stale_example =
    flush_round_stale sorted_list get meta_of flush_fn flush_env flushing_db older newer (1 ∷ [])
      (7 ∷ []) (8 ∷ []) tt tt (new_meta, (one_entry (8 ∷ [])).0) one_level
      (unfold snapshot_read_state_locked in refl) refl refl (λ e. absurd (omega (arith, e)))
      (unfold search_memtable find in refl) (unfold find bytes_equal in refl)
      (unfold find bytes_equal in refl) (unfold sync_value_log sync active_is_open in refl) refl
      (unfold replace_tables write in refl) newer_built

-- A log of two puts, of which the second is cut.
abbrev torn_logs : List TornLog
torn_logs = (20, two_puts) ∷ []

abbrev given : OpenOptions
given = record {
  memtable_max_bytes = 4;
  wal_sync_interval = 0;
  value_threshold = 64;
  async_writes = false;
  write_batch_window = none;
}

abbrev empty_store : ManifestStore
empty_store = record { state = record { version = 1; tables = [] }; file = none }

abbrev found : Found lists Table
found =
    after_crash lists (λ (t : Table). t.0.filename) empty_store [] empty_log torn_logs
      ((1 ∷ []) ∷ []) (2 ∷ [])

-- The channel has a request and the nil of stopWrites.
abbrev stopping_queue : List (Option Entry)
stopping_queue = some ((2 ∷ []), (5 ∷ [])) ∷ none ∷ []

abbrev waiting : Waiting
waiting = record {
  write_batch_window = 9;
  async_writes = false;
  wal_sync_interval = 0;
  submitters = 1;
}

collect_write_batch-Drained_example :
    let c = collect_write_batch waiting [] ((1 ∷ []), (7 ∷ [])) stopping_queue in
    Drained (some ((1 ∷ []), (7 ∷ [])) ∷ stopping_queue) c
    ⊎ ((0 < waiting.write_batch_window)
        × Drained (some ((1 ∷ []), (7 ∷ [])) ∷ (stopping_queue ++ [])) c)
collect_write_batch-Drained_example =
    collect_write_batch-Drained waiting [] ((1 ∷ []), (7 ∷ [])) stopping_queue
