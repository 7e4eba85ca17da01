-- ===== src/Db.antt =====
-- db.go: the database's state, the state that readers see, and Get. A memtable is a pointer, which
-- the database, its queues and the readers share: an address into `heap`.
pub mod Writing
pub mod Views
pub mod Preparing
pub mod Represents
pub mod Rotation
pub mod Rounds
pub mod Serving
pub mod Round
pub mod Histories
pub mod Simulation
pub mod Batches
pub mod Written
pub mod Flushing
pub mod SameView
pub mod Flushes
pub mod FlushedTables
pub mod OutOfOrder
pub mod Opening
pub mod Replays
pub mod Reopened
pub mod Collecting
pub mod Samples
mod Examples
use seol.Base.{ℕ, ◌+◌, Bool, true, false, Option, none, some, List, [], ◌∷◌}
use seol.Base.{◌==◌, if◌then◌else◌, length}
use seol.Base.Result.{Error, Result, ok, err, closed}
use seol.Compaction.{TableMeta, Level, lookup_tables, lookup_levels, read_stored_value}
use seol.Manifest.{ManifestStore}
use seol.Memtable.{Memtable}
use seol.Vlog.{Log}
use seol.Wal.{Wal}

-- `table` is the memtable's address, and stands for the pointer to the struct too: no two of them
-- share a memtable. A path is its bytes.
pub record ImmutableMemtable : Type 0 where
  pub table : ℕ
  pub wal_paths : List (List ℕ)

-- What readers see, behind an atomic pointer. The value log is a pointer to the database's own.
pub record ReadState (T : Type 0) : Type 0 where
  pub is_closed : Bool
  pub memtable : Option ℕ
  pub immutable : List ImmutableMemtable
  pub sstables : List T
  pub levels : List (Level T)

-- `wal_sync_interval` and `write_batch_window` are durations, 0 where they are not positive.
-- `flush_ch` is what is queued for the flush loop, and `wal_files` the paths of the logs that exist.
pub record Db (M T : Type 0) : Type 0 where
  pub memtable_max_bytes : ℕ
  pub wal_sync_interval : ℕ
  pub value_threshold : ℕ
  pub async_writes : Bool
  pub write_batch_window : ℕ
  pub memtable : Option ℕ
  pub memtable_bytes : ℕ
  pub active_wal : Option Wal
  pub current_wal_paths : List (List ℕ)
  pub immutable : List ImmutableMemtable
  pub sstables : List T
  pub levels : List (Level T)
  pub table_meta : List TableMeta
  pub manifest : ManifestStore
  pub value_log : Option Log
  pub flush_ch : List ImmutableMemtable
  pub wal_files : List (List ℕ)
  pub read_state : ReadState T
  pub flush_err : Option Error
  pub is_closed : Bool
  pub heap : ℕ → M
  pub allocated : ℕ

module _ {M T : Type 0} where
  unfoldable pub snapshot_read_state_locked : Db M T → ReadState T
  snapshot_read_state_locked db = record {
    is_closed = db.is_closed;
    memtable = db.memtable;
    immutable = db.immutable;
    sstables = db.sstables;
    levels = db.levels;
  }

  unfoldable pub publish_read_state_locked : Db M T → Db M T
  unfolding snapshot_read_state_locked
  publish_read_state_locked db = record db { read_state = snapshot_read_state_locked db }

  -- A write through the pointer.
  unfoldable pub store_at : ℕ → M → Db M T → Db M T
  store_at address m db = record db { heap = λ a. if address == a then m else db.heap a }

  unfoldable pub set_flush_err_if_nil : Error → Db M T → Error × Db M T
  set_flush_err_if_nil e db = elim db.flush_err [
    | some first ↦ (first, db)
    | none ↦ (e, record db { flush_err = some e })
  ]

module _ {M T : Type 0} (mem : Memtable M) (get : T → List ℕ → Result (Option (List ℕ))) where
  -- The loop over the immutable memtables runs from the last, which is the newest.
  unfoldable pub search_immutable : (ℕ → M) → List ImmutableMemtable → List ℕ → Option (List ℕ)
  search_immutable heap [] key = none
  search_immutable heap (imm ∷ rest) key = elim (search_immutable heap rest key) [
    | some stored ↦ some stored
    | none ↦ mem.get (heap imm.table) key
  ]

  unfoldable pub search_memtable : (ℕ → M) → Option ℕ → List ℕ → Option (List ℕ)
  search_memtable heap none key = none
  search_memtable heap (some address) key = mem.get (heap address) key

  -- The tables, without levels where there are none.
  unfoldable pub search_tables : ReadState T → Option Log → List ℕ → Result (Option (List ℕ))
  unfolding lookup_levels lookup_tables
  search_tables state value_log key =
      if length state.levels == 0
      then (elim (lookup_tables get state.sstables key) [
        | err e ↦ err e
        | ok found ↦ elim found [
          | none ↦ ok none
          | some stored ↦ read_stored_value value_log stored
        ]
      ])
      else lookup_levels get state.levels value_log key

  unfoldable pub db_get : Db M T → List ℕ → Result (Option (List ℕ))
  unfolding search_memtable search_immutable search_tables
  db_get db key =
      let state = db.read_state in
      if state.is_closed then err closed else elim (search_memtable db.heap state.memtable key) [
        | some stored ↦ read_stored_value db.value_log stored
        | none ↦ elim (search_immutable db.heap state.immutable key) [
          | some stored ↦ read_stored_value db.value_log stored
          | none ↦ search_tables state db.value_log key
        ]
      ]
