-- ===== src/Db/Opening.antt =====
-- db.go: normalizeOptions, replayWALs and openDB.
use seol.Base.{ℕ, suc, ◌+◌, ◌*◌, ◌^◌, Bool, false, Option, none, some, List, [], ◌∷◌, ◌++◌}
use seol.Base.{ltb, ◌==◌, if◌then◌else◌}
use seol.Base.Result.{Result, ok, err, ◌>>=◌, ◌>>◌, require, io_error}
use seol.Compaction.Building.{default_memtable_max_bytes}
use seol.Compaction.Grouping.{LevelState, build_level_state}
use seol.Db.{Db, publish_read_state_locked}
use seol.Manifest.{ManifestStore}
use seol.Memtable.{Memtable, memtable_arena_size}
use seol.Stored.{store_value_for_lsm, memtable_entry_size}
use seol.Vlog.{Log, Outcome}
use seol.Wal.Crashes.{create_wal}
use seol.Wal.Replay.{replay}

-- Durations are 0 where they are negative; `write_batch_window` is `none` where it is negative.
pub record OpenOptions : Type 0 where
  pub memtable_max_bytes : ℕ
  pub wal_sync_interval : ℕ
  pub value_threshold : ℕ
  pub async_writes : Bool
  pub write_batch_window : Option ℕ

abbrev pub default_value_threshold : ℕ
default_value_threshold = 2 * 2 ^ 10

-- In nanoseconds.
abbrev pub default_write_batch_window : ℕ
default_write_batch_window = 100 * 1000

abbrev pub or_default : ℕ → ℕ → ℕ
or_default n default = if n == 0 then default else n

unfoldable pub normalize_window : Option ℕ → Option ℕ
normalize_window none = some 0
normalize_window (some window) = some (or_default window default_write_batch_window)

unfoldable pub normalize_options : OpenOptions → OpenOptions
unfolding normalize_window
normalize_options opts = record opts {
  memtable_max_bytes = or_default opts.memtable_max_bytes default_memtable_max_bytes;
  value_threshold = or_default opts.value_threshold default_value_threshold;
  write_batch_window = normalize_window opts.write_batch_window;
}

abbrev pub window_of : Option ℕ → ℕ
window_of none = 0
window_of (some window) = window

-- The variables of replayWALs, with the value log and the number of the calls so far.
pub record Replaying (M : Type 0) : Type 0 where
  pub log : Option Log
  pub memtable : M
  pub memtable_bytes : ℕ
  pub count : ℕ

module _ {M : Type 0} (mem : Memtable M) where
  abbrev pub put_replayed : List ℕ → List ℕ → List ℕ → Option Log → Replaying M → Replaying M
  put_replayed key v stored log s = record {
    log = log;
    memtable = mem.put s.memtable key stored;
    memtable_bytes = s.memtable_bytes + memtable_entry_size key v;
    count = suc s.count;
  }

  -- The callback.
  unfoldable pub replay_entry :
      (ℕ → Outcome) → ℕ → List ℕ → List ℕ → Replaying M → Result (Replaying M)
  replay_entry outcomes threshold key v s =
      let (result, log) = store_value_for_lsm s.log (outcomes s.count) threshold key v in
      elim result [ err e ↦ err e | ok stored ↦ ok (put_replayed key v stored log s) ]

  -- The files are the bytes that the logs hold, the oldest first.
  unfoldable pub replay_wals :
      (ℕ → Outcome) → ℕ → List (List ℕ) → Replaying M → Result (Replaying M)
  unfolding replay_entry replay
  replay_wals outcomes threshold [] s = ok s
  replay_wals outcomes threshold (file ∷ files) s = do
    s' ← replay (replay_entry outcomes threshold) file s
    replay_wals outcomes threshold files s'

  -- What openDB finds: the results of openManifest, of opening the manifest's tables and of
  -- vlog.Open, the logs with their paths, and whether a new log is created, and at which path.
  pub record Found (T : Type 0) : Type 0 where
    pub manifest : Result ManifestStore
    pub tables : Result (List T)
    pub value_log : Result Log
    pub wals : List (List ℕ)
    pub wal_paths : List (List ℕ)
    pub creates_wal : Bool
    pub wal_path : List ℕ

  module _ {T : Type 0} (name_of : T → List ℕ) where
    -- The memtable has address 0.
    unfoldable pub new_db :
        OpenOptions → Found T → ManifestStore → LevelState T → Replaying M → Db M T
    unfolding publish_read_state_locked
    new_db opts found manifest state s = publish_read_state_locked (record {
      memtable_max_bytes = opts.memtable_max_bytes;
      wal_sync_interval = opts.wal_sync_interval;
      value_threshold = opts.value_threshold;
      async_writes = opts.async_writes;
      write_batch_window = window_of opts.write_batch_window;
      memtable = some 0;
      memtable_bytes = s.memtable_bytes;
      active_wal = some (create_wal (ltb 0 opts.wal_sync_interval));
      current_wal_paths = found.wal_paths ++ found.wal_path ∷ [];
      immutable = [];
      sstables = state.flat_tables;
      levels = state.levels;
      table_meta = state.flat_meta;
      manifest = manifest;
      value_log = s.log;
      flush_ch = [];
      wal_files = found.wal_path ∷ found.wal_paths;
      read_state = record {
        is_closed = false;
        memtable = none;
        immutable = [];
        sstables = [];
        levels = [];
      };
      flush_err = none;
      is_closed = false;
      heap = λ a. s.memtable;
      allocated = 1;
    })

    unfoldable pub open_db : (ℕ → Outcome) → OpenOptions → Found T → Result (Db M T)
    unfolding new_db replay_wals normalize_options
    open_db outcomes given found = do
      let opts = normalize_options given
      manifest ← found.manifest
      tables ← found.tables
      state ← build_level_state name_of manifest.state.tables tables
      log ← found.value_log
      s ← replay_wals outcomes opts.value_threshold found.wals (record {
        log = some log;
        memtable = mem.new (memtable_arena_size opts.memtable_max_bytes);
        memtable_bytes = 0;
        count = 0;
      })
      require found.creates_wal io_error
      ok (new_db opts found manifest state s)
