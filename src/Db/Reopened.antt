-- ===== src/Db/Reopened.antt =====
-- db.go: a database that is opened after a crash has in its memtable what was whole in its logs.
use seol.Base.{ℕ, true, ◌≡◌, none, some, List, [], ◌∷◌, ◌++◌}
use seol.Base.{ltb}
use seol.Base.Result.{ok}
use seol.Compaction.Grouping.{LevelState}
use seol.Db.{Db}
use seol.Db.Opening.{OpenOptions, Found}
use seol.Db.Preparing.{Matches}
use seol.Db.Views.{IsReady}
use seol.Db.Writing.{put_all}
use seol.Manifest.{ManifestStore}
use seol.Memtable.{Memtable, memtable_arena_size}
use seol.Sstable.Blocks.{Entry}
use seol.Vlog.{Log, Segment}
use seol.Vlog.Extends.{IsOpen, Extends}
use seol.Wal.Crashes.{create_wal}
use seol.Db.Replays.{TornLog, files_of}

module _ {M T : Type 0} (mem : Memtable M) (name_of : T → List ℕ) where
  -- What openDB finds where all can be read, and the logs are cut.
  abbrev pub after_crash :
      ManifestStore → List T → Log → List TornLog → List (List ℕ) → List ℕ → Found mem T
  after_crash manifest tables l torn wal_paths wal_path = record {
    manifest = ok manifest;
    tables = ok tables;
    value_log = ok l;
    wals = files_of torn;
    wal_paths = wal_paths;
    creates_wal = true;
    wal_path = wal_path;
  }

  -- The database that openDB makes: what is put into the new memtable resolves to the entries.
  pub record Recovered (opts : OpenOptions) (found : Found mem T) (state : LevelState T) (l : Log)
      (entries : List Entry) (db : Db M T) : Type 0 where
    pub ready : IsReady db 0
    pub stored : List Entry
    pub log : Log
    pub segment : Segment
    pub memtable :
        db.heap 0 ≡ put_all mem stored (mem.new (memtable_arena_size opts.memtable_max_bytes))
    pub matches : Matches log stored entries
    pub has_log : db.value_log ≡ some log
    pub extends : Extends l log
    pub opened : IsOpen log segment
    pub levels : (db.levels ≡ state.levels) × (db.sstables ≡ state.flat_tables)
    pub no_flushes : (db.immutable ≡ []) × (db.flush_ch ≡ []) × (db.flush_err ≡ none)
    pub wal :
        (db.active_wal ≡ some (create_wal (ltb 0 opts.wal_sync_interval)))
        × (db.current_wal_paths ≡ found.wal_paths ++ found.wal_path ∷ [])
