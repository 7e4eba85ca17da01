-- ===== src/Db/Flushing.antt =====
-- db.go: flushLoop for one immutable memtable, with installFlushedTable.
use seol.Base.{ℕ, Bool, Option, none, some, List, [], ◌∷◌, ◌==◌, if◌then◌else◌}
use seol.Base.Result.{Result, ok, err, io_error, value_log_nil}
use seol.Base.Order.{bytes_equal}
use seol.Compaction.{TableMeta}
use seol.Compaction.Grouping.{LevelState, build_level_state}
use seol.Db.{Db, ImmutableMemtable, publish_read_state_locked, set_flush_err_if_nil}
use seol.Manifest
use seol.Manifest.{replace_tables}
use seol.Vlog
use seol.Vlog.{Log, sync}

-- What the operating system does: the Sync of the value log, the writing of the manifest, and
-- whether the log's files are removed.
pub record Env : Type 0 where
  pub value_log : Vlog.Outcome
  pub manifest : Manifest.Outcome
  pub removes : Bool

-- The first that is the memtable is removed.
unfoldable pub remove_immutable :
    ImmutableMemtable → List ImmutableMemtable → List ImmutableMemtable
remove_immutable imm [] = []
remove_immutable imm (other ∷ rest) =
    let kept = remove_immutable imm rest in if other.table == imm.table then rest else other ∷ kept

unfoldable pub without_path : List ℕ → List (List ℕ) → List (List ℕ)
without_path path [] = []
without_path path (p ∷ paths) =
    let rest = without_path path paths in if bytes_equal p path then rest else p ∷ rest

-- `removes` is whether os.Remove succeeds; a file that is not there is no error.
unfoldable pub remove_wal_files :
    Bool → List (List ℕ) → List (List ℕ) → Result (Unit {0}) × List (List ℕ)
unfolding without_path
remove_wal_files removes [] files = (ok tt, files)
remove_wal_files removes (p ∷ paths) files =
    let rest = remove_wal_files removes paths (without_path p files) in
    if removes then rest else (err io_error, files)

unfoldable pub sync_value_log : Env → Option Log → Result (Unit {0})
sync_value_log env none = err value_log_nil
sync_value_log env (some log) = sync log env.value_log

-- `meta_of` is tableMetaFromSST at level 0, and `flush_fn` the database's flushFn.
module _ {M T : Type 0} (meta_of : T → TableMeta) (flush_fn : M → Result T) where
  abbrev pub name_of : T → List ℕ
  name_of t = (meta_of t).filename

  unfoldable pub sync_value_log_for_flush : Env → Db M T → Result (Unit {0}) × Db M T
  unfolding set_flush_err_if_nil sync_value_log
  sync_value_log_for_flush env db = elim (sync_value_log env db.value_log) [
    | ok u ↦ (ok tt, db)
    | err e ↦ let (first, db') = set_flush_err_if_nil e db in (err first, db')
  ]

  unfoldable pub install_levels : T → LevelState T → Db M T → Db M T
  unfolding publish_read_state_locked
  install_levels sst state db = publish_read_state_locked (record db {
    sstables = state.flat_tables;
    levels = state.levels;
    table_meta = state.flat_meta;
  })

  unfoldable pub install_flushed_table :
      Env → ImmutableMemtable → T → Db M T → Result (Unit {0}) × Db M T
  unfolding remove_immutable install_levels
  install_flushed_table env imm sst db =
      let updated_meta = meta_of sst ∷ db.table_meta in
      let (written, manifest) = replace_tables db.manifest env.manifest updated_meta in
      let db' = record db { immutable = remove_immutable imm db.immutable; manifest = manifest } in
      elim written [
        | err e ↦ (err e, db')
        | ok u ↦ elim (build_level_state name_of updated_meta (sst ∷ db.sstables)) [
          | err e ↦ (err e, db')
          | ok state ↦ (ok tt, install_levels sst state db')
        ]
      ]

  -- The error is the database's, if it has none.
  unfoldable pub note_error : Result (Unit {0}) → Db M T → Db M T
  unfolding set_flush_err_if_nil
  note_error (ok u) db = db
  note_error (err e) db = (set_flush_err_if_nil e db).1

  unfoldable pub remove_wals : Env → ImmutableMemtable → Db M T → Db M T
  unfolding note_error remove_wal_files
  remove_wals env imm db =
      let (result, files) = remove_wal_files env.removes imm.wal_paths db.wal_files in
      note_error result (record db { wal_files = files })

  unfoldable pub after_install : Env → ImmutableMemtable → Result (Unit {0}) × Db M T → Db M T
  after_install env imm (err e, db) = note_error (err e) db
  after_install env imm (ok u, db) = remove_wals env imm db

  unfoldable pub flush_made : Env → ImmutableMemtable → Db M T → Result T → Db M T
  unfolding after_install
  flush_made env imm db (err e) = note_error (err e) db
  flush_made env imm db (ok sst) = after_install env imm (install_flushed_table env imm sst db)

  unfoldable pub flush_synced : Env → ImmutableMemtable → Result (Unit {0}) × Db M T → Db M T
  unfolding flush_made
  flush_synced env imm (err e, db) = db
  flush_synced env imm (ok u, db) = flush_made env imm db (flush_fn (db.heap imm.table))

  -- The body of the loop of flushLoop, for what was received from `flush_ch`.
  unfoldable pub flush_round : Env → ImmutableMemtable → Db M T → Db M T
  unfolding flush_synced
  flush_round env imm db = flush_synced env imm (sync_value_log_for_flush env db)
