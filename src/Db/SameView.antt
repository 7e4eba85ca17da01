-- ===== src/Db/SameView.antt =====
-- db.go: changes of the flush loop that Get does not see, and their equations.
use seol.Base.{ℕ, ◌≡◌, refl, sym, ◌∙◌}
use seol.Base.{Option, List, ◌∷◌, Option-cases, inl, inr}
use seol.Base.Result.{Error, Result, ok, err}
use seol.Compaction.{TableMeta}
use seol.Compaction.Grouping.{LevelState, build_level_state}
use seol.Db.{Db, ImmutableMemtable, set_flush_err_if_nil, db_get}
use seol.Db.Flushing.{
  Env, name_of, remove_immutable, remove_wal_files, sync_value_log, sync_value_log_for_flush,
  install_levels, install_flushed_table, note_error, remove_wals,
}
use seol.Db.Views.{db_get-resolve}
use seol.Manifest.{replace_tables}
use seol.Memtable.{Memtable}

-- Get cannot tell the databases apart.
pub record SameView {M T : Type 0} (db after : Db M T) : Type 0 where
  pub read_state : after.read_state ≡ db.read_state
  pub heap : after.heap ≡ db.heap
  pub value_log : after.value_log ≡ db.value_log

module _ {M T : Type 0} where
  pub SameView-trans : (a b c : Db M T) → SameView a b → SameView b c → SameView a c
  SameView-trans a b c p q = record {
    read_state = q.read_state ∙ p.read_state;
    heap = q.heap ∙ p.heap;
    value_log = q.value_log ∙ p.value_log;
  }

  pub set_flush_err_if_nil-SameView :
      (e : Error) (db : Db M T) → SameView db (set_flush_err_if_nil e db).1
  unfolding set_flush_err_if_nil
  set_flush_err_if_nil-SameView e db = elim (Option-cases db.flush_err) [
    | inl q ↦ rw q (record { read_state = refl; heap = refl; value_log = refl })
    | inr (first, q) ↦ rw q (record { read_state = refl; heap = refl; value_log = refl })
  ]

module _ {M T : Type 0} (meta_of : T → TableMeta) (flush_fn : M → Result T) where
  pub note_error-SameView :
      (r : Result (Unit {0})) (db : Db M T) → SameView db (note_error meta_of flush_fn r db)
  unfolding note_error
  note_error-SameView (ok u) db = record { read_state = refl; heap = refl; value_log = refl }
  note_error-SameView (err e) db = set_flush_err_if_nil-SameView e db

  pub remove_wals-SameView :
      (env : Env) (imm : ImmutableMemtable) (db : Db M T)
      → SameView db (remove_wals meta_of flush_fn env imm db)
  unfolding remove_wals
  remove_wals-SameView env imm db =
      let removed = remove_wal_files env.removes imm.wal_paths db.wal_files in
      let after = record db { wal_files = removed.1 } in
      SameView-trans db after (note_error meta_of flush_fn removed.0 after)
        (record { read_state = refl; heap = refl; value_log = refl })
        (note_error-SameView removed.0 after)

module _ {M T : Type 0} (mem : Memtable M) (get : T → List ℕ → Result (Option (List ℕ))) where
  pub SameView-Get :
      (db after : Db M T) (key : List ℕ)
      → SameView db after
      → db_get mem get after key ≡ db_get mem get db key
  SameView-Get db after key v =
      db_get-resolve mem get after key
      ∙ rw (v.read_state, v.heap, v.value_log) (sym (db_get-resolve mem get db key))

-- The steps of the flush loop, one equation for each outcome.
module _ {M T : Type 0} (meta_of : T → TableMeta) (flush_fn : M → Result T) (db : Db M T)
    (imm : ImmutableMemtable) where
  -- The database in which the table is installed, before the logs are removed.
  abbrev pub installed : Env → T → LevelState T → Db M T
  installed env sst state = install_levels meta_of flush_fn sst state (record db {
    immutable = remove_immutable imm db.immutable;
    manifest = (replace_tables db.manifest env.manifest (meta_of sst ∷ db.table_meta)).1;
  })

  pub not_synced :
      (env : Env) (e : Error)
      → sync_value_log env db.value_log ≡ err e
      → sync_value_log_for_flush meta_of flush_fn env db
        ≡ (err (set_flush_err_if_nil e db).0, (set_flush_err_if_nil e db).1)
  unfolding sync_value_log_for_flush
  not_synced env e q = rw (q, sync_value_log_for_flush) refl

  pub is_synced :
      (env : Env) (u : Unit {0})
      → sync_value_log env db.value_log ≡ ok u
      → sync_value_log_for_flush meta_of flush_fn env db ≡ (ok tt, db)
  unfolding sync_value_log_for_flush
  is_synced env u q = rw (q, sync_value_log_for_flush) refl

  pub not_installed :
      (env : Env) (sst : T) (e : Error)
      → (replace_tables db.manifest env.manifest (meta_of sst ∷ db.table_meta)).0 ≡ err e
      → install_flushed_table meta_of flush_fn env imm sst db ≡ (
        err e,
        record db {
          immutable = remove_immutable imm db.immutable;
          manifest = (replace_tables db.manifest env.manifest (meta_of sst ∷ db.table_meta)).1;
        },
      )
  unfolding install_flushed_table
  not_installed env sst e q = rw (q, install_flushed_table) refl

  pub is_installed :
      (env : Env) (sst : T) (w : Unit {0}) (state : LevelState T)
      → (replace_tables db.manifest env.manifest (meta_of sst ∷ db.table_meta)).0 ≡ ok w
      → build_level_state
          (name_of meta_of flush_fn)
          (meta_of sst ∷ db.table_meta)
          (sst ∷ db.sstables)
        ≡ ok state
      → install_flushed_table meta_of flush_fn env imm sst db ≡ (ok tt, installed env sst state)
  unfolding install_flushed_table
  is_installed env sst w state q r = rw (q, install_flushed_table) (rw r refl)
