-- ===== src/Db/OutOfOrder.antt =====
-- db.go: a memtable that is flushed before an older one, after the older one's flush has failed.
use seol.Base.{ℕ, false, ◌≡◌, ◌≢◌, ap, ◌∙◌, arith}
use seol.Base.{Option, none, some, List, [], ◌∷◌}
use seol.Base.Result.{Result, ok}
use seol.Compaction.{TableMeta, read_stored_value}
use seol.Compaction.Grouping.{LevelState, build_level_state}
use seol.Db.{
  Db, ReadState, ImmutableMemtable, snapshot_read_state_locked, publish_read_state_locked,
  search_memtable, search_immutable, db_get,
}
use seol.Db.Flushing.{
  Env, name_of, remove_immutable, sync_value_log, install_levels, flush_made, flush_round,
  remove_wals,
}
use seol.Db.SameView.{SameView-Get, remove_wals-SameView, installed, is_synced, is_installed}
use seol.Manifest.{replace_tables}
use seol.Memtable.{Memtable}

module _ {M T : Type 0} (mem : Memtable M) (get : T → List ℕ → Result (Option (List ℕ)))
    (meta_of : T → TableMeta) (flush_fn : M → Result T) where
  -- What the newest immutable memtable with the key has is what Get answers.
  found_in_immutable :
      (db : Db M T) (key stored : List ℕ)
      → db.read_state.is_closed ≡ false
      → search_memtable mem get db.heap db.read_state.memtable key ≡ none
      → search_immutable mem get db.heap db.read_state.immutable key ≡ some stored
      → db_get mem get db key ≡ read_stored_value db.value_log stored
  unfolding db_get
  found_in_immutable db key stored opened current found = ground arith

  search_two :
      (heap : ℕ → M) (older newer : ImmutableMemtable) (key new : List ℕ)
      → mem.get (heap newer.table) key ≡ some new
      → search_immutable mem get heap (older ∷ newer ∷ []) key ≡ some new
  unfolding search_immutable
  search_two heap older newer key new e = ground arith

  search_one :
      (heap : ℕ → M) (older : ImmutableMemtable) (key old : List ℕ)
      → mem.get (heap older.table) key ≡ some old
      → search_immutable mem get heap (older ∷ []) key ≡ some old
  unfolding search_immutable
  search_one heap older key old e = ground arith

  keeps_older :
      (older newer : ImmutableMemtable)
      → older.table ≢ newer.table
      → remove_immutable newer (older ∷ newer ∷ []) ≡ older ∷ []
  unfolding remove_immutable
  keeps_older older newer differ = ground arith

  -- The flush loop goes on after an error: while an older memtable is kept, because its own flush
  -- failed, a newer one whose flush succeeds is taken from the queue, and for a key that both have
  -- and the current memtable has not, Get answers the newer value before this round and the older
  -- one after it. The two are the whole queue, and the round of the newer one fails nowhere before
  -- its installation.
  pub flush_round_stale :
      (env : Env) (db : Db M T) (older newer : ImmutableMemtable) (key old new : List ℕ)
      (u w : Unit {0}) (sst : T) (state : LevelState T)
      → db.read_state ≡ snapshot_read_state_locked db
      → db.is_closed ≡ false
      → db.immutable ≡ older ∷ newer ∷ []
      → older.table ≢ newer.table
      → search_memtable mem get db.heap db.memtable key ≡ none
      → mem.get (db.heap older.table) key ≡ some old
      → mem.get (db.heap newer.table) key ≡ some new
      → sync_value_log env db.value_log ≡ ok u
      → flush_fn (db.heap newer.table) ≡ ok sst
      → (replace_tables db.manifest env.manifest (meta_of sst ∷ db.table_meta)).0 ≡ ok w
      → build_level_state
          (name_of meta_of flush_fn)
          (meta_of sst ∷ db.table_meta)
          (sst ∷ db.sstables)
        ≡ ok state
      → (db_get mem get db key ≡ read_stored_value db.value_log new)
        × (db_get mem get (flush_round meta_of flush_fn env newer db) key
            ≡ read_stored_value db.value_log old)
  unfolding flush_round flush_made install_levels publish_read_state_locked
      snapshot_read_state_locked
  flush_round_stale env db older newer key old new u w sst state published opened imms differ
        current has_old has_new synced flushed written built =
      let after = installed meta_of flush_fn db newer env sst state in
      (
        found_in_immutable db key new (ap (λ (s : ReadState T). s.is_closed) published ∙ opened)
            (ap (λ (s : ReadState T). search_memtable mem get db.heap s.memtable key) published
              ∙ current)
            (ap (λ (s : ReadState T). search_immutable mem get db.heap s.immutable key) published
              ∙ ap (λ xs. search_immutable mem get db.heap xs key) imms
              ∙ search_two db.heap older newer key new has_new),
        rw (is_synced meta_of flush_fn db newer env u synced, flush_round)
            (rw (flushed, flush_made)
              (rw (is_installed meta_of flush_fn db newer env sst w state written built, flush_made)
                (SameView-Get mem get after (remove_wals meta_of flush_fn env newer after) key
                    (remove_wals-SameView meta_of flush_fn env newer after)
                  ∙ found_in_immutable after key old opened current (
                      ap (λ xs. search_immutable mem get db.heap (remove_immutable newer xs) key)
                        imms
                      ∙ ap (λ xs. search_immutable mem get db.heap xs key)
                          (keeps_older older newer differ)
                      ∙ search_one db.heap older key old has_old)))),
      )
