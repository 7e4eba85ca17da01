-- ===== src/Db/Flushes.antt =====
-- db.go: what Get answers while the flush loop moves a memtable to a table.
use seol.Base.{ℕ, suc, ◌<◌, Bool, false, ◌≡◌, refl, sym, ap, ◌∙◌, arith}
use seol.Base.{Option, none, some, List, [], ◌∷◌, ◌==◌, ==_refl, if◌then◌else◌, length, inl, inr}
use seol.Base.Result.{Error, Result, Result-cases, ok, err, closed, ◌>>=◌}
use seol.Compaction.{Level, TableMeta, lookup_tables, stored_in_levels}
use seol.Compaction.Grouping.{LevelState, build_level_state, table_by_name}
use seol.Compaction.Installed.{build_level_state-IsNewest, first_found}
use seol.Compaction.Newest.{Older}
use seol.Db.{
  Db, ReadState, ImmutableMemtable, snapshot_read_state_locked, publish_read_state_locked,
  set_flush_err_if_nil, search_memtable, search_immutable, db_get,
}
use seol.Db.Flushing.{
  Env, name_of, remove_immutable, sync_value_log, install_levels, note_error, remove_wals,
  flush_made, flush_round,
}
use seol.Base.{or_option}
use seol.Db.Views.{IsReady, resolve_found, stored_at, stored_in_tables, db_get-resolve}
use seol.Manifest.{replace_tables}
use seol.Db.SameView.{
  SameView, SameView-trans, set_flush_err_if_nil-SameView, note_error-SameView,
  remove_wals-SameView, SameView-Get, installed, not_synced, is_synced, not_installed, is_installed,
}
use seol.Memtable.{Memtable}

==_suc : (n : ℕ) → (suc n == 0) ≡ false
==_suc n = ground arith

if_open {ℓ} :
    {A : Type ℓ} (b : Bool) → b ≡ false → (r : Result A) → (if b then err closed else r) ≡ r
if_open b e r = rw e refl

-- An answer moves from behind the memtables to the front of the tables.
moved_answer :
    (m r i : Option (List ℕ)) (old new : Result (Option (List ℕ)))
    → new ≡ first_found (ok i) old
    → (elim (or_option m r) [ some s ↦ ok (some s) | none ↦ new ])
      ≡ (elim (or_option m (elim r [ some s ↦ some s | none ↦ i ])) [
        | some s ↦ ok (some s)
        | none ↦ old
      ])
moved_answer (some s) r i old new e = refl
moved_answer none (some s) i old new e = refl
moved_answer none none (some s) old new e = e
moved_answer none none none old new e = e

module _ {M T : Type 0} (mem : Memtable M) (get : T → List ℕ → Result (Option (List ℕ))) where
  -- What the flush relies on: the queue's head is the oldest memtable, the levels are those of the
  -- tables, and the table that is flushed is new and newer than all others.
  pub record IsFlushable (meta_of : T → TableMeta) (flush_fn : M → Result T) (db : Db M T)
      (address : ℕ) (imm : ImmutableMemtable) (rest : List ImmutableMemtable) : Type 0 where
    pub ready : IsReady db address
    pub oldest : db.immutable ≡ imm ∷ rest
    pub before : LevelState T
    pub built : build_level_state (name_of meta_of flush_fn) db.table_meta db.sstables ≡ ok before
    pub levels : db.levels ≡ before.levels
    pub no_tables : length db.levels ≡ 0 → db.sstables ≡ []
    pub level_zero : (sst : T) → flush_fn (db.heap imm.table) ≡ ok sst → (meta_of sst).level ≡ 0
    pub newest :
        (sst : T) → flush_fn (db.heap imm.table) ≡ ok sst → Older (meta_of sst) db.table_meta
    pub new_name :
        (sst : T)
        → flush_fn (db.heap imm.table) ≡ ok sst
        → table_by_name (name_of meta_of flush_fn) db.sstables (meta_of sst).filename ≡ none

  -- A table that the flush makes of a memtable answers for the key as the memtable.
  abbrev pub AnswersAs : (M → Result T) → M → List ℕ → Type 0
  AnswersAs flush_fn m key = (sst : T) → flush_fn m ≡ ok sst → get sst key ≡ ok (mem.get m key)

  remove_first :
      (imm : ImmutableMemtable) (rest : List ImmutableMemtable)
      → remove_immutable imm (imm ∷ rest) ≡ rest
  unfolding remove_immutable
  remove_first imm rest = rw (==_refl imm.table) refl

  levels_or_tables :
      (levels : List (Level T)) (tables : List T) (key : List ℕ)
      → (length levels ≡ 0 → tables ≡ [])
      → (if length levels == 0
          then lookup_tables get tables key
          else stored_in_levels get levels key)
        ≡ stored_in_levels get levels key
  unfolding stored_in_levels lookup_tables
  levels_or_tables [] tables key h = rw (h refl) refl
  levels_or_tables (l ∷ levels) tables key h = rw (==_suc (length levels)) refl

  module _ (meta_of : T → TableMeta) (flush_fn : M → Result T) (db : Db M T) (address : ℕ)
      (imm : ImmutableMemtable) (rest : List ImmutableMemtable)
      (v : IsFlushable meta_of flush_fn db address imm rest) where
    -- The table in front of the others answers what the memtable in front of them did.
    moved :
        (after : Db M T) (state : LevelState T) (sst : T) (key : List ℕ)
        → after.heap ≡ db.heap
        → after.read_state ≡ record (snapshot_read_state_locked db) {
          immutable = rest;
          sstables = state.flat_tables;
          levels = state.levels;
        }
        → 0 < length state.levels
        → stored_in_levels get state.levels key
          ≡ first_found (get sst key) (stored_in_levels get db.levels key)
        → get sst key ≡ ok (mem.get (db.heap imm.table) key)
        → stored_at mem get after key ≡ stored_at mem get db key
    unfolding snapshot_read_state_locked search_immutable
    moved after state sst key heap seen some_levels found answer =
        let seen_tables : ReadState T = record (snapshot_read_state_locked db) {
          immutable = rest;
          sstables = state.flat_tables;
          levels = state.levels;
        } in
        let old = stored_in_levels get db.levels key in
        let i = mem.get (db.heap imm.table) key in
        rw (seen, heap, v.ready.published, v.oldest)
          (moved_answer (search_memtable mem get db.heap db.memtable key)
            (search_immutable mem get db.heap rest key) i
            (stored_in_tables mem get (snapshot_read_state_locked db) key)
            (stored_in_tables mem get seen_tables key)
            (levels_or_tables state.levels state.flat_tables key (λ e. absurd (omega (arith, e)))
              ∙ found
              ∙ ap (λ r. first_found r old) answer
              ∙ ap (first_found (ok i))
                  (sym (levels_or_tables db.levels db.sstables key v.no_tables))))

    same_view : SameView db db
    same_view = record { read_state = refl; heap = refl; value_log = refl }

    -- An installation that fails shows readers nothing new.
    failed_install :
        (env : Env) (e : Error) (db' : Db M T)
        → SameView db db'
        → (key : List ℕ)
        → db_get mem get (note_error meta_of flush_fn (err e) db') key ≡ db_get mem get db key
    failed_install env e db' same key =
        SameView-Get mem get db (note_error meta_of flush_fn (err e) db') key (
          SameView-trans db db' (note_error meta_of flush_fn (err e) db') same
            (note_error-SameView meta_of flush_fn (err e) db'))

    installed-Get :
        (env : Env) (sst : T) (state : LevelState T) (key : List ℕ)
        → flush_fn (db.heap imm.table) ≡ ok sst
        → AnswersAs flush_fn (db.heap imm.table) key
        → 0 < length state.levels
        → ((key : List ℕ)
            → stored_in_levels get state.levels key
              ≡ first_found (get sst key) (stored_in_levels get db.levels key))
        → db_get mem get (installed meta_of flush_fn db imm env sst state) key
          ≡ db_get mem get db key
    unfolding install_levels publish_read_state_locked snapshot_read_state_locked
    installed-Get env sst state key e answers some_levels found =
        let after = installed meta_of flush_fn db imm env sst state in
        let same : stored_at mem get after key ≡ stored_at mem get db key =
          moved after state sst key refl
            (ap
              (λ (imms : List ImmutableMemtable). record (snapshot_read_state_locked db) {
                immutable = imms;
                sstables = state.flat_tables;
                levels = state.levels;
              })
              (ap (remove_immutable imm) v.oldest ∙ remove_first imm rest))
            some_levels (found key) (answers sst e) in
        db_get-resolve mem get after key
        ∙ if_open db.is_closed v.ready.open_db
            (stored_at mem get after key >>= resolve_found db.value_log)
        ∙ ap (λ r. r >>= resolve_found db.value_log) same
        ∙ sym (
            if_open db.read_state.is_closed
              (ap (λ (r : ReadState T). r.is_closed) v.ready.published ∙ v.ready.open_db)
              (stored_at mem get db key >>= resolve_found db.value_log))
        ∙ sym (db_get-resolve mem get db key)

    made-Get :
        (env : Env) (sst : T)
        → flush_fn (db.heap imm.table) ≡ ok sst
        → (key : List ℕ) → AnswersAs flush_fn (db.heap imm.table) key
        → db_get mem get (flush_made meta_of flush_fn env imm db (ok sst)) key
          ≡ db_get mem get db key
    unfolding flush_made
    made-Get env sst q2 key answers =
        let manifest = replace_tables db.manifest env.manifest (meta_of sst ∷ db.table_meta) in
        elim (Result-cases manifest.0) [
          | inr (e, q3) ↦
              rw (not_installed meta_of flush_fn db imm env sst e q3, flush_made)
                (failed_install env e
                  (record db {
                    immutable = remove_immutable imm db.immutable;
                    manifest = manifest.1;
                  })
                  (record { read_state = refl; heap = refl; value_log = refl }) key)
          | inl (w, q3) ↦
              let (state, q4, (some_levels, found)) =
                build_level_state-IsNewest (name_of meta_of flush_fn) (meta_of sst) sst db.sstables
                  refl (v.new_name sst q2) get db.table_meta v.before (v.level_zero sst q2)
                  (v.newest sst q2) v.built in
              rw (is_installed meta_of flush_fn db imm env sst w state q3 q4, flush_made)
                (SameView-Get mem get (installed meta_of flush_fn db imm env sst state)
                    (remove_wals meta_of flush_fn env imm
                      (installed meta_of flush_fn db imm env sst state))
                    key
                    (remove_wals-SameView meta_of flush_fn env imm
                      (installed meta_of flush_fn db imm env sst state))
                  ∙ installed-Get env sst state key q2 answers some_levels
                      (λ k. rw v.levels (found k)))
        ]

    -- A flush changes no answer that the table has as the memtable had it: a round of the flush loop
    -- for the oldest memtable in the queue leaves what Get answers for a key, and that on every
    -- branch: the sync of the value log, the flush, the writing of the manifest and the removal of
    -- the logs may each succeed or fail. The key is one for which a table that the flush makes of
    -- this memtable answers as the memtable, which a table does not for a value that is present and
    -- empty; the readers see the database's own open state, its levels are what buildLevelState
    -- makes of its tables, and the table that the flush makes, if it makes one, is of level 0, has a
    -- new name and is newer than every table.
    pub flush_round-Get :
        (env : Env) (key : List ℕ)
        → AnswersAs flush_fn (db.heap imm.table) key
        → db_get mem get (flush_round meta_of flush_fn env imm db) key ≡ db_get mem get db key
    unfolding flush_round
    flush_round-Get env key answers = elim (Result-cases (sync_value_log env db.value_log)) [
      | inr (e, q) ↦
          rw (not_synced meta_of flush_fn db imm env e q, flush_round)
            (SameView-Get mem get db (set_flush_err_if_nil e db).1 key
              (set_flush_err_if_nil-SameView e db))
      | inl (u, q) ↦
          rw (is_synced meta_of flush_fn db imm env u q, flush_round)
            (elim (Result-cases (flush_fn (db.heap imm.table))) [
              | inr (e, q2) ↦ rw (q2, flush_made) (failed_install env e db same_view key)
              | inl (sst, q2) ↦ rw q2 (made-Get env sst q2 key answers)
            ])
    ]
