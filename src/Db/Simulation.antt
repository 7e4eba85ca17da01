-- ===== src/Db/Simulation.antt =====
-- db.go: what processWriteBatch does with a database over histories is what it does with the memtables
-- of these histories: to put the same entries into them.
use seol.Base.{ℕ, zero, suc, ◌+◌, ◌-◌, not, ◌||◌, ◌≡◌, refl, sym, ap, ◌∙◌}
use seol.Base.{
  Option, none, some, List, [], ◌∷◌, ◌++◌, ◌==◌, ltb, if◌then◌else◌, length, drop, Bool-cases, inl,
  inr, replicate,
}
use seol.Base.Result.{Error, Result, Result-cases, ok, err, closed}
use seol.Db.{Db, ImmutableMemtable, publish_read_state_locked, store_at, set_flush_err_if_nil}
use seol.Db.Histories.{
  History, history, heap_at, realized_db, realized_round, put_all-realized, store_at-realized,
  set_flush_err-realized,
}
use seol.Db.Writing.{
  Env, Prepared, Round, close_wal, append_and_wait, batch_bytes, fail_write_requests, prepare,
  put_all, rotate_memtable, finish_round, rotate_if_crossing, write_prepared, keep_prep_err,
  write_or_fail, process_round, process_loop,
}
use seol.Memtable.{Memtable, memtable_arena_size}
use seol.Sstable.Blocks.{Entry}
use seol.Wal.{Wal}
use seol.Wal.Crashes.{create_wal}

-- The functions, each with what it calls first as an argument.
module _ {M : Type 0} (mem : Memtable M) {T : Type 0} where
  abbrev pub after_rotation : ℕ → List Entry → Prepared → Result (Unit {0}) × Db M T → Round M T
  after_rotation n batch p (result, db') = elim result [
    | ok u ↦ finish_round mem (replicate n (ok tt)) (drop n batch) p.prep_err db'
    | err e ↦
        let (first, db'') = set_flush_err_if_nil e db' in
        record {
          answers =
              replicate (n - 1) (ok tt) ++ (err first ∷ fail_write_requests (drop n batch) first);
          rest = [];
          db = db'';
        }
  ]

  pub rotate_if_crossing-split :
      (env : Env) (w : Wal) (address n : ℕ) (batch : List Entry) (p : Prepared) (db : Db M T)
      → rotate_if_crossing mem env w address n batch p db ≡ (
          if not p.crossing
          then finish_round mem (replicate n (ok tt)) (drop n batch) p.prep_err db
          else after_rotation n batch p (rotate_memtable mem env w address db))
  unfolding rotate_if_crossing
  rotate_if_crossing-split env w address n batch p db = refl

  abbrev pub after_append :
      Env → ℕ → List Entry → Prepared → Db M T → Result (Unit {0}) × Wal → Round M T
  after_append env address batch p db (result, w) =
      let db' = record db { active_wal = some w } in
      elim result [
        | err e ↦
            let (first, db'') = set_flush_err_if_nil e db' in
            record { answers = fail_write_requests batch first; rest = []; db = db'' }
        | ok u ↦
            let m = put_all mem p.stored (db.heap address) in
            rotate_if_crossing mem env w address (length p.stored) batch p (
              store_at address m
                (record db' { memtable_bytes = db.memtable_bytes + batch_bytes p.wal_batch }))
      ]

  pub write_prepared-split :
      (env : Env) (w : Wal) (address : ℕ) (batch : List Entry) (p : Prepared) (db : Db M T)
      → write_prepared mem env w address batch p db
        ≡ after_append env address batch p db
            (append_and_wait w env p.wal_batch (not db.async_writes || db.wal_sync_interval == 0))
  unfolding write_prepared
  write_prepared-split env w address batch p db = refl

  abbrev pub written_or_failed :
      Env → Wal → ℕ → List Entry → Prepared → Db M T → List Entry → Option Error → Round M T
  written_or_failed env w address batch p db stored prep_err = elim stored [
    | [] ↦ elim prep_err [
      | none ↦ record { answers = []; rest = []; db = db }
      | some e ↦ record { answers = fail_write_requests batch e; rest = []; db = db }
    ]
    | e ∷ es ↦ write_prepared mem env w address batch p db
  ]

  pub write_or_fail-split :
      (env : Env) (w : Wal) (address : ℕ) (batch : List Entry) (p : Prepared) (db : Db M T)
      → write_or_fail mem env w address batch (p, db)
        ≡ written_or_failed env w address batch p db p.stored p.prep_err
  unfolding write_or_fail
  write_or_fail-split env w address batch p db = refl

  abbrev pub started : Env → List Entry → Db M T → Option Error → Option Wal → Option ℕ → Round M T
  started env batch db flush_err active_wal memtable =
      let failed = λ (e : Error).
        let r : Round M T = record { answers = fail_write_requests batch e; rest = []; db = db } in
        r in
      elim flush_err [
        | some e ↦ failed e
        | none ↦ elim active_wal [
          | none ↦ failed closed
          | some w ↦ elim memtable [
            | none ↦ failed closed
            | some address ↦ write_or_fail mem env w address batch (
                keep_prep_err mem
                  (prepare env.value_log 0 db.value_threshold db.memtable_max_bytes
                    db.memtable_bytes db.value_log batch)
                  db)
          ]
        ]
      ]

  pub process_round-split :
      (env : Env) (batch : List Entry) (db : Db M T)
      → process_round mem env batch db ≡ started env batch db db.flush_err db.active_wal db.memtable
  unfolding process_round
  process_round-split env batch db = refl

module _ {M : Type 0} (mem : Memtable M) {T : Type 0} where
  -- The rotated database, but for the new memtable.
  abbrev with_new : Env → ℕ → Db M T → Db M T
  with_new env address db =
      let imm : ImmutableMemtable = record { table = address; wal_paths = db.current_wal_paths } in
      record (publish_read_state_locked (record db {
        immutable = db.immutable ++ imm ∷ [];
        memtable = some db.allocated;
        allocated = suc db.allocated;
        active_wal = some (create_wal (ltb 0 db.wal_sync_interval));
        current_wal_paths = env.wal_path ∷ [];
        wal_files = env.wal_path ∷ db.wal_files;
      })) { memtable_bytes = 0; flush_ch = db.flush_ch ++ imm ∷ [] }

  rotate_memtable-realized :
      (env : Env) (w : Wal) (address : ℕ) (db : Db (History M) T)
      → Path (Result (Unit {0}) × Db M T) (rotate_memtable mem env w address (realized_db mem db)) (
        (rotate_memtable (history mem) env w address db).0,
        realized_db mem (rotate_memtable (history mem) env w address db).1,
      )
  unfolding rotate_memtable publish_read_state_locked store_at put_all
  rotate_memtable-realized env w address db = elim (Bool-cases env.creates_wal) [
    | inr fails ↦ rw fails refl
    | inl creates ↦ elim (Result-cases (close_wal w env.last_flush env.closes_wal).0) [
      | inr (e, q) ↦ rw (creates, q) refl
      | inl (u, q) ↦
          rw (creates, q)
            (ap (λ (db' : Db M T). (let z : Result (Unit {0}) = ok tt in z, db'))
              (ap
                (λ (heap : ℕ → M). record (with_new env address (realized_db mem db)) {
                  heap = heap;
                })
                (heap_at mem db.heap db.allocated
                  (mem.new (memtable_arena_size db.memtable_max_bytes), []))))
    ]
  ]

  finish_round-realized :
      (answers : List (Result (Unit {0}))) (rest : List Entry) (prep_err : Option Error)
      (db : Db (History M) T)
      → finish_round mem answers rest prep_err (realized_db mem db)
        ≡ realized_round mem (finish_round (history mem) answers rest prep_err db)
  unfolding finish_round
  finish_round-realized answers rest none db = refl
  finish_round-realized answers rest (some e) db = refl

  after_rotation-realized :
      (n : ℕ) (batch : List Entry) (p : Prepared) (r : Result (Unit {0}) × Db (History M) T)
      → after_rotation mem n batch p (r.0, realized_db mem r.1)
        ≡ realized_round mem (after_rotation (history mem) n batch p r)
  after_rotation-realized n batch p (ok u, db) =
      finish_round-realized (replicate n (ok tt)) (drop n batch) p.prep_err db
  after_rotation-realized n batch p (err e, db) = rw (set_flush_err-realized mem e db) refl

  rotate_if_crossing-realized :
      (env : Env) (w : Wal) (address n : ℕ) (batch : List Entry) (p : Prepared)
      (db : Db (History M) T)
      → rotate_if_crossing mem env w address n batch p (realized_db mem db)
        ≡ realized_round mem (rotate_if_crossing (history mem) env w address n batch p db)
  rotate_if_crossing-realized env w address n batch p db =
      rotate_if_crossing-split mem env w address n batch p (realized_db mem db)
      ∙ (elim (Bool-cases p.crossing) [
        | inr stays ↦
            rw stays (finish_round-realized (replicate n (ok tt)) (drop n batch) p.prep_err db)
        | inl crosses ↦ rw crosses (
            ap (after_rotation mem n batch p) (rotate_memtable-realized env w address db)
            ∙ after_rotation-realized n batch p (rotate_memtable (history mem) env w address db))
      ])
      ∙ ap (realized_round mem)
          (sym (rotate_if_crossing-split (history mem) env w address n batch p db))

  after_append-realized :
      (env : Env) (address : ℕ) (batch : List Entry) (p : Prepared) (db : Db (History M) T)
      (r : Result (Unit {0}) × Wal)
      → after_append mem env address batch p (realized_db mem db) r
        ≡ realized_round mem (after_append (history mem) env address batch p db r)
  after_append-realized env address batch p db (err e, w) =
      rw (set_flush_err-realized mem e (record db { active_wal = some w })) refl
  after_append-realized env address batch p db (ok u, w) =
      let db' = record db {
        active_wal = some w;
        memtable_bytes = db.memtable_bytes + batch_bytes p.wal_batch;
      } in
      ap
        (λ (m : M).
          rotate_if_crossing mem env w address (length p.stored) batch p
            (store_at address m (realized_db mem db')))
        (put_all-realized mem p.stored (db.heap address))
      ∙ ap (rotate_if_crossing mem env w address (length p.stored) batch p)
          (store_at-realized mem address (put_all (history mem) p.stored (db.heap address)) db')
      ∙ rotate_if_crossing-realized env w address (length p.stored) batch p
          (store_at address (put_all (history mem) p.stored (db.heap address)) db')

  write_prepared-realized :
      (env : Env) (w : Wal) (address : ℕ) (batch : List Entry) (p : Prepared)
      (db : Db (History M) T)
      → write_prepared mem env w address batch p (realized_db mem db)
        ≡ realized_round mem (write_prepared (history mem) env w address batch p db)
  write_prepared-realized env w address batch p db =
      write_prepared-split mem env w address batch p (realized_db mem db)
      ∙ after_append-realized env address batch p db
          (append_and_wait w env p.wal_batch (not db.async_writes || db.wal_sync_interval == 0))
      ∙ ap (realized_round mem) (sym (write_prepared-split (history mem) env w address batch p db))

  keep_prep_err-realized :
      (p : Prepared) (db : Db (History M) T)
      → Path (Prepared × Db M T) (keep_prep_err mem p (realized_db mem db)) (
        (keep_prep_err (history mem) p db).0,
        realized_db mem (keep_prep_err (history mem) p db).1,
      )
  unfolding keep_prep_err
  keep_prep_err-realized p db =
      elim p.prep_err
        as (λ (o : Option Error).
          Path (Prepared × Db M T)
            (keep_prep_err mem (record p { prep_err = o }) (realized_db mem db))
            (
              (keep_prep_err (history mem) (record p { prep_err = o }) db).0,
              realized_db mem (keep_prep_err (history mem) (record p { prep_err = o }) db).1,
            )) [
              | none ↦ refl
              | some e ↦ rw (set_flush_err-realized mem e (record db { value_log = p.log })) refl
            ]

  write_or_fail-realized :
      (env : Env) (w : Wal) (address : ℕ) (batch : List Entry) (x : Prepared × Db (History M) T)
      → write_or_fail mem env w address batch (x.0, realized_db mem x.1)
        ≡ realized_round mem (write_or_fail (history mem) env w address batch x)
  write_or_fail-realized env w address batch (p, db) =
      write_or_fail-split mem env w address batch p (realized_db mem db)
      ∙ go p.stored p.prep_err
      ∙ ap (realized_round mem) (sym (write_or_fail-split (history mem) env w address batch p db))
    where
      go :
          (stored : List Entry) (o : Option Error)
          → written_or_failed mem env w address batch p (realized_db mem db) stored o
            ≡ realized_round mem (written_or_failed (history mem) env w address batch p db stored o)
      go [] none = refl
      go [] (some e) = refl
      go (e ∷ es) o = write_prepared-realized env w address batch p db

  pub process_round-realized :
      (env : Env) (batch : List Entry) (db : Db (History M) T)
      → process_round mem env batch (realized_db mem db)
        ≡ realized_round mem (process_round (history mem) env batch db)
  process_round-realized env batch db =
      process_round-split mem env batch (realized_db mem db)
      ∙ go db.flush_err db.active_wal db.memtable
      ∙ ap (realized_round mem) (sym (process_round-split (history mem) env batch db))
    where
      go :
          (o : Option Error) (wal : Option Wal) (a : Option ℕ)
          → started mem env batch (realized_db mem db) o wal a
            ≡ realized_round mem (started (history mem) env batch db o wal a)
      go (some e) wal a = refl
      go none none a = refl
      go none (some w) none = refl
      go none (some w) (some address) =
          let p =
            prepare env.value_log 0 db.value_threshold db.memtable_max_bytes db.memtable_bytes
              db.value_log batch in
          ap (write_or_fail mem env w address batch) (keep_prep_err-realized p db)
          ∙ write_or_fail-realized env w address batch (keep_prep_err (history mem) p db)

  pub process_loop-realized :
      (fuel : ℕ) (envs : ℕ → Env) (i : ℕ) (batch : List Entry) (db : Db (History M) T)
      → Path
          (List (Result (Unit {0})) × Db M T)
          (process_loop mem fuel envs i batch (realized_db mem db))
          (
            (process_loop (history mem) fuel envs i batch db).0,
            realized_db mem (process_loop (history mem) fuel envs i batch db).1,
          )
  unfolding process_loop
  process_loop-realized zero envs i batch db = refl
  process_loop-realized (suc fuel) envs i [] db = refl
  process_loop-realized (suc fuel) envs i (req ∷ batch) db =
      let r = process_round (history mem) (envs i) (req ∷ batch) db in
      ap
        (λ (x : Round M T).
          let (answers, db') = process_loop mem fuel envs (suc i) x.rest x.db in
          (x.answers ++ answers, db'))
        (process_round-realized (envs i) (req ∷ batch) db)
      ∙ ap (λ (x : List (Result (Unit {0})) × Db M T). (r.answers ++ x.0, x.1))
          (process_loop-realized fuel envs (suc i) r.rest r.db)
