-- ===== src/Db/Writing.antt =====
-- db.go: processWriteBatch and rotateMemtable, and appendBatch of wal.go with its wait.
use seol.Base.{
  ℕ, zero, suc, ◌+◌, ◌-◌, Bool, true, false, not, ◌||◌, Option, none, some, List, [], ◌∷◌, ◌++◌,
}
use seol.Base.{ltb, leb, ◌==◌, if◌then◌else◌, length, drop, replicate}
use seol.Base.Result.{Error, Result, ok, err, closed, io_error}
use seol.Db.{Db, ImmutableMemtable, publish_read_state_locked, store_at, set_flush_err_if_nil}
use seol.Memtable.{Memtable, memtable_arena_size}
use seol.Sstable.Blocks.{Entry}
use seol.Stored.{store_value_for_lsm, memtable_entry_size}
use seol.Vlog
use seol.Vlog.{Log}
use seol.Wal
use seol.Wal.{Wal, append_batch, must_wait, after_wait, sync_round, close_locked}
use seol.Wal.Crashes.{create_wal}

-- What the operating system does in a round of processWriteBatch: each append to the value log, the
-- write of the log, the rounds of its sync loop during the wait, and the rotation, in which a new
-- log is created or not, at a path that is new, and the old one is flushed and closed.
pub record Env : Type 0 where
  pub value_log : ℕ → Vlog.Outcome
  pub wal : Wal.Outcome
  pub rounds : List Wal.Outcome
  pub creates_wal : Bool
  pub wal_path : List ℕ
  pub last_flush : Wal.Outcome
  pub closes_wal : Bool

-- `for w.durable < target && w.syncErr == nil && !w.closed { w.cond.Wait() }`: a round of the sync
-- loop at a time.
unfoldable pub wait_loop : Wal → ℕ → List Wal.Outcome → Wal
wait_loop w target [] = w
wait_loop w target (o ∷ rounds) =
    let rest = wait_loop (sync_round w o).1 target rounds in if must_wait w target then rest else w

-- The whole of appendBatch: behind the write it waits, where there is a sync loop and `waits`.
unfoldable pub append_and_wait : Wal → Env → List Entry → Bool → Result (Unit {0}) × Wal
unfolding wait_loop
append_and_wait w env entries waits =
    let (result, w') = append_batch w env.wal entries in
    elim result [
      | err e ↦ (err e, w')
      | ok u ↦
          if length entries == 0 || not w'.is_buffered || not waits
          then (ok tt, w')
          else (let w'' = wait_loop w' w'.pending env.rounds in (after_wait w'' w'.pending, w''))
    ]

-- The whole of close: the sync loop, if there is one, makes its last round, and the file is closed.
unfoldable pub close_wal : Wal → Wal.Outcome → Bool → Result (Unit {0}) × Wal
close_wal w o closes =
    let locked = close_locked w o in
    let w' =
      if w.is_buffered then record (sync_round locked o).1 { has_file = false } else locked in
    if not w.has_file then (ok tt, w) else elim w'.sync_err [
      | some e ↦ (err e, w')
      | none ↦ (if closes then ok tt else err io_error, w')
    ]

-- The variables of the preparing loop. `stored` has each key with what is stored for it.
pub record Prepared : Type 0 where
  pub wal_batch : List Entry
  pub stored : List Entry
  pub crossing : Bool
  pub prep_err : Option Error
  pub log : Option Log

unfoldable pub also_prepared : Entry → List ℕ → Prepared → Prepared
also_prepared req stored p = record p {
  wal_batch = req ∷ p.wal_batch;
  stored = (req.0, stored) ∷ p.stored;
}

-- The loop over the requests, of which the first is the `i`-th of the round.
unfoldable pub prepare : (ℕ → Vlog.Outcome) → ℕ → ℕ → ℕ → ℕ → Option Log → List Entry → Prepared
unfolding also_prepared
prepare outcomes i threshold max_bytes projected log [] = record {
  wal_batch = [];
  stored = [];
  crossing = false;
  prep_err = none;
  log = log;
}
prepare outcomes i threshold max_bytes projected log (req ∷ batch) =
    let (result, log') = store_value_for_lsm log (outcomes i) threshold req.0 req.1 in
    elim result [
      | err e ↦ record {
        wal_batch = [];
        stored = [];
        crossing = false;
        prep_err = some e;
        log = log';
      }
      | ok stored ↦
          let projected' = projected + memtable_entry_size req.0 req.1 in
          let more = prepare outcomes (suc i) threshold max_bytes projected' log' batch in
          if leb max_bytes projected'
          then record {
            wal_batch = req ∷ [];
            stored = (req.0, stored) ∷ [];
            crossing = true;
            prep_err = none;
            log = log';
          }
          else also_prepared req stored more
    ]

abbrev pub batch_bytes : List Entry → ℕ
batch_bytes [] = 0
batch_bytes (req ∷ batch) = memtable_entry_size req.0 req.1 + batch_bytes batch

-- What the requests of a round were answered, the requests that are left, and the database.
pub record Round (M T : Type 0) : Type 0 where
  pub answers : List (Result (Unit {0}))
  pub rest : List Entry
  pub db : Db M T

unfoldable pub fail_write_requests : List Entry → Error → List (Result (Unit {0}))
fail_write_requests batch e = replicate (length batch) (err e)

module _ {M : Type 0} (mem : Memtable M) where
  unfoldable pub put_all : List Entry → M → M
  put_all [] m = m
  put_all (e ∷ es) m = put_all es (mem.put m e.0 e.1)

  module _ {T : Type 0} where
    -- A new memtable at a new address; the old one is queued for the flush.
    unfoldable pub rotate_memtable : Env → Wal → ℕ → Db M T → Result (Unit {0}) × Db M T
    unfolding publish_read_state_locked store_at memtable_arena_size close_wal
    rotate_memtable env w address db =
        let (closing, w') = close_wal w env.last_flush env.closes_wal in
        let imm : ImmutableMemtable = record {
          table = address;
          wal_paths = db.current_wal_paths;
        } in
        let new_db =
          store_at db.allocated (mem.new (memtable_arena_size db.memtable_max_bytes)) db in
        if not env.creates_wal then (err io_error, db) else elim closing [
          | err e ↦ (err e, record db { active_wal = some w' })
          | ok u ↦ (
            ok tt,
            record (publish_read_state_locked (record new_db {
              immutable = db.immutable ++ imm ∷ [];
              memtable = some db.allocated;
              allocated = suc db.allocated;
              active_wal = some (create_wal (ltb 0 db.wal_sync_interval));
              current_wal_paths = env.wal_path ∷ [];
              wal_files = env.wal_path ∷ db.wal_files;
            })) { memtable_bytes = 0; flush_ch = db.flush_ch ++ imm ∷ [] },
          )
        ]

    -- From `batch = batch[prepared:]` on.
    unfoldable pub finish_round :
        List (Result (Unit {0})) → List Entry → Option Error → Db M T → Round M T
    unfolding fail_write_requests
    finish_round answers rest prep_err db = elim prep_err [
      | none ↦ record { answers = answers; rest = rest; db = db }
      | some e ↦ record { answers = answers ++ fail_write_requests rest e; rest = []; db = db }
    ]

    -- The log has the records of the first `n` of the batch, and the memtable their entries.
    unfoldable pub rotate_if_crossing :
        Env → Wal → ℕ → ℕ → List Entry → Prepared → Db M T → Round M T
    unfolding rotate_memtable set_flush_err_if_nil fail_write_requests finish_round
    rotate_if_crossing env w address n batch p db =
        if not p.crossing
        then finish_round (replicate n (ok tt)) (drop n batch) p.prep_err db
        else (let (result, db') = rotate_memtable env w address db in
            elim result [
              | ok u ↦ finish_round (replicate n (ok tt)) (drop n batch) p.prep_err db'
              | err e ↦
                  let (first, db'') = set_flush_err_if_nil e db' in
                  record {
                    answers =
                        replicate (n - 1) (ok tt)
                        ++ (err first ∷ fail_write_requests (drop n batch) first);
                    rest = [];
                    db = db'';
                  }
            ])

    -- From the call of appendBatch on, for the requests that are prepared.
    unfoldable pub write_prepared : Env → Wal → ℕ → List Entry → Prepared → Db M T → Round M T
    unfolding append_and_wait rotate_if_crossing put_all store_at set_flush_err_if_nil
        fail_write_requests
    write_prepared env w address batch p db =
        let waits = not db.async_writes || db.wal_sync_interval == 0 in
        let (result, w') = append_and_wait w env p.wal_batch waits in
        let db' = record db { active_wal = some w' } in
        elim result [
          | err e ↦
              let (first, db'') = set_flush_err_if_nil e db' in
              record { answers = fail_write_requests batch first; rest = []; db = db'' }
          | ok u ↦
              let m = put_all p.stored (db.heap address) in
              rotate_if_crossing env w' address (length p.stored) batch p (
                store_at address m
                  (record db' { memtable_bytes = db.memtable_bytes + batch_bytes p.wal_batch }))
        ]

    -- With the error of the preparation kept as the database's, if it is the first.
    unfoldable pub keep_prep_err : Prepared → Db M T → Prepared × Db M T
    unfolding set_flush_err_if_nil
    keep_prep_err p db = elim p.prep_err [
      | none ↦ (p, record db { value_log = p.log })
      | some e ↦
          let (first, db') = set_flush_err_if_nil e (record db { value_log = p.log }) in
          (record p { prep_err = some first }, db')
    ]

    unfoldable pub write_or_fail : Env → Wal → ℕ → List Entry → Prepared × Db M T → Round M T
    unfolding write_prepared fail_write_requests
    write_or_fail env w address batch (p, db) = elim p.stored [
      | [] ↦ elim p.prep_err [
        | none ↦ record { answers = []; rest = []; db = db }
        | some e ↦ record { answers = fail_write_requests batch e; rest = []; db = db }
      ]
      | e ∷ es ↦ write_prepared env w address batch p db
    ]

    -- A round of the loop, for a batch that is not empty.
    unfoldable pub process_round : Env → List Entry → Db M T → Round M T
    unfolding prepare keep_prep_err write_or_fail fail_write_requests
    process_round env batch db =
        let failed = λ (e : Error).
          let r : Round M T = record {
            answers = fail_write_requests batch e;
            rest = [];
            db = db;
          } in
          r in
        elim db.flush_err [
          | some e ↦ failed e
          | none ↦ elim db.active_wal [
            | none ↦ failed closed
            | some w ↦ elim db.memtable [
              | none ↦ failed closed
              | some address ↦ write_or_fail env w address batch (
                  keep_prep_err
                    (prepare env.value_log 0 db.value_threshold db.memtable_max_bytes
                      db.memtable_bytes db.value_log batch)
                    db)
            ]
          ]
        ]

    -- `for len(batch) > 0`: each round answers a request at least, or ends the loop.
    unfoldable pub process_loop :
        ℕ → (ℕ → Env) → ℕ → List Entry → Db M T → List (Result (Unit {0})) × Db M T
    unfolding process_round
    process_loop zero envs i batch db = ([], db)
    process_loop (suc fuel) envs i [] db = ([], db)
    process_loop (suc fuel) envs i (req ∷ batch) db =
        let r = process_round (envs i) (req ∷ batch) db in
        let (answers, db') = process_loop fuel envs (suc i) r.rest r.db in
        (r.answers ++ answers, db')

    unfoldable pub process_write_batch :
        (ℕ → Env) → List Entry → Db M T → List (Result (Unit {0})) × Db M T
    unfolding process_loop
    process_write_batch envs batch db = process_loop (length batch) envs 0 batch db
