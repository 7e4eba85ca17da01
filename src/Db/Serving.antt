-- ===== src/Db/Serving.antt =====
-- db.go: a round of processWriteBatch from the append to the log on, and the whole of it.
use mathlib.Core.Path.{subst}
use seol.Base.{ℕ, suc, ◌+◌, ◌-◌, ◌^◌, ◌≤◌, ◌<◌, not, ◌||◌, ◌≡◌, refl, sym, ap, ◌∙◌, arith}
use seol.Base.{
  Option, none, some, List, [], ◌∷◌, ◌++◌, ◌==◌, length, take, drop, replicate, length-append,
  length-replicate, length-drop, take-append, Bool-cases, Option-cases, inl, inr,
}
use seol.Base.Result.{Error, Result, Result-cases, ok, err}
use seol.Db.{Db, set_flush_err_if_nil, snapshot_read_state_locked, store_at}
use seol.Db.Preparing.{batch_size, Matches, Matches-length}
use seol.Db.Represents.{Represents, updates, write-Represents}
use seol.Db.Rotation.{Alike, Alike-Represents, rotate_memtable-Represents}
use seol.Db.Rounds.{
  Serves, successes, failures, acknowledged_prefix, failed-Serves, finish_round-Serves,
}
use seol.Db.Views.{IsReady}
use seol.Db.Writing.{
  Env, Prepared, append_and_wait, fail_write_requests, put_all, rotate_memtable, rotate_if_crossing,
  write_prepared, batch_bytes,
}
use seol.Memtable.{Memtable, IsLawful}
use seol.Sstable.Blocks.{Entry}
use seol.Vlog.{Log, Segment}
use seol.Wal.{Wal}

module _ {M T : Type 0} (mem : Memtable M) (get : T → List ℕ → Result (Option (List ℕ)))
    (laws : IsLawful mem) where
  pub set_flush_err_if_nil-Alike :
      (e : Error) (db : Db M T)
      → Alike db (set_flush_err_if_nil e db).1
        × ((set_flush_err_if_nil e db).1.value_threshold ≡ db.value_threshold)
  unfolding set_flush_err_if_nil snapshot_read_state_locked
  set_flush_err_if_nil-Alike e db = elim (Option-cases db.flush_err) [
    | inl q ↦ rw q (
      record {
        read_state = refl;
        snapshot = refl;
        heap = refl;
        allocated = refl;
        value_log = refl;
      },
      refl,
    )
    | inr (first, q) ↦ rw q (
      record {
        read_state = refl;
        snapshot = refl;
        heap = refl;
        allocated = refl;
        value_log = refl;
      },
      refl,
    )
  ]

  pub retag :
      (batch : List Entry) (f : List ℕ → Option (List ℕ)) (threshold other : ℕ)
      → other ≡ threshold
      → (answers : List (Result (Unit {0}))) (rest : List Entry) (db : Db M T)
      → Serves mem get laws batch f other answers rest db
      → Serves mem get laws batch f threshold answers rest db
  retag batch f threshold other e answers rest db s =
      subst (λ t. Serves mem get laws batch f t answers rest db) e s

  rotate_memtable-threshold :
      (env : Env) (w : Wal) (address : ℕ) (db : Db M T)
      → (rotate_memtable mem env w address db).1.value_threshold ≡ db.value_threshold
  unfolding rotate_memtable
  rotate_memtable-threshold env w address db = ground arith

  module _ (batch : List Entry) (f : List ℕ → Option (List ℕ)) (n address : ℕ) (l : Log)
      (seg : Segment) (some_written : 0 < n) (within : n ≤ length batch) where
    -- A rotation that fails answers its error to the request that crossed the limit, although its
    -- entry is in the memtable, and to all after it.
    rotation_failed :
        (e : Error) (db : Db M T)
        → Represents mem get db address l seg (updates (take n batch) f)
        → let (first, after) = set_flush_err_if_nil e db in
          Serves mem get laws batch f db.value_threshold
            (replicate (n - 1) (ok tt) ++ (err first ∷ fail_write_requests (drop n batch) first))
            []
            after
    unfolding fail_write_requests
    rotation_failed e db v =
        let (first, after) = set_flush_err_if_nil e db in
        let (alike, kept) = set_flush_err_if_nil-Alike e db in
        let left = length (drop n batch) in
        let v' =
          Alike-Represents mem get laws db after address l seg (updates (take n batch) f) alike v in
        record {
          seen = n;
          address = address;
          log = l;
          segment = seg;
          represents = v';
          acknowledged =
              λ i q. omega (arith, acknowledged_prefix mem get laws (n - 1) (suc left) i first q);
          proceeds = inl (
            refl,
            omega (
              arith,
              length-append {0} (successes (n - 1)) (failures (suc left) first),
              length-replicate {0} {A = Result (Unit {0})} (n - 1) (ok tt),
              length-replicate {0} {A = Result (Unit {0})} left (err first),
              length-drop n batch,
            ),
          );
          room = omega (arith, v'.opened.small);
          threshold_kept = kept;
        }

  module _ (batch : List Entry) (f : List ℕ → Option (List ℕ)) (n address : ℕ) (l : Log)
      (seg : Segment) (some_written : 0 < n) (within : n ≤ length batch) where
    rotate_if_crossing-Serves :
        (env : Env) (w : Wal) (p : Prepared)
        (room : p.prep_err ≡ none → seg.size + batch_size (drop n batch) < 2 ^ 63) (db : Db M T)
        (v : Represents mem get db address l seg (updates (take n batch) f))
        → let r = rotate_if_crossing mem env w address n batch p db in
          Serves mem get laws batch f db.value_threshold r.answers r.rest r.db
    unfolding rotate_if_crossing
    rotate_if_crossing-Serves env w p room db v = elim (Bool-cases p.crossing) [
      | inr stays ↦ rw stays (
          finish_round-Serves mem get laws batch f n address l seg within p.prep_err db room
            some_written v)
      | inl crosses ↦
          let after = (rotate_memtable mem env w address db).1 in
          let v' =
            rotate_memtable-Represents mem get laws env w db address l seg
              (updates (take n batch) f) v in
          elim (Result-cases (rotate_memtable mem env w address db).0) [
            | inl (u, q) ↦
                rw (crosses, q)
                  (retag batch f db.value_threshold after.value_threshold
                    (rotate_memtable-threshold env w address db) _ _ _
                    (finish_round-Serves mem get laws batch f n v'.0 l seg within p.prep_err after
                      room some_written v'.1))
            | inr (e, q) ↦
                rw (crosses, q)
                  (retag batch f db.value_threshold after.value_threshold
                    (rotate_memtable-threshold env w address db) _ _ _
                    (rotation_failed batch f n v'.0 l seg some_written within e after v'.1))
          ]
    ]

  -- What is prepared is the beginning of the batch.
  prepared_is_prefix :
      (l : Log) (batch : List Entry) (p : Prepared)
      → Matches l p.stored p.wal_batch
      → p.wal_batch ++ drop (length p.stored) batch ≡ batch
      → (p.wal_batch ≡ take (length p.stored) batch) × (length p.stored ≤ length batch)
  prepared_is_prefix l batch p m split =
      let n = length p.stored in
      let same = Matches-length l p.stored p.wal_batch m in
      (
        sym (take-append n p.wal_batch (drop n batch) (sym same)) ∙ ap (take n) split,
        omega (arith, ap length split, length-append p.wal_batch (drop n batch), same),
      )

  pub write_prepared-Serves :
      (env : Env) (w : Wal) (batch : List Entry) (f : List ℕ → Option (List ℕ)) (p : Prepared)
      (db : Db M T) (address : ℕ) (l : Log) (seg : Segment)
      (v : Represents mem get db address l seg f)
      → Matches l p.stored p.wal_batch
      → p.wal_batch ++ drop (length p.stored) batch ≡ batch
      → 0 < length p.stored
      → (p.prep_err ≡ none → seg.size + batch_size (drop (length p.stored) batch) < 2 ^ 63)
      → let r = write_prepared mem env w address batch p db in
        Serves mem get laws batch f db.value_threshold r.answers r.rest r.db
  unfolding write_prepared store_at snapshot_read_state_locked
  write_prepared-Serves env w batch f p db address l seg v m split some_written room =
      let n = length p.stored in
      let (prefix, within) = prepared_is_prefix l batch p m split in
      let waits = not db.async_writes || db.wal_sync_interval == 0 in
      let w' = (append_and_wait w env p.wal_batch waits).1 in
      let db' = record db { active_wal = some w' } in
      elim (Result-cases (append_and_wait w env p.wal_batch waits).0) [
        | inr (e, q) ↦
            let (alike, kept) = set_flush_err_if_nil-Alike e db' in
            let after = (set_flush_err_if_nil e db').1 in
            rw (q, write_prepared)
              (retag batch f db.value_threshold after.value_threshold kept _ _ _ (
                failed-Serves mem get laws batch f (set_flush_err_if_nil e db').0 after address l
                  seg
                  (Alike-Represents mem get laws db' after address l seg f alike (
                    Alike-Represents mem get laws db db' address l seg f
                      (record {
                        read_state = refl;
                        snapshot = refl;
                        heap = refl;
                        allocated = refl;
                        value_log = refl;
                      })
                      v))))
        | inl (u, q) ↦
            let after =
              store_at address (put_all mem p.stored (db.heap address))
                (record db' { memtable_bytes = db.memtable_bytes + batch_bytes p.wal_batch }) in
            let ready : IsReady after address = record {
              published = v.ready.published;
              open_db = v.ready.open_db;
              current = v.ready.current;
              given_out = v.ready.given_out;
              older = v.ready.older;
            } in
            let written =
              write-Represents mem get laws db after address l seg f v p.stored p.wal_batch ready
                refl refl v.has_log m in
            rw (q, write_prepared)
              (rotate_if_crossing-Serves batch f n address l seg some_written within env w' p room
                after
                (record {
                  ready = ready;
                  has_log = v.has_log;
                  opened = v.opened;
                  shows = λ key. written.shows key ∙ ap (λ es. ok (updates es f key)) prefix;
                }))
      ]
