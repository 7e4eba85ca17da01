-- ===== src/Db/Round.antt =====
-- db.go: a whole round of processWriteBatch, whatever the environment does.
use mathlib.Core.Path.{subst}
use seol.Base.{ℕ, ◌+◌, ◌^◌, ◌<◌, ◌≡◌, refl, sym, ap, arith}
use seol.Base.{Option, none, some, List, [], ◌∷◌, length, All, Option-cases, inl, inr, ◌⊎◌}
use seol.Base.Result.{Error, Result, closed}
use seol.Db.{Db, set_flush_err_if_nil, snapshot_read_state_locked}
use seol.Db.Preparing.{Prepares, IsPlain, batch_size, prepare-Prepares}
use seol.Db.Represents.{Represents, log-Represents}
use seol.Db.Rotation.{Alike-Represents}
use seol.Db.Rounds.{Serves, failed-Serves}
use seol.Db.Serving.{retag, set_flush_err_if_nil-Alike, write_prepared-Serves}
use seol.Db.Views.{IsReady}
use seol.Db.Writing.{
  Env, Prepared, keep_prep_err, write_or_fail, write_prepared, fail_write_requests, Round, prepare,
  process_round,
}
use seol.Memtable.{Memtable, IsLawful}
use seol.Sstable.Blocks.{Entry}
use seol.Vlog.{Log, Segment}
use seol.Wal.{Wal}

List-cases {ℓ} :
    {A : Type ℓ} (xs : List A) → (xs ≡ []) ⊎ ((a : A) × (as' : List A) × (xs ≡ a ∷ as'))
List-cases [] = inl refl
List-cases (a ∷ as') = inr (a, as', refl)

module _ {M T : Type 0} (mem : Memtable M) (get : T → List ℕ → Result (Option (List ℕ)))
    (laws : IsLawful mem) where
  write_or_fail_some :
      (env : Env) (w : Wal) (address : ℕ) (batch : List Entry) (p : Prepared) (db : Db M T)
      (e : Entry) (es : List Entry)
      → p.stored ≡ e ∷ es
      → write_or_fail mem env w address batch (p, db) ≡ write_prepared mem env w address batch p db
  unfolding write_or_fail
  write_or_fail_some env w address batch p db e es q = simp q

  write_or_fail_none :
      (env : Env) (w : Wal) (address : ℕ) (batch : List Entry) (p : Prepared) (db : Db M T)
      (e : Error)
      → p.stored ≡ []
      → p.prep_err ≡ some e
      → write_or_fail mem env w address batch (p, db)
        ≡ record { answers = fail_write_requests batch e; rest = []; db = db }
  unfolding write_or_fail
  write_or_fail_none env w address batch p db e q c = simp (q, c)

  write_or_fail-Serves :
      (env : Env) (w : Wal) (batch : List Entry) (f : List ℕ → Option (List ℕ)) (p : Prepared)
      (db : Db M T) (address : ℕ) (before : Log) (start : Segment)
      (x : Prepares before start batch p) (v : Represents mem get db address x.after x.segment f)
      → 0 < length batch
      → start.size + batch_size batch < 2 ^ 63
      → let r = write_or_fail mem env w address batch (p, db) in
        Serves mem get laws batch f db.value_threshold r.answers r.rest r.db
  write_or_fail-Serves env w batch f p db address before start x v some_left room =
      let good =
        λ (r : Round M T). Serves mem get laws batch f db.value_threshold r.answers r.rest r.db in
      elim (List-cases p.stored) [
        | inr (e, es, q) ↦ subst good (sym (write_or_fail_some env w address batch p db e es q)) (
            write_prepared-Serves mem get laws env w batch f p db address x.after x.segment v
              x.matches x.split (omega (arith, ap length q)) (λ c. omega (arith, x.room c)))
        | inl q ↦ elim (Option-cases p.prep_err) [
          | inr (e, c) ↦
              subst good (sym (write_or_fail_none env w address batch p db e q c))
                (failed-Serves mem get laws batch f e db address x.after x.segment v)
          | inl c ↦ absurd (omega (arith, x.progress c some_left, ap length q))
        ]
      ]

  -- The round goes on in a database that keeps the log and the error of the preparation.
  kept-Serves :
      (env : Env) (w : Wal) (batch : List Entry) (f : List ℕ → Option (List ℕ)) (p : Prepared)
      (db : Db M T) (address : ℕ) (l : Log) (seg : Segment) (x : Prepares l seg batch p)
      (v : Represents mem get db address l seg f)
      → 0 < length batch
      → seg.size + batch_size batch < 2 ^ 63
      → let r = write_or_fail mem env w address batch (keep_prep_err mem p db) in
        Serves mem get laws batch f db.value_threshold r.answers r.rest r.db
  unfolding keep_prep_err snapshot_read_state_locked
  kept-Serves env w batch f p db address l seg x v some_left room =
      let logged = record db { value_log = p.log } in
      let ready : IsReady logged address = record {
        published = v.ready.published;
        open_db = v.ready.open_db;
        current = v.ready.current;
        given_out = v.ready.given_out;
        older = v.ready.older;
      } in
      let v' =
        log-Represents mem get laws db logged address l x.after seg x.segment f v ready refl refl
          x.is_after x.extends x.opened in
      elim (Option-cases p.prep_err) [
        | inl c ↦
            rw (c, keep_prep_err)
              (write_or_fail-Serves env w batch f p logged address l seg x v' some_left room)
        | inr (e, c) ↦
            let (alike, kept) = set_flush_err_if_nil-Alike mem get laws e logged in
            let (first, after) = set_flush_err_if_nil e logged in
            rw (c, keep_prep_err)
              (retag mem get laws batch f db.value_threshold after.value_threshold kept _ _ _ (
                write_or_fail-Serves env w batch f (record p { prep_err = some first }) after
                  address l seg
                  (record {
                    after = x.after;
                    segment = x.segment;
                    is_after = x.is_after;
                    extends = x.extends;
                    opened = x.opened;
                    matches = x.matches;
                    split = x.split;
                    progress = λ never h. absurd (cc never);
                    room = λ never. absurd (cc never);
                  })
                  (Alike-Represents mem get laws logged after address x.after x.segment f alike v')
                  some_left room))
      ]

  process_round_open :
      (env : Env) (batch : List Entry) (db : Db M T) (w : Wal) (address : ℕ)
      → db.flush_err ≡ none
      → db.active_wal ≡ some w
      → db.memtable ≡ some address
      → process_round mem env batch db
        ≡ write_or_fail mem env w address batch (
            keep_prep_err mem
              (prepare env.value_log 0 db.value_threshold db.memtable_max_bytes db.memtable_bytes
                db.value_log batch)
              db)
  unfolding process_round
  process_round_open env batch db w address a b c = ground arith

  process_round_failed :
      (env : Env) (batch : List Entry) (db : Db M T) (e : Error)
      → (db.flush_err ≡ some e) ⊎ ((db.flush_err ≡ none) × (db.active_wal ≡ none) × (e ≡ closed))
      → process_round mem env batch db
        ≡ record { answers = fail_write_requests batch e; rest = []; db = db }
  unfolding process_round
  process_round_failed env batch db e (inl a) = ground arith
  process_round_failed env batch db e (inr (a, b, c)) = ground arith

  pub process_round-Serves :
      (env : Env) (batch : List Entry) (f : List ℕ → Option (List ℕ)) (db : Db M T) (address : ℕ)
      (l : Log) (seg : Segment)
      → Represents mem get db address l seg f
      → All (IsPlain db.value_threshold) batch
      → 0 < length batch
      → seg.size + batch_size batch < 2 ^ 63
      → let r = process_round mem env batch db in
        Serves mem get laws batch f db.value_threshold r.answers r.rest r.db
  process_round-Serves env batch f db address l seg v plain some_left room =
      let p =
        prepare env.value_log 0 db.value_threshold db.memtable_max_bytes db.memtable_bytes
          db.value_log batch in
      let x : Prepares l seg batch p =
        subst
          (λ log. Prepares l seg batch (
            prepare env.value_log 0 db.value_threshold db.memtable_max_bytes db.memtable_bytes log
              batch))
          (sym v.has_log)
          (prepare-Prepares env.value_log 0 db.value_threshold db.memtable_max_bytes
            db.memtable_bytes l seg batch v.opened plain room) in
      let good =
        λ (r : Round M T). Serves mem get laws batch f db.value_threshold r.answers r.rest r.db in
      elim (Option-cases db.flush_err) [
        | inr (e, q) ↦
            subst good (sym (process_round_failed env batch db e (inl q)))
              (failed-Serves mem get laws batch f e db address l seg v)
        | inl q ↦ elim (Option-cases db.active_wal) [
          | inl q' ↦
              subst good (sym (process_round_failed env batch db closed (inr (q, q', refl))))
                (failed-Serves mem get laws batch f closed db address l seg v)
          | inr (w, q') ↦
              subst good (sym (process_round_open env batch db w address q q' v.ready.current))
                (kept-Serves env w batch f p db address l seg x v some_left room)
        ]
      ]
