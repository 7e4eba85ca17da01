-- ===== src/Db/Rotation.antt =====
-- db.go: rotateMemtable, and changes that readers do not see.
use seol.Base.{ℕ, suc, ◌<◌, ltb, ◌≡◌, refl, sym, ap, ◌∙◌, arith}
use seol.Base.{Option, some, List, [], ◌∷◌, ◌++◌, ◌==◌, if◌then◌else◌, All, Bool-cases, inl, inr}
use seol.Base.Result.{Result, Result-cases, ◌>>=◌}
use seol.Db.{
  Db, ReadState, ImmutableMemtable, snapshot_read_state_locked, publish_read_state_locked, store_at,
  search_memtable,
}
use seol.Db.Represents.{Represents, readers_open, show, shown}
use seol.Db.Views.{
  IsReady, resolve_found, stored_at, search_immutable-other, search_immutable-append,
}
use seol.Db.Writing.{Env, close_wal, rotate_memtable}
use seol.Memtable.{Memtable, IsLawful, memtable_arena_size}
use seol.Vlog.{Log, Segment}
use seol.Wal.{Wal}
use seol.Wal.Crashes.{create_wal}

-- The databases differ in nothing that Get looks at.
pub record Alike {M T : Type 0} (db after : Db M T) : Type 0 where
  pub read_state : after.read_state ≡ db.read_state
  pub snapshot : snapshot_read_state_locked after ≡ snapshot_read_state_locked db
  pub heap : after.heap ≡ db.heap
  pub allocated : after.allocated ≡ db.allocated
  pub value_log : after.value_log ≡ db.value_log

All-mono :
    (n : ℕ) (imms : List ImmutableMemtable)
    → All (λ (imm : ImmutableMemtable). imm.table < n) imms
    → All (λ (imm : ImmutableMemtable). imm.table < suc n) imms
All-mono n [] h = tt
All-mono n (imm ∷ imms) h = (omega (arith, h.0), All-mono n imms h.1)

All-older :
    (n : ℕ) (imms : List ImmutableMemtable) (imm : ImmutableMemtable)
    → All (λ (imm : ImmutableMemtable). imm.table < n) imms
    → imm.table ≡ n
    → All (λ (imm : ImmutableMemtable). imm.table < suc n) (imms ++ imm ∷ [])
All-older n [] imm h e = (omega (arith, e), tt)
All-older n (other ∷ imms) imm h e = (omega (arith, h.0), All-older n imms imm h.1 e)

module _ {M T : Type 0} (mem : Memtable M) (get : T → List ℕ → Result (Option (List ℕ)))
    (laws : IsLawful mem) where
  pub Alike-IsReady :
      (db after : Db M T) (address : ℕ)
      → Alike db after
      → IsReady db address
      → IsReady after address
  unfolding snapshot_read_state_locked
  Alike-IsReady db after address a v = record {
    published = a.read_state ∙ v.published ∙ sym a.snapshot;
    open_db = ap (λ (s : ReadState T). s.is_closed) a.snapshot ∙ v.open_db;
    current = ap (λ (s : ReadState T). s.memtable) a.snapshot ∙ v.current;
    given_out = a.allocated ∙ v.given_out;
    older = rw (ap (λ (s : ReadState T). s.immutable) a.snapshot) v.older;
  }

  pub Alike-Represents :
      (db after : Db M T) (address : ℕ) (l : Log) (seg : Segment) (f : List ℕ → Option (List ℕ))
      → Alike db after
      → Represents mem get db address l seg f
      → Represents mem get after address l seg f
  Alike-Represents db after address l seg f a v = record {
    ready = Alike-IsReady db after address a v.ready;
    has_log = a.value_log ∙ v.has_log;
    opened = v.opened;
    shows = λ key.
        show mem get laws after key l (f key)
          (readers_open mem get laws after address (Alike-IsReady db after address a v.ready))
          (a.value_log ∙ v.has_log)
          (rw (a.read_state, a.heap) (shown mem get laws db address l seg f v key));
  }

  rotated_at :
      (db : Db M T) (address : ℕ) (imm : ImmutableMemtable) (after : Db M T) (key : List ℕ)
      (max_bytes : ℕ)
      → IsReady db address
      → imm.table ≡ address
      → after.heap
        ≡ (λ a. if db.allocated == a then mem.new (memtable_arena_size max_bytes) else db.heap a)
      → after.read_state ≡ record db.read_state {
        memtable = some db.allocated;
        immutable = db.immutable ++ imm ∷ [];
      }
      → stored_at mem get after key ≡ stored_at mem get db key
  unfolding snapshot_read_state_locked search_memtable
  rotated_at db address imm after key max_bytes v same heap state =
      let seen : db.read_state.memtable ≡ some address =
        ap (λ (s : ReadState T). s.memtable) v.published ∙ v.current in
      let imms : db.read_state.immutable ≡ db.immutable =
        ap (λ (s : ReadState T). s.immutable) v.published in
      rw (state, heap, seen, imms)
        (ground (
          arith,
          laws.get-new max_bytes key,
          search_immutable-append mem get laws
              (λ a.
                if db.allocated == a then mem.new (memtable_arena_size max_bytes) else db.heap a)
              db.immutable imm key,
          search_immutable-other mem get laws db.heap db.allocated
              (mem.new (memtable_arena_size max_bytes)) db.immutable key
              (rw v.given_out (All-mono address db.immutable v.older)),
        ))

  -- The database after a rotation that succeeds.
  abbrev rotated : Env → Wal → ℕ → Db M T → Db M T
  rotated env w address db =
      let imm : ImmutableMemtable = record { table = address; wal_paths = db.current_wal_paths } in
      let new_db = store_at db.allocated (mem.new (memtable_arena_size db.memtable_max_bytes)) db in
      record (publish_read_state_locked (record new_db {
        immutable = db.immutable ++ imm ∷ [];
        memtable = some db.allocated;
        allocated = suc db.allocated;
        active_wal = some (create_wal (ltb 0 db.wal_sync_interval));
        current_wal_paths = env.wal_path ∷ [];
        wal_files = env.wal_path ∷ db.wal_files;
      })) { memtable_bytes = 0; flush_ch = db.flush_ch ++ imm ∷ [] }

  pub rotate_memtable-Represents :
      (env : Env) (w : Wal) (db : Db M T) (address : ℕ) (l : Log) (seg : Segment)
      (f : List ℕ → Option (List ℕ)) (v : Represents mem get db address l seg f)
      → (current : ℕ) × Represents mem get (rotate_memtable mem env w address db).1 current l seg f
  unfolding rotate_memtable publish_read_state_locked store_at snapshot_read_state_locked
  rotate_memtable-Represents env w db address l seg f v = elim (Bool-cases env.creates_wal) [
    | inr fails ↦ rw fails (address, v)
    | inl creates ↦ elim (Result-cases (close_wal w env.last_flush env.closes_wal).0) [
      | inr (e, q) ↦
          rw (creates, q)
            (
              address,
              Alike-Represents db
                  (record db { active_wal = some (close_wal w env.last_flush env.closes_wal).1 })
                  address l seg f
                  (record {
                    read_state = refl;
                    snapshot = refl;
                    heap = refl;
                    allocated = refl;
                    value_log = refl;
                  })
                  v,
            )
      | inl (u, q) ↦
          rw (creates, q)
            (
              db.allocated,
              record {
                ready = record {
                  published = refl;
                  open_db = v.ready.open_db;
                  current = refl;
                  given_out = refl;
                  older = rw v.ready.given_out (
                      All-older address db.immutable
                        (record { table = address; wal_paths = db.current_wal_paths }) v.ready.older
                        refl);
                };
                has_log = v.has_log;
                opened = v.opened;
                shows = λ key.
                    show mem get laws (rotated env w address db) key l (f key) v.ready.open_db
                      v.has_log
                      (ap (λ r. r >>= resolve_found (some l))
                          (rotated_at db address
                            (record { table = address; wal_paths = db.current_wal_paths })
                            (rotated env w address db) key db.memtable_max_bytes v.ready refl refl
                            (ap
                              (λ (s : ReadState T). record s {
                                memtable = some db.allocated;
                                immutable =
                                    db.immutable
                                    ++ record { table = address; wal_paths = db.current_wal_paths }
                                      ∷ [];
                              })
                              (sym v.ready.published)))
                        ∙ shown mem get laws db address l seg f v key);
              },
            )
    ]
  ]
