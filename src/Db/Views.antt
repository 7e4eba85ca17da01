-- ===== src/Db/Views.antt =====
-- db.go: what Get sees, in the stored form, and how writes to the memtable and its rotation change
-- it.
use seol.Base.{ℕ, suc, ◌<◌, false, ◌≡◌, refl, ap, ◌∙◌, arith}
use seol.Base.{
  or_option, Option, none, some, List, [], ◌∷◌, ◌++◌, ◌==◌, ==_refl, if◌then◌else◌, length, All,
}
use seol.Base.Result.{Result, ok, err, closed, ◌>>=◌}
use seol.Base.Order.{bytes_equal}
use seol.Compaction.{lookup_tables, stored_in_levels, read_stored_value}
use seol.Db.{
  Db, ReadState, ImmutableMemtable, snapshot_read_state_locked, search_immutable, search_memtable,
  search_tables, db_get,
}
use seol.Db.Writing.{put_all}
use seol.Memtable.{Memtable, IsLawful}
use seol.Sstable.Blocks.{Entry}
use seol.Vlog.{Log}

-- An open database whose readers see its own state; the memtable's address is the last given out.
pub record IsReady {M T : Type 0} (db : Db M T) (address : ℕ) : Type 0 where
  pub published : db.read_state ≡ snapshot_read_state_locked db
  pub open_db : db.is_closed ≡ false
  pub current : db.memtable ≡ some address
  pub given_out : db.allocated ≡ suc address
  pub older : All (λ (imm : ImmutableMemtable). imm.table < address) db.immutable

-- The value of the last entry with the key.
unfoldable pub last_value : List Entry → List ℕ → Option (List ℕ)
last_value [] key = none
last_value (e ∷ es) key = elim (last_value es key) [
  | some v ↦ some v
  | none ↦ if bytes_equal e.0 key then some e.1 else none
]

abbrev pub or_else {ℓ} : {A : Type ℓ} → Option A → A → A
or_else none d = d
or_else (some a) d = a

abbrev pub resolve_found : Option Log → Option (List ℕ) → Result (Option (List ℕ))
resolve_found log none = ok none
resolve_found log (some stored) = read_stored_value log stored

module _ {M T : Type 0} (mem : Memtable M) (get : T → List ℕ → Result (Option (List ℕ))) where
  abbrev pub stored_in_tables : ReadState T → List ℕ → Result (Option (List ℕ))
  stored_in_tables state key =
      if length state.levels == 0
      then lookup_tables get state.sstables key
      else stored_in_levels get state.levels key

  abbrev pub in_memory : Db M T → List ℕ → Option (List ℕ)
  in_memory db key =
      or_option (search_memtable mem get db.heap db.read_state.memtable key)
        (search_immutable mem get db.heap db.read_state.immutable key)

  -- What is stored for a key, in the memtables or else in the tables.
  abbrev pub stored_at : Db M T → List ℕ → Result (Option (List ℕ))
  stored_at db key = elim (in_memory db key) [
    | some stored ↦ ok (some stored)
    | none ↦ stored_in_tables db.read_state key
  ]

  search_tables-resolve :
      (state : ReadState T) (log : Option Log) (key : List ℕ)
      → search_tables mem get state log key ≡ (stored_in_tables state key >>= resolve_found log)
  unfolding search_tables
  search_tables-resolve state log key = ground arith

  -- Get resolves what is stored.
  pub db_get-resolve :
      (db : Db M T) (key : List ℕ)
      → db_get mem get db key ≡ (
          if db.read_state.is_closed
          then err closed
          else (stored_at db key >>= resolve_found db.value_log))
  unfolding db_get
  db_get-resolve db key = ground (arith, search_tables-resolve db.read_state db.value_log key)

  module _ (laws : IsLawful mem) where
    pub get-put_all :
        (es : List Entry) (m : M) (key : List ℕ)
        → mem.get (put_all mem es m) key ≡ or_option (last_value es key) (mem.get m key)
    unfolding put_all last_value
    get-put_all [] m key = refl
    get-put_all (e ∷ es) m key =
        get-put_all es (mem.put m e.0 e.1) key ∙ ground (arith, laws.get-put m e.0 e.1 key)

    -- A write to a memtable that is none of the immutable ones.
    pub search_immutable-other :
        (heap : ℕ → M) (address : ℕ) (m : M) (imms : List ImmutableMemtable) (key : List ℕ)
        → All (λ (imm : ImmutableMemtable). imm.table < address) imms
        → search_immutable mem get (λ a. if address == a then m else heap a) imms key
          ≡ search_immutable mem get heap imms key
    unfolding search_immutable
    search_immutable-other heap address m [] key h = refl
    search_immutable-other heap address m (imm ∷ imms) key h =
        ground (arith, search_immutable-other heap address m imms key h.1)

    pub search_immutable-append :
        (heap : ℕ → M) (imms : List ImmutableMemtable) (imm : ImmutableMemtable) (key : List ℕ)
        → search_immutable mem get heap (imms ++ imm ∷ []) key
          ≡ or_option (mem.get (heap imm.table) key) (search_immutable mem get heap imms key)
    unfolding search_immutable
    search_immutable-append heap [] imm key = ground arith
    search_immutable-append heap (other ∷ imms) imm key =
        ground (arith, search_immutable-append heap imms imm key)

    -- A database that differs from `db` in what it wrote to its memtable, and that readers see as
    -- they saw it.
    pub stored_at-write :
        (db after : Db M T) (address : ℕ) (es : List Entry) (key : List ℕ)
        → IsReady db address
        → after.read_state ≡ db.read_state
        → after.heap ≡ (λ a. if address == a then put_all mem es (db.heap address) else db.heap a)
        → stored_at after key
          ≡ (elim (last_value es key) [ some stored ↦ ok (some stored) | none ↦ stored_at db key ])
    unfolding search_memtable snapshot_read_state_locked
    stored_at-write db after address es key v same written =
        let seen : db.read_state.memtable ≡ some address =
          ap (λ (s : ReadState T). s.memtable) v.published ∙ v.current in
        let imms : db.read_state.immutable ≡ db.immutable =
          ap (λ (s : ReadState T). s.immutable) v.published in
        let m = put_all mem es (db.heap address) in
        rw (same, written, seen, imms)
          (ground (
            arith,
            ==_refl address,
            get-put_all es (db.heap address) key,
            search_immutable-other db.heap address m db.immutable key v.older,
          ))
