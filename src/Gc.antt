-- ===== src/Gc.antt =====
-- gc.go: rebuildLiveState, which writes what is live in the levels to new tables and a new value log.
use seol.Base.{
  ℕ, ◌+◌, Bool, true, false, Option, none, some, List, [], ◌∷◌, ◌++◌, leb, length, if◌then◌else◌,
}
use seol.Base.Result.{Error, Result, ok, err, out_of_range}
use seol.Base.Order.{bytes_equal}
use seol.Compaction.{TableMeta, Level}
use seol.Memtable.{Memtable, is_empty, memtable_arena_size}
use seol.Sstable.Blocks.{Entry}
use seol.Stored.{value, deleted, memtable_entry_size, resolve_stored_value, store_value_for_lsm}
use seol.Vlog.{Log, Outcome}

-- `seen[keyStr]`
unfoldable pub is_seen : List (List ℕ) → List ℕ → Bool
is_seen [] key = false
is_seen (k ∷ seen) key = if bytes_equal k key then true else is_seen seen key

-- The variables of rebuildLiveState, with the new value log.
pub record Rebuild (M T : Type 0) : Type 0 where
  pub seen : List (List ℕ)
  pub new_log : Option Log
  pub builder : M
  pub builder_bytes : ℕ
  pub flushed : List T
  pub flushed_meta : List TableMeta

-- The options it reads.
pub record Options : Type 0 where
  pub memtable_max_bytes : ℕ
  pub value_threshold : ℕ

-- `flush_fn n` is the flush in its n-th call, `meta_of` is tableMetaFromSST, `scanned` has the entries
-- that Scan calls its function with, and then its own error, and the n-th key that is seen has the
-- n-th outcome.
module _ {M T : Type 0} (mem : Memtable M) (flush_fn : ℕ → M → Result T) (meta_of : T → TableMeta)
    (scanned : T → List Entry × Option Error) (outcomes : ℕ → Outcome) (old : Option Log)
    (opts : Options) where
  abbrev pub with_builder : Rebuild M T → Rebuild M T
  with_builder s = record s {
    builder = mem.new (memtable_arena_size opts.memtable_max_bytes);
    builder_bytes = 0;
  }

  abbrev pub add_flushed : TableMeta → T → Rebuild M T → Rebuild M T
  add_flushed source sst s = record s {
    builder = mem.new (memtable_arena_size opts.memtable_max_bytes);
    builder_bytes = 0;
    flushed = s.flushed ++ sst ∷ [];
    flushed_meta =
        s.flushed_meta
        ++ (record (meta_of sst) { level = source.level; created_at = source.created_at }) ∷ [];
  }

  unfoldable pub flush_live : TableMeta → Rebuild M T → Result (Rebuild M T)
  unfolding is_empty
  flush_live source s =
      if is_empty mem s.builder then ok s else elim (flush_fn (length s.flushed) s.builder) [
        | err e ↦ err e
        | ok sst ↦ ok (add_flushed source sst s)
      ]

  -- From the call of storeValueForLSM on.
  unfoldable pub put_live :
      TableMeta
      → List ℕ
      → List ℕ
      → Result (List ℕ) × Option Log
      → Rebuild M T
      → Result (Rebuild M T)
  unfolding flush_live
  put_live source key v (err e, log) s = err e
  put_live source key v (ok rewritten, log) s =
      let s' = record s {
        new_log = log;
        builder = mem.put s.builder key rewritten;
        builder_bytes = s.builder_bytes + memtable_entry_size key v;
      } in
      if leb opts.memtable_max_bytes s'.builder_bytes then flush_live source s' else ok s'

  abbrev pub seen_key : List ℕ → Rebuild M T → Rebuild M T
  seen_key key s = record s { seen = key ∷ s.seen }

  -- The function that Scan is given.
  unfoldable pub rebuild_entry : TableMeta → Entry → Rebuild M T → Result (Rebuild M T)
  unfolding put_live is_seen
  rebuild_entry source (key, stored) s =
      if is_seen s.seen key then ok s else elim (resolve_stored_value old stored) [
        | err e ↦ err e
        | ok resolved ↦ elim resolved [
          | deleted ↦ ok (seen_key key s)
          | value v ↦
              put_live source key v
                (store_value_for_lsm s.new_log (outcomes (length s.seen)) opts.value_threshold key
                  v)
                (seen_key key s)
        ]
      ]

  unfoldable pub rebuild_entries : TableMeta → List Entry → Rebuild M T → Result (Rebuild M T)
  unfolding rebuild_entry
  rebuild_entries source [] s = ok s
  rebuild_entries source (e ∷ es) s = elim (rebuild_entry source e s) [
    | err x ↦ err x
    | ok s' ↦ rebuild_entries source es s'
  ]

  unfoldable pub rebuild_table : TableMeta → T → Rebuild M T → Result (Rebuild M T)
  unfolding rebuild_entries flush_live
  rebuild_table source t s = elim (rebuild_entries source (scanned t).0 (with_builder s)) [
    | err e ↦ err e
    | ok s' ↦ elim (scanned t).1 [ some e ↦ err e | none ↦ flush_live source s' ]
  ]

  -- `level.meta[i]` panics where a table has no metadata.
  unfoldable pub rebuild_level : List TableMeta → List T → Rebuild M T → Result (Rebuild M T)
  unfolding rebuild_table
  rebuild_level meta [] s = ok s
  rebuild_level [] (t ∷ tables) s = err out_of_range
  rebuild_level (source ∷ meta) (t ∷ tables) s = elim (rebuild_table source t s) [
    | err e ↦ err e
    | ok s' ↦ rebuild_level meta tables s'
  ]

  unfoldable pub rebuild_levels : List (Level T) → Rebuild M T → Result (Rebuild M T)
  unfolding rebuild_level
  rebuild_levels [] s = ok s
  rebuild_levels (l ∷ levels) s = elim (rebuild_level l.meta l.tables s) [
    | err e ↦ err e
    | ok s' ↦ rebuild_levels levels s'
  ]

  abbrev pub new_rebuild : Option Log → Rebuild M T
  new_rebuild new_log = record {
    seen = [];
    new_log = new_log;
    builder = mem.new (memtable_arena_size opts.memtable_max_bytes);
    builder_bytes = 0;
    flushed = [];
    flushed_meta = [];
  }

  -- The state in the end has the tables, their metadata and the new value log.
  unfoldable pub rebuild_live_state : List (Level T) → Option Log → Result (Rebuild M T)
  unfolding rebuild_levels
  rebuild_live_state levels new_log = rebuild_levels levels (new_rebuild new_log)
