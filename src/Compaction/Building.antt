-- ===== src/Compaction/Building.antt =====
-- compaction.go: compactTables, which builds the tables of a compaction from what the merge iterator
-- yields.
use seol.Base.{ℕ, zero, suc, ◌+◌, ◌*◌, ◌^◌, Bool, ◌&&◌, none, some, List, [], ◌∷◌, ◌++◌}
use seol.Base.{if◌then◌else◌, length, ltb, leb, ◌==◌}
use seol.Base.Result.{Result, ok, err, out_of_fuel}
use seol.Compaction.{TableMeta}
use seol.Compaction.Merge.{Source, merge_source, new_compaction_merge_iterator}
use seol.Memtable.{Memtable, is_empty, memtable_arena_size}
use seol.Sstable.Blocks.{Entry}
use seol.Stored.{is_tombstone_value}

abbrev pub default_memtable_max_bytes : ℕ
default_memtable_max_bytes = 4 * 2 ^ 20

pub record CompactionPlan : Type 0 where
  pub source_level : ℕ
  pub target_level : ℕ
  pub source_tables : List TableMeta
  pub target_tables : List TableMeta
  pub target_output_bytes : ℕ
  pub drop_tombstones : Bool

unfoldable pub plan_input_tables : CompactionPlan → List TableMeta
plan_input_tables plan = plan.source_tables ++ plan.target_tables

-- Of the options it takes MemtableMaxBytes.
unfoldable pub compaction_output_bytes : ℕ → ℕ
compaction_output_bytes memtable_max_bytes =
    if ltb default_memtable_max_bytes memtable_max_bytes
    then memtable_max_bytes
    else default_memtable_max_bytes

-- The variables of compactTables.
pub record Build (M T : Type 0) : Type 0 where
  pub builder : M
  pub builder_bytes : ℕ
  pub outputs : List T

-- `target`, where a size that is not positive is 0.
unfoldable pub target_bytes : CompactionPlan → ℕ
target_bytes plan =
    if plan.target_output_bytes == 0 then default_memtable_max_bytes else plan.target_output_bytes

-- `flush_fn n` is the plan's flushFn in its n-th call.
module _ {M T : Type 0} (mem : Memtable M) (flush_fn : ℕ → M → Result T) where
  abbrev pub new_build : CompactionPlan → Build M T
  new_build plan = record {
    builder = mem.new (memtable_arena_size (target_bytes plan));
    builder_bytes = 0;
    outputs = [];
  }

  unfoldable pub flush_builder : ℕ → Build M T → Result (Build M T)
  unfolding is_empty memtable_arena_size
  flush_builder target s =
      if is_empty mem s.builder then ok s else elim (flush_fn (length s.outputs) s.builder) [
        | err e ↦ err e
        | ok sst ↦ ok (record {
          builder = mem.new (memtable_arena_size target);
          builder_bytes = 0;
          outputs = s.outputs ++ sst ∷ [];
        })
      ]

  unfoldable pub put_entry : Entry → Build M T → Build M T
  put_entry e s = record s {
    builder = mem.put s.builder e.0 e.1;
    builder_bytes = s.builder_bytes + (length e.0 + length e.1);
  }

  -- The body of the loop.
  unfoldable pub add_entry : CompactionPlan → Entry → Build M T → Result (Build M T)
  unfolding put_entry flush_builder target_bytes
  add_entry plan e s =
      let s' = put_entry e s in
      if plan.drop_tombstones && is_tombstone_value e.1
      then ok s
      else if leb (target_bytes plan) s'.builder_bytes
      then flush_builder (target_bytes plan) s'
      else ok s'

  module _ {J : Type 0} (source : Source J) where
    -- `for iter.Valid()`, and the test of its error.
    unfoldable pub compact_loop : ℕ → CompactionPlan → J → Build M T → Result (Build M T)
    unfolding add_entry
    compact_loop zero plan it s = err out_of_fuel
    compact_loop (suc fuel) plan it s = elim (source.current it) [
      | none ↦ elim (source.error it) [ some e ↦ err e | none ↦ ok s ]
      | some e ↦ elim (add_entry plan e s) [
        | err x ↦ err x
        | ok s' ↦ compact_loop fuel plan (source.next it) s'
      ]
    ]

    unfoldable pub compact_from : ℕ → CompactionPlan → J → Result (List T)
    unfolding compact_loop flush_builder
    compact_from fuel plan it = elim (compact_loop fuel plan it (new_build plan)) [
      | err e ↦ err e
      | ok s ↦ elim (flush_builder (target_bytes plan) s) [ err e ↦ err e | ok s' ↦ ok s'.outputs ]
    ]

  -- The iterators are those of the tables, in their order.
  unfoldable pub compact_tables :
      {I : Type 0} → Source I → ℕ → CompactionPlan → List I → Result (List T)
  unfolding compact_from
  compact_tables source fuel plan iters =
      compact_from (merge_source source) fuel plan (new_compaction_merge_iterator source iters)
