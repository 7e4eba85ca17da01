-- ===== src/Compaction/Examples.antt =====
-- compaction.go: two tables of level 0 that overlap, and a level of two that do not.
use seol.Base.{
  ℕ, zero, suc, ◌-◌, ◌<◌, ◌≤◌, true, false, ◌≡◌, refl, arith, Option, none, some, List, [], ◌∷◌,
  length, get_or, All,
}
use seol.Base.Order.{bytes_compare, bytes_equal, bytes_lt}
use seol.Compaction.{TableMeta, no_meta, find_level_table, sort_table_meta_for_level}
use seol.Compaction.Selection.{Chosen, is_selected, chosen_of}
use seol.Compaction.Apart.{IsNamed, Covers, ChosenOrApart, chosen_of-ChosenOrApart}
use seol.Base.Result.{Result, ok, err, io_error}
use seol.Base.{if◌then◌else◌, ◌==◌}
use seol.Compaction.Building.{CompactionPlan}
use seol.Memtable.SortedList.{SortedEntries}
use seol.Compaction.Grouping.{LevelState, build_level_state, table_by_name}
use seol.Compaction.Installed.{IsNewest, build_level_state-IsNewest}
use seol.Compaction.Merge.{Source, merge_source, new_compaction_merge_iterator}
use seol.Compaction.Merged.{total, find_first, AllSorted}
use seol.Compaction.Merging.{Yields, merge_iterator-Yields}
use seol.Sstable.BlockLookup.{Sorted, find}
use seol.Sstable.Blocks.{Entry}
use seol.Compaction.Levels.{IsDisjoint, Located, find_level_table-Located}

abbrev low_table : TableMeta
low_table = record {
  filename = 49 ∷ [];
  level = 1;
  smallest = 1 ∷ [];
  largest = 4 ∷ [];
  size_bytes = 99;
  created_at = 1;
}

abbrev high_table : TableMeta
high_table = record {
  filename = 50 ∷ [];
  level = 1;
  smallest = 5 ∷ [];
  largest = 9 ∷ [];
  size_bytes = 99;
  created_at = 2;
}

abbrev two_tables : List TableMeta
two_tables = low_table ∷ high_table ∷ []

abbrev overlapping_tables : List TableMeta
overlapping_tables = low_table ∷ record high_table { smallest = 3 ∷ [] } ∷ []

two_tables-nonempty :
    (i : ℕ)
    → i < length two_tables
    → bytes_lt (get_or two_tables i no_meta).largest (get_or two_tables i no_meta).smallest ≡ false
unfolding bytes_compare
two_tables-nonempty zero h = refl
two_tables-nonempty (suc zero) h = refl
two_tables-nonempty (suc (suc i)) h = absurd (omega arith)

two_tables-apart :
    (i j : ℕ)
    → i < j
    → j < length two_tables
    → bytes_lt (get_or two_tables i no_meta).largest (get_or two_tables j no_meta).smallest ≡ true
unfolding bytes_compare
two_tables-apart zero zero p q = absurd (omega arith)
two_tables-apart zero (suc zero) p q = refl
two_tables-apart (suc i) (suc zero) p q = absurd (omega arith)
two_tables-apart (suc i) zero p q = absurd (omega arith)
two_tables-apart i (suc (suc j)) p q = absurd (omega arith)

two_tables-IsDisjoint : IsDisjoint two_tables
two_tables-IsDisjoint = record { nonempty = two_tables-nonempty; apart = two_tables-apart }

find_level_table-Located_example :
    Located two_tables (6 ∷ []) two_tables-IsDisjoint (find_level_table two_tables (6 ∷ []))
find_level_table-Located_example =
    find_level_table-Located two_tables (6 ∷ []) two_tables-IsDisjoint

overlapping_tables-IsNamed : All (IsNamed overlapping_tables) overlapping_tables
unfolding bytes_equal
overlapping_tables-IsNamed =
    ((λ e. refl, (λ e. absurd (cc e), tt)), ((λ e. absurd (cc e), (λ e. refl, tt)), tt))

chosen_of-ChosenOrApart_example :
    (c : Chosen) × (chosen_of overlapping_tables ≡ some c)
    × All (ChosenOrApart overlapping_tables c) overlapping_tables
    × Covers overlapping_tables c
    × (is_selected c.names
          (get_or overlapping_tables (length overlapping_tables - 1) no_meta).filename
        ≡ true)
chosen_of-ChosenOrApart_example =
    chosen_of-ChosenOrApart overlapping_tables overlapping_tables-IsNamed

-- Iterators over lists.
abbrev list_source : Source (List Entry)
list_source = record {
  current = λ es. elim es [ [] ↦ none | e ∷ rest ↦ some e ];
  error = λ es. none;
  next = λ es. elim es [ [] ↦ [] | e ∷ rest ↦ rest ];
}

abbrev newer_entries : List Entry
newer_entries = ((1 ∷ []), (7 ∷ [])) ∷ ((3 ∷ []), (8 ∷ [])) ∷ []

abbrev older_entries : List Entry
older_entries = ((1 ∷ []), (5 ∷ [])) ∷ ((2 ∷ []), (6 ∷ [])) ∷ []

abbrev both_entries : List (List Entry)
both_entries = newer_entries ∷ older_entries ∷ []

both_entries-AllSorted : AllSorted both_entries
unfolding bytes_compare
both_entries-AllSorted = (((refl, tt), (tt, tt)), (((refl, tt), (tt, tt)), tt))

merge_iterator-Yields_example :
    (merged : List Entry) × Yields
      (merge_source list_source)
      (new_compaction_merge_iterator list_source both_entries)
      merged
    × Sorted merged
    × (length merged ≤ total both_entries)
    × ((key : List ℕ) → find merged key ≡ find_first both_entries key)
merge_iterator-Yields_example =
    merge_iterator-Yields list_source both_entries both_entries
      ((refl, refl, (refl, refl, (refl, refl))), ((refl, refl, (refl, refl, (refl, refl))), tt))
      both_entries-AllSorted

-- A table is its name and its entries.
abbrev NamedTable : Type 0
NamedTable = List ℕ × List Entry

abbrev name_of : NamedTable → List ℕ
name_of t = t.0

abbrev get : NamedTable → List ℕ → Result (Option (List ℕ))
get t key = ok (find t.1 key)

abbrev old_meta : TableMeta
old_meta = record low_table { level = 0 }

abbrev new_meta : TableMeta
new_meta = record high_table { level = 0 }

abbrev old_levels : LevelState NamedTable
old_levels = record {
  levels =
      record { level = 0; meta = old_meta ∷ []; tables = ((49 ∷ []), older_entries) ∷ [] } ∷ [];
  flat_meta = old_meta ∷ [];
  flat_tables = ((49 ∷ []), older_entries) ∷ [];
}

build_level_state-IsNewest_example :
    (after : LevelState NamedTable) × (build_level_state name_of
        (new_meta ∷ old_meta ∷ [])
        (((50 ∷ []), newer_entries) ∷ ((49 ∷ []), older_entries) ∷ [])
      ≡ ok after)
    × IsNewest name_of new_meta
        ((50 ∷ []), newer_entries)
        (((49 ∷ []), older_entries) ∷ [])
        refl
        (unfold table_by_name bytes_equal in refl)
        get
        old_levels.levels
        after.levels
build_level_state-IsNewest_example =
    build_level_state-IsNewest name_of new_meta ((50 ∷ []), newer_entries)
      (((49 ∷ []), older_entries) ∷ []) refl (unfold table_by_name bytes_equal in refl) get
      (old_meta ∷ []) old_levels refl (omega arith, tt)
      (unfold build_level_state sort_table_meta_for_level bytes_equal in refl)

-- A flush makes a table of the builder's entries, but the fourth fails.
abbrev flush_fn : ℕ → SortedEntries → Result NamedTable
flush_fn n m = if n == 3 then err io_error else ok (n ∷ [], m.0)

abbrev small_plan : CompactionPlan
small_plan = record {
  source_level = 0;
  target_level = 1;
  source_tables = [];
  target_tables = [];
  target_output_bytes = 3;
  drop_tombstones = true;
}
