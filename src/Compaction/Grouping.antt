-- ===== src/Compaction/Grouping.antt =====
-- compaction.go: groupTableMetaByLevel, orderTableMetaForManifest and buildLevelState.
use seol.Base.{ℕ, Option, none, some, List, [], ◌∷◌, ◌++◌, ltb, ◌==◌, if◌then◌else◌}
use seol.Base.Result.{Result, ok, err, ◌>>=◌, missing_table}
use seol.Base.Order.{bytes_equal}
use seol.Compaction.{TableMeta, Level, sort_table_meta_for_level}

-- A level that was seen is not added again, and `sort.Ints` puts the levels in order.
unfoldable pub insert_level : ℕ → List ℕ → List ℕ
insert_level n [] = n ∷ []
insert_level n (m ∷ levels) =
    let rest = insert_level n levels in
    if n == m then m ∷ levels else if ltb n m then n ∷ m ∷ levels else m ∷ rest

-- `levels`, once sorted.
unfoldable pub level_numbers : List TableMeta → List ℕ
unfolding insert_level
level_numbers [] = []
level_numbers (t ∷ tables) = insert_level t.level (level_numbers tables)

-- `grouped[level]`, in the order of the tables.
unfoldable pub of_level : ℕ → List TableMeta → List TableMeta
of_level level [] = []
of_level level (t ∷ tables) =
    let rest = of_level level tables in if t.level == level then t ∷ rest else rest

unfoldable pub group_levels {ℓ} : {T : Type ℓ} → List ℕ → List TableMeta → List (Level T)
unfolding of_level
group_levels [] tables = []
group_levels (n ∷ levels) tables =
    record { level = n; meta = sort_table_meta_for_level n (of_level n tables); tables = [] }
    ∷ group_levels levels tables

-- The levels' tables are not open yet.
unfoldable pub group_table_meta_by_level {ℓ} : {T : Type ℓ} → List TableMeta → List (Level T)
unfolding group_levels level_numbers
group_table_meta_by_level tables = group_levels (level_numbers tables) tables

unfoldable pub all_meta {ℓ} : {T : Type ℓ} → List (Level T) → List TableMeta
all_meta [] = []
all_meta (l ∷ levels) = l.meta ++ all_meta levels

unfoldable pub all_tables {ℓ} : {T : Type ℓ} → List (Level T) → List T
all_tables [] = []
all_tables (l ∷ levels) = l.tables ++ all_tables levels

-- The flattened list has as many tables as there are, so that `copy` replaces them all.
unfoldable pub order_table_meta_for_manifest : List TableMeta → List TableMeta
unfolding all_meta group_table_meta_by_level
order_table_meta_for_manifest tables = all_meta {T = Unit {0}} (group_table_meta_by_level tables)

-- What buildLevelState returns beside its error.
pub record LevelState {ℓ} (T : Type ℓ) : Type ℓ where
  pub levels : List (Level T)
  pub flat_meta : List TableMeta
  pub flat_tables : List T

module _ {ℓ} {T : Type ℓ} (name_of : T → List ℕ) where
  -- `tableByName[name]`: of two tables with a name the later counts.
  unfoldable pub table_by_name : List T → List ℕ → Option T
  table_by_name [] name = none
  table_by_name (t ∷ tables) name = elim (table_by_name tables name) [
    | some later ↦ some later
    | none ↦ if bytes_equal (name_of t) name then some t else none
  ]

  unfoldable pub tables_of : List T → List TableMeta → Result (List T)
  unfolding table_by_name
  tables_of tables [] = ok []
  tables_of tables (m ∷ meta) = elim (table_by_name tables m.filename) [
    | none ↦ err missing_table
    | some t ↦ do ts ← tables_of tables meta; ok (t ∷ ts)
  ]

  unfoldable pub build_levels : List T → List ℕ → List TableMeta → Result (List (Level T))
  unfolding tables_of of_level
  build_levels tables [] meta = ok []
  build_levels tables (n ∷ levels) meta = do
    let ordered = sort_table_meta_for_level n (of_level n meta)
    ts ← tables_of tables ordered
    rest ← build_levels tables levels meta
    ok (record { level = n; meta = ordered; tables = ts } ∷ rest)

  unfoldable pub build_level_state : List TableMeta → List T → Result (LevelState T)
  unfolding build_levels level_numbers all_meta all_tables
  build_level_state meta tables = do
    levels ← build_levels tables (level_numbers meta) meta
    ok (record { levels = levels; flat_meta = all_meta levels; flat_tables = all_tables levels })
