-- ===== src/Compaction.antt =====
-- compaction.go and manifest.go: the tables' metadata, the choice of the tables to compact, and the
-- lookup through the levels.
pub mod Selection
pub mod Closure
pub mod Apart
pub mod Levels
pub mod Grouping
pub mod Newest
pub mod Installed
pub mod Merge
pub mod Merged
pub mod FirstWins
pub mod MergedLookup
pub mod Merging
pub mod Building
pub mod Kept
pub mod Groups
pub mod Built
mod Examples
use seol.Base.{
  ℕ, zero, suc, ◌+◌, ◌-◌, ◌<◌, Bool, true, false, not, ◌&&◌, ◌||◌, Option, none, some, List, [],
  ◌∷◌, ◌++◌,
}
use seol.Base.{ltb, ◌==◌, if◌then◌else◌, length, get_or, get_elem?}
use seol.Base.Result.{Error, Result, ok, err, ◌>>=◌}
use seol.Base.Order.{bytes_equal, bytes_lt}
use seol.Base.Search.{search}
use seol.Vlog.{Log}
use seol.Stored.{Resolved, value, deleted, resolve_stored_value}

-- A file name is its bytes. The level and the time are never negative in what the program writes.
pub record TableMeta : Type 0 where
  pub filename : List ℕ
  pub level : ℕ
  pub smallest : List ℕ
  pub largest : List ℕ
  pub size_bytes : ℕ
  pub created_at : ℕ

abbrev pub no_meta : TableMeta
no_meta = record {
  filename = [];
  level = 0;
  smallest = [];
  largest = [];
  size_bytes = 0;
  created_at = 0;
}

-- The test of both loops for tables that lie beside the bounds.
abbrev pub is_outside : TableMeta → List ℕ → List ℕ → Bool
is_outside t smallest largest = bytes_lt t.largest smallest || bytes_lt largest t.smallest

abbrev pub lower : List ℕ → List ℕ → List ℕ
lower a b = if bytes_lt a b then a else b

abbrev pub higher : List ℕ → List ℕ → List ℕ
higher a b = if bytes_lt b a then a else b

unfoldable pub bounds_loop : List TableMeta → List ℕ → List ℕ → List ℕ × List ℕ
bounds_loop [] smallest largest = (smallest, largest)
bounds_loop (t ∷ tables) smallest largest =
    bounds_loop tables (lower t.smallest smallest) (higher t.largest largest)

-- Empty bounds are nil.
unfoldable pub table_meta_bounds : List TableMeta → List ℕ × List ℕ
unfolding bounds_loop
table_meta_bounds [] = ([], [])
table_meta_bounds (t ∷ tables) = bounds_loop tables t.smallest t.largest

unfoldable pub overlapping : List TableMeta → List ℕ → List ℕ → List TableMeta
overlapping [] smallest largest = []
overlapping (t ∷ tables) smallest largest =
    let rest = overlapping tables smallest largest in
    if is_outside t smallest largest then rest else t ∷ rest

pub record Level {ℓ} (T : Type ℓ) : Type ℓ where
  pub level : ℕ
  pub meta : List TableMeta
  pub tables : List T

unfoldable pub overlapping_table_meta {ℓ} :
    {T : Type ℓ} → List (Level T) → ℕ → List ℕ → List ℕ → List TableMeta
unfolding overlapping
overlapping_table_meta [] level smallest largest = []
overlapping_table_meta (candidate ∷ levels) level smallest largest =
    let rest = overlapping_table_meta levels level smallest largest in
    if candidate.level == level then overlapping candidate.meta smallest largest else rest

unfoldable pub max_table_level {ℓ} : {T : Type ℓ} → List (Level T) → ℕ
max_table_level [] = 0
max_table_level (l ∷ []) = l.level
max_table_level (l ∷ m ∷ levels) = max_table_level (m ∷ levels)

-- The order of `sortTableMetaForLevel`: newest first at level 0, else by the smallest key.
unfoldable pub comes_before : ℕ → TableMeta → TableMeta → Bool
comes_before level a b =
    let older = ltb a.created_at b.created_at in
    let tie = a.created_at == b.created_at in
    if level == 0
    then (if tie then bytes_lt b.filename a.filename else ltb b.created_at a.created_at)
    else if not (bytes_equal a.smallest b.smallest)
    then bytes_lt a.smallest b.smallest
    else if tie
    then bytes_lt a.filename b.filename
    else older

unfoldable pub insert_sorted : ℕ → TableMeta → List TableMeta → List TableMeta
unfolding comes_before
insert_sorted level t [] = t ∷ []
insert_sorted level t (u ∷ tables) =
    let rest = insert_sorted level t tables in
    if comes_before level u t then u ∷ rest else t ∷ u ∷ tables

-- sort.Slice, whose answer the order decides for tables of different names.
unfoldable pub sort_table_meta_for_level : ℕ → List TableMeta → List TableMeta
unfolding insert_sorted
sort_table_meta_for_level level [] = []
sort_table_meta_for_level level (t ∷ tables) =
    insert_sorted level t (sort_table_meta_for_level level tables)

-- `none` is -1.
unfoldable pub find_level_table : List TableMeta → List ℕ → Option ℕ
find_level_table meta key =
    let idx = search (λ i. not (bytes_lt (get_or meta i no_meta).largest key)) (length meta) in
    if idx == length meta
    then none
    else if bytes_lt key (get_or meta idx no_meta).smallest
    then none
    else some idx

-- db.go: `readStoredValue`, which answers nil for a deletion.
unfoldable pub read_stored_value : Option Log → List ℕ → Result (Option (List ℕ))
read_stored_value value_log stored = elim (resolve_stored_value value_log stored) [
  | err e ↦ err e
  | ok resolved ↦ elim resolved [ value v ↦ ok (some v) | deleted ↦ ok none ]
]

-- The lookup in a table that is open, whose cache changes no answer.
module _ {ℓ} {T : Type ℓ} (get : T → List ℕ → Result (Option (List ℕ))) where
  unfoldable pub lookup_tables : List T → List ℕ → Result (Option (List ℕ))
  lookup_tables [] key = ok none
  lookup_tables (t ∷ tables) key = elim (get t key) [
    | err e ↦ err e
    | ok found ↦ elim found [ some stored ↦ ok (some stored) | none ↦ lookup_tables tables key ]
  ]

  -- An index that `tables` lacks does not occur: each table has its metadata.
  unfoldable pub lookup_level : Level T → List ℕ → Result (Option (List ℕ))
  unfolding lookup_tables
  lookup_level l key =
      if l.level == 0 then lookup_tables l.tables key else elim (find_level_table l.meta key) [
        | none ↦ ok none
        | some idx ↦ elim (get_elem? l.tables idx) [ none ↦ ok none | some t ↦ get t key ]
      ]

  unfoldable pub stored_in_levels : List (Level T) → List ℕ → Result (Option (List ℕ))
  unfolding lookup_level
  stored_in_levels [] key = ok none
  stored_in_levels (l ∷ levels) key = elim (lookup_level l key) [
    | err e ↦ err e
    | ok found ↦ elim found [ some stored ↦ ok (some stored) | none ↦ stored_in_levels levels key ]
  ]

  -- What is stored is resolved through the value log; `none` is the nil of a missing key.
  unfoldable pub lookup_levels : List (Level T) → Option Log → List ℕ → Result (Option (List ℕ))
  unfolding stored_in_levels read_stored_value
  lookup_levels levels value_log key = elim (stored_in_levels levels key) [
    | err e ↦ err e
    | ok found ↦ elim found [ none ↦ ok none | some stored ↦ read_stored_value value_log stored ]
  ]
