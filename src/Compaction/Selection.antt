-- ===== src/Compaction/Selection.antt =====
-- compaction.go: selectL0CompactionSource.
use seol.Base.{ℕ, zero, suc, ◌-◌, Bool, true, false, ◌||◌, Option, none, some, List, [], ◌∷◌}
use seol.Base.{◌==◌, if◌then◌else◌, length, get_or}
use seol.Base.Order.{bytes_equal}
use seol.Compaction.{TableMeta, no_meta, is_outside, lower, higher}

-- The names that are selected, and the bounds of what is.
pub record Chosen : Type 0 where
  pub names : List (List ℕ)
  pub smallest : List ℕ
  pub largest : List ℕ

unfoldable pub is_selected : List (List ℕ) → List ℕ → Bool
is_selected [] name = false
is_selected (n ∷ names) name = if bytes_equal n name then true else is_selected names name

unfoldable pub widen : Chosen → TableMeta → Chosen
widen c t = record {
  names = t.filename ∷ c.names;
  smallest = lower t.smallest c.smallest;
  largest = higher t.largest c.largest;
}

-- The body of `for _, table := range l0`, and that loop; the Boolean is `changed`.
unfoldable pub select_step : TableMeta → Chosen × Bool → Chosen × Bool
unfolding is_selected widen
select_step t (c, changed) =
    if is_selected c.names t.filename || is_outside t c.smallest c.largest
    then (c, changed)
    else (widen c t, true)

unfoldable pub select_pass : List TableMeta → Chosen × Bool → Chosen × Bool
unfolding select_step
select_pass [] s = s
select_pass (t ∷ tables) s = select_pass tables (select_step t s)

-- `for changed`
unfoldable pub select_loop : ℕ → List TableMeta → Chosen → Option Chosen
unfolding select_pass
select_loop zero l0 c = none
select_loop (suc fuel) l0 c =
    let (c', changed) = select_pass l0 (c, false) in
    elim changed [ true ↦ select_loop fuel l0 c' | false ↦ some c' ]

unfoldable pub start : TableMeta → Chosen
start oldest = record {
  names = oldest.filename ∷ [];
  smallest = oldest.smallest;
  largest = oldest.largest;
}

unfoldable pub selected : List (List ℕ) → List TableMeta → List TableMeta
unfolding is_selected
selected names [] = []
selected names (t ∷ l0) =
    let rest = selected names l0 in if is_selected names t.filename then t ∷ rest else rest

-- Each pass but the last selects a table, so one more than the tables are passes enough.
unfoldable pub chosen_of : List TableMeta → Option Chosen
unfolding start select_loop
chosen_of l0 = select_loop (suc (length l0)) l0 (start (get_or l0 (length l0 - 1) no_meta))

unfoldable pub select_l0_compaction_source : List TableMeta → Option (List TableMeta)
unfolding chosen_of selected
select_l0_compaction_source l0 =
    if length l0 == 0
    then some []
    else elim (chosen_of l0) [ none ↦ none | some c ↦ some (selected c.names l0) ]
