-- ===== src/Compaction/Newest.antt =====
-- compaction.go: a new table of level 0 comes before all others in the lookup.
use mathlib.Core.Path.{subst}
use seol.Base.{ℕ, zero, suc, ◌<◌, ◌≡◌, refl, sym, arith}
use seol.Base.{
  List, [], ◌∷◌, ltb, ◌==◌, ==_iff, if◌then◌else◌, All, Option-cases, if_cases, ltb→lt, inl, inr,
  ◌⊎◌,
}
use seol.Base.Result.{Result, Result-cases, ok, ◌>>=◌, bind_both}
use seol.Compaction.{TableMeta, Level, comes_before, insert_sorted, sort_table_meta_for_level}
use seol.Compaction.Grouping.{
  insert_level, level_numbers, of_level, table_by_name, tables_of, build_levels,
}

abbrev pub Older : TableMeta → List TableMeta → Type 0
Older new = All (λ (t : TableMeta). t.created_at < new.created_at)

insert_sorted-Older :
    (new t : TableMeta) (tables : List TableMeta)
    → t.created_at < new.created_at
    → Older new tables
    → Older new (insert_sorted 0 t tables)
unfolding insert_sorted
insert_sorted-Older new t [] h hs = (h, tt)
insert_sorted-Older new t (u ∷ tables) h hs =
    if_cases (All (λ (t : TableMeta). t.created_at < new.created_at)) (comes_before 0 u t)
      (u ∷ insert_sorted 0 t tables) (t ∷ u ∷ tables)
      (λ e. (hs.0, insert_sorted-Older new t tables h hs.1)) (λ e. (h, hs))

sort-Older :
    (new : TableMeta) (tables : List TableMeta)
    → Older new tables
    → Older new (sort_table_meta_for_level 0 tables)
unfolding sort_table_meta_for_level
sort-Older new [] h = tt
sort-Older new (t ∷ tables) h =
    insert_sorted-Older new t (sort_table_meta_for_level 0 tables) h.0 (sort-Older new tables h.1)

of_level-Older :
    (new : TableMeta) (n : ℕ) (tables : List TableMeta)
    → Older new tables
    → Older new (of_level n tables)
unfolding of_level
of_level-Older new n [] h = tt
of_level-Older new n (t ∷ tables) h =
    if_cases (All (λ (t : TableMeta). t.created_at < new.created_at)) (t.level == n)
      (t ∷ of_level n tables) (of_level n tables) (λ e. (h.0, of_level-Older new n tables h.1))
      (λ e. of_level-Older new n tables h.1)

insert_sorted_newest :
    (new : TableMeta) (tables : List TableMeta)
    → Older new tables
    → insert_sorted 0 new tables ≡ new ∷ tables
unfolding insert_sorted comes_before
insert_sorted_newest new [] h = refl
insert_sorted_newest new (u ∷ tables) h = ground (arith, h.0)

-- The newest table is the first of level 0.
pub sort_newest :
    (new : TableMeta) (tables : List TableMeta)
    → new.level ≡ 0
    → Older new tables
    → sort_table_meta_for_level 0 (of_level 0 (new ∷ tables))
      ≡ new ∷ sort_table_meta_for_level 0 (of_level 0 tables)
unfolding sort_table_meta_for_level of_level
sort_newest new tables e h = rw ((==_iff new.level 0).1 e) (
    insert_sorted_newest new (sort_table_meta_for_level 0 (of_level 0 tables))
      (sort-Older new (of_level 0 tables) (of_level-Older new 0 tables h)))

-- A sorted list of levels.
abbrev pub Ascending : List ℕ → Type 0
Ascending [] = Unit
Ascending (n ∷ levels) = All (λ m. n < m) levels × Ascending levels

insert_level-above :
    (k n : ℕ) (levels : List ℕ)
    → k < n
    → All (λ m. k < m) levels
    → All (λ m. k < m) (insert_level n levels)
unfolding insert_level
insert_level-above k n [] h hs = (h, tt)
insert_level-above k n (m ∷ levels) h hs =
    if_cases (All (λ m. k < m)) (n == m) (m ∷ levels)
      (if ltb n m then n ∷ m ∷ levels else m ∷ insert_level n levels) (λ e. hs)
      (λ e.
        if_cases (All (λ m. k < m)) (ltb n m) (n ∷ m ∷ levels) (m ∷ insert_level n levels)
          (λ less. (h, hs)) (λ more. (hs.0, insert_level-above k n levels h hs.1)))

above_trans :
    (k n : ℕ) (levels : List ℕ) → k < n → All (λ m. n < m) levels → All (λ m. k < m) levels
above_trans k n [] h hs = tt
above_trans k n (m ∷ levels) h hs = (omega (arith, hs.0), above_trans k n levels h hs.1)

insert_level-Ascending :
    (n : ℕ) (levels : List ℕ) → Ascending levels → Ascending (insert_level n levels)
unfolding insert_level
insert_level-Ascending n [] h = (tt, tt)
insert_level-Ascending n (m ∷ levels) h =
    if_cases Ascending (n == m) (m ∷ levels)
      (if ltb n m then n ∷ m ∷ levels else m ∷ insert_level n levels) (λ e. h)
      (λ e.
        if_cases Ascending (ltb n m) (n ∷ m ∷ levels) (m ∷ insert_level n levels)
          (λ less. ((ltb→lt n m less, above_trans n m levels (ltb→lt n m less) h.0), h))
          (λ more. (
            insert_level-above m n levels (ground arith) h.0,
            insert_level-Ascending n levels h.1,
          )))

pub level_numbers-Ascending : (tables : List TableMeta) → Ascending (level_numbers tables)
unfolding level_numbers
level_numbers-Ascending [] = tt
level_numbers-Ascending (t ∷ tables) =
    insert_level-Ascending t.level (level_numbers tables) (level_numbers-Ascending tables)

pub insert_level_zero :
    (levels : List ℕ)
    → Ascending levels
    → ((rest : List ℕ) × (levels ≡ 0 ∷ rest)
        × (insert_level 0 levels ≡ 0 ∷ rest)
        × All (λ m. 0 < m) rest)
      ⊎ ((insert_level 0 levels ≡ 0 ∷ levels) × All (λ m. 0 < m) levels)
unfolding insert_level
insert_level_zero [] h = inr (refl, tt)
insert_level_zero (zero ∷ levels) h = inl (levels, refl, refl, h.0)
insert_level_zero (suc m ∷ levels) h =
    inr (ground arith, (omega arith, above_trans 0 (suc m) levels (omega arith) h.0))

of_level_other :
    (new : TableMeta) (n : ℕ) (meta : List TableMeta)
    → new.level ≡ 0
    → 0 < n
    → of_level n (new ∷ meta) ≡ of_level n meta
unfolding of_level
of_level_other new n meta z h = ground arith

module _ {ℓ} {T : Type ℓ} (name_of : T → List ℕ) where
  pub tables_of_more :
      (sst : T) (tables : List T) (meta : List TableMeta) (ts : List T)
      → tables_of name_of tables meta ≡ ok ts
      → tables_of name_of (sst ∷ tables) meta ≡ ok ts
  unfolding tables_of table_by_name
  tables_of_more sst tables [] ts e = e
  tables_of_more sst tables (m ∷ meta) ts e =
      elim (Option-cases (table_by_name name_of tables m.filename)) [
        | inl q ↦ absurd (cc (rw (q, tables_of) at e))
        | inr (t, q) ↦ elim (Result-cases (tables_of name_of tables meta)) [
          | inr (x, q') ↦ absurd (cc (rw (q, q', tables_of) at e))
          | inl (us, q') ↦
              rw (q, tables_of)
                (rw (tables_of_more sst tables meta us q') (rw (q, q', tables_of) at e))
        ]
      ]

  abbrev pub with_ordered :
      List T → List ℕ → List TableMeta → ℕ → List TableMeta → Result (List (Level T))
  with_ordered tables levels meta n ordered = do
    ts ← tables_of name_of tables ordered
    rest ← build_levels name_of tables levels meta
    ok (record { level = n; meta = ordered; tables = ts } ∷ rest)

  pub build_levels_more :
      (new : TableMeta) (sst : T) (tables : List T) (levels : List ℕ) (meta : List TableMeta)
      (built : List (Level T))
      → new.level ≡ 0
      → All (λ m. 0 < m) levels
      → build_levels name_of tables levels meta ≡ ok built
      → build_levels name_of (sst ∷ tables) levels (new ∷ meta) ≡ ok built
  unfolding build_levels of_level
  build_levels_more new sst tables [] meta built z h e = e
  build_levels_more new sst tables (n ∷ levels) meta built z h e =
      let same : of_level n (new ∷ meta) ≡ of_level n meta = of_level_other new n meta z h.0 in
      let ordered = sort_table_meta_for_level n (of_level n meta) in
      subst
        (λ o.
          with_ordered (sst ∷ tables) levels (new ∷ meta) n (sort_table_meta_for_level n o)
          ≡ ok built)
        (sym same)
        (bind_both (tables_of name_of tables ordered) (tables_of name_of (sst ∷ tables) ordered)
          (λ ts. build_levels name_of tables levels meta >>= λ rest.
            ok (record { level = n; meta = ordered; tables = ts } ∷ rest))
          (λ ts. build_levels name_of (sst ∷ tables) levels (new ∷ meta) >>= λ rest.
            ok (record { level = n; meta = ordered; tables = ts } ∷ rest))
          built (λ ts. tables_of_more sst tables ordered ts)
          (λ ts.
            bind_both (build_levels name_of tables levels meta)
              (build_levels name_of (sst ∷ tables) levels (new ∷ meta))
              (λ rest. ok (record { level = n; meta = ordered; tables = ts } ∷ rest))
              (λ rest. ok (record { level = n; meta = ordered; tables = ts } ∷ rest)) built
              (λ rest q. build_levels_more new sst tables levels meta rest z h.1 q) (λ rest q. q))
          e)
