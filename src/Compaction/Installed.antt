-- ===== src/Compaction/Installed.antt =====
-- compaction.go: the levels that buildLevelState makes of the tables with a new one in front.
use mathlib.Core.Path.{subst}
use seol.Base.{ℕ, ◌<◌, ◌≡◌, refl, sym, ap, ◌∙◌, arith}
use seol.Base.{
  Option, none, some, List, [], ◌∷◌, ◌==◌, All, length, ltb, ==_iff, Bool-cases, inl, inr,
}
use seol.Base.Result.{Result, Result-cases, ok, err, ◌>>=◌, map_result}
use seol.Base.Order.{bytes_equal_refl}
use seol.Compaction.{
  TableMeta, Level, sort_table_meta_for_level, lookup_tables, lookup_level, stored_in_levels,
}
use seol.Compaction.Grouping.{
  insert_level, level_numbers, of_level, table_by_name, tables_of, build_levels, build_level_state,
  LevelState, all_meta, all_tables,
}
use seol.Compaction.Newest.{
  with_ordered, Older, Ascending, level_numbers-Ascending, insert_level_zero, sort_newest,
  tables_of_more, build_levels_more,
}

-- An answer, or else the next.
abbrev pub first_found :
    Result (Option (List ℕ)) → Result (Option (List ℕ)) → Result (Option (List ℕ))
first_found (err e) rest = err e
first_found (ok none) rest = rest
first_found (ok (some stored)) rest = ok (some stored)

sorted_nil : sort_table_meta_for_level 0 [] ≡ []
unfolding sort_table_meta_for_level
sorted_nil = refl

insert_level-parts :
    (n : ℕ) (levels : List ℕ)
    → All (λ m. 0 < m) (insert_level n levels)
    → (0 < n) × All (λ m. 0 < m) levels
unfolding insert_level
insert_level-parts n [] h = (h.0, tt)
insert_level-parts n (m ∷ levels) h = elim (Bool-cases (n == m)) [
  | inl e ↦
      let h' : All (λ m. 0 < m) (m ∷ levels) = rw e at h in
      (omega (arith, h'.0, (==_iff n m).0 e), h')
  | inr e ↦ elim (Bool-cases (ltb n m)) [
    | inl less ↦ rw (e, less) at h
    | inr more ↦
        let h' : All (λ m. 0 < m) (m ∷ insert_level n levels) = rw (e, more) at h in
        let (pos, rest) = insert_level-parts n levels h'.1 in (pos, (h'.0, rest))
  ]
]

no_level_zero :
    (meta : List TableMeta) → All (λ m. 0 < m) (level_numbers meta) → of_level 0 meta ≡ []
unfolding level_numbers of_level
no_level_zero [] h = refl
no_level_zero (t ∷ meta) h =
    let (pos, rest) = insert_level-parts t.level (level_numbers meta) h in
    ground (arith, no_level_zero meta rest)

module _ {T : Type 0} (name_of : T → List ℕ) (new : TableMeta) (sst : T) (tables : List T)
    (named : name_of sst ≡ new.filename)
    (unused : table_by_name name_of tables new.filename ≡ none) where
  finds_new : table_by_name name_of (sst ∷ tables) new.filename ≡ some sst
  unfolding table_by_name
  finds_new = rw (unused, table_by_name) (rw (named, bytes_equal_refl new.filename) refl)

  tables_of_new :
      (meta : List TableMeta) (ts : List T)
      → tables_of name_of tables meta ≡ ok ts
      → tables_of name_of (sst ∷ tables) (new ∷ meta) ≡ ok (sst ∷ ts)
  unfolding tables_of
  tables_of_new meta ts e =
      rw (finds_new, tables_of) (rw (tables_of_more name_of sst tables meta ts e) refl)

  built_head :
      (n : ℕ) (levels : List ℕ) (meta : List TableMeta) (built : List (Level T))
      → build_levels name_of tables (n ∷ levels) meta ≡ ok built
      → let ordered = sort_table_meta_for_level n (of_level n meta) in
        (ts : List T) × (rest : List (Level T)) × (tables_of name_of tables ordered ≡ ok ts)
        × (build_levels name_of tables levels meta ≡ ok rest)
        × (built ≡ record { level = n; meta = ordered; tables = ts } ∷ rest)
  unfolding build_levels
  built_head n levels meta built e =
      let ordered = sort_table_meta_for_level n (of_level n meta) in
      elim (Result-cases (tables_of name_of tables ordered)) [
        | inr (x, q) ↦ absurd (cc (rw (q, build_levels) at e))
        | inl (ts, q) ↦ elim (Result-cases (build_levels name_of tables levels meta)) [
          | inr (x, q') ↦ absurd (cc (rw (q, q', build_levels) at e))
          | inl (rest, q') ↦ (ts, rest, q, q', cc (rw (q, q', build_levels) at e))
        ]
      ]

  build_zero :
      (levels : List ℕ) (meta : List TableMeta) (ts : List T) (rest : List (Level T))
      → new.level ≡ 0
      → Older new meta
      → All (λ m. 0 < m) levels
      → tables_of name_of tables (sort_table_meta_for_level 0 (of_level 0 meta)) ≡ ok ts
      → build_levels name_of tables levels meta ≡ ok rest
      → build_levels name_of (sst ∷ tables) (0 ∷ levels) (new ∷ meta)
        ≡ ok (
            record {
              level = 0;
              meta = new ∷ sort_table_meta_for_level 0 (of_level 0 meta);
              tables = sst ∷ ts;
            }
            ∷ rest)
  unfolding build_levels
  build_zero levels meta ts rest z older above found e =
      let ordered = sort_table_meta_for_level 0 (of_level 0 meta) in
      subst
        (λ o.
          with_ordered name_of (sst ∷ tables) levels (new ∷ meta) 0 o
          ≡ ok (record { level = 0; meta = new ∷ ordered; tables = sst ∷ ts } ∷ rest))
        (sym (sort_newest new meta z older))
        (rw
          (
            tables_of_new ordered ts found,
            build_levels_more name_of new sst tables levels meta rest z above e,
          )
          refl)

  no_tables : tables_of name_of tables [] ≡ ok []
  unfolding tables_of
  no_tables = refl

  module _ (get : T → List ℕ → Result (Option (List ℕ))) where
    -- Level 0 with the new table in front, and the other levels.
    newest_found :
        (meta : List TableMeta) (ts : List T) (rest : List (Level T)) (key : List ℕ)
        → let l : Level T = record { level = 0; meta = new ∷ meta; tables = sst ∷ ts } in
          stored_in_levels get (l ∷ rest) key
          ≡ first_found
              (get sst key)
              (stored_in_levels get (record { level = 0; meta = meta; tables = ts } ∷ rest) key)
    unfolding stored_in_levels lookup_level lookup_tables
    newest_found meta ts rest key = ground arith

    -- A level 0 with no table finds nothing.
    empty_level :
        (rest : List (Level T)) (key : List ℕ)
        → stored_in_levels get (record { level = 0; meta = []; tables = [] } ∷ rest) key
          ≡ stored_in_levels get rest key
    unfolding stored_in_levels lookup_level lookup_tables
    empty_level rest key = refl

    -- The lookup goes to the new table first.
    abbrev pub IsNewest : List (Level T) → List (Level T) → Type 0
    IsNewest before after =
        (0 < length after)
        × ((key : List ℕ)
            → stored_in_levels get after key
              ≡ first_found (get sst key) (stored_in_levels get before key))

    IsNewest-level :
        (levels : List ℕ) (meta : List TableMeta) (built : List (Level T))
        → new.level ≡ 0
        → Older new meta
        → Ascending levels
        → (All (λ m. 0 < m) levels → of_level 0 meta ≡ [])
        → build_levels name_of tables levels meta ≡ ok built
        → (after : List (Level T)) × (build_levels name_of
              (sst ∷ tables)
              (insert_level 0 levels)
              (new ∷ meta)
            ≡ ok after)
          × IsNewest built after
    IsNewest-level levels meta built z older up none_zero e =
        let ordered = sort_table_meta_for_level 0 (of_level 0 meta) in
        elim (insert_level_zero levels up) [
          | inl (rest, is_zero, same, above) ↦
              let (ts, others, found, e', q) = built_head 0 rest meta built (rw is_zero at e) in
              (
                record { level = 0; meta = new ∷ ordered; tables = sst ∷ ts } ∷ others,
                rw same (build_zero rest meta ts others z older above found e'),
                (omega arith, λ key. rw q (newest_found ordered ts others key)),
              )
          | inr (same, above) ↦
              let nothing : ordered ≡ [] =
                ap (sort_table_meta_for_level 0) (none_zero above) ∙ sorted_nil in
              (
                record { level = 0; meta = new ∷ []; tables = sst ∷ [] } ∷ built,
                rw same (
                    subst
                      (λ o.
                        build_levels name_of (sst ∷ tables) (0 ∷ levels) (new ∷ meta)
                        ≡ ok (record { level = 0; meta = new ∷ o; tables = sst ∷ [] } ∷ built))
                      nothing
                      (build_zero levels meta [] built z older above
                        (ap (tables_of name_of tables) nothing ∙ no_tables) e)),
                (
                  omega arith,
                  λ key.
                      newest_found [] [] built key
                      ∙ ap (first_found (get sst key)) (empty_level built key),
                ),
              )
        ]

    abbrev state_of : List (Level T) → LevelState T
    state_of built = record {
      levels = built;
      flat_meta = all_meta built;
      flat_tables = all_tables built;
    }

    -- A table of level 0 that is newer than all others and has a new name is installed in front of
    -- them: if the levels of the tables could be built, so can they with it, and a lookup in the new
    -- levels answers what the new table has for the key, or its error, and else what the old levels
    -- answer.
    pub build_level_state-IsNewest :
        (meta : List TableMeta) (before : LevelState T)
        → new.level ≡ 0
        → Older new meta
        → build_level_state name_of meta tables ≡ ok before
        → (after : LevelState T) × (build_level_state name_of (new ∷ meta) (sst ∷ tables)
            ≡ ok after)
          × IsNewest before.levels after.levels
    unfolding build_level_state level_numbers
    build_level_state-IsNewest meta before z older e =
        elim (Result-cases (build_levels name_of tables (level_numbers meta) meta)) [
          | inr (x, q) ↦ absurd (cc (rw (q, build_level_state) at e))
          | inl (levels, q) ↦
              let same : levels ≡ before.levels = cc (
                ap (map_result (λ (s : LevelState T). s.levels))
                  (rw (q, build_level_state) at e)) in
              let (after, q', newest) =
                IsNewest-level (level_numbers meta) meta levels z older
                  (level_numbers-Ascending meta) (no_level_zero meta) q in
              (
                state_of after,
                subst
                    (λ n.
                      (build_levels name_of (sst ∷ tables) (insert_level n (level_numbers meta))
                          (new ∷ meta)
                        >>= λ built. ok (state_of built))
                      ≡ ok (state_of after))
                    (sym z) (rw q' refl),
                rw (← same) newest,
              )
        ]
