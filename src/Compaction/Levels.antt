-- ===== src/Compaction/Levels.antt =====
-- compaction.go: findLevelTable on a level whose tables are sorted and do not overlap.
use native.Mathlib.Decide.{dec_lt}
use seol.Base.{
  ℕ, zero, suc, ◌<◌, Bool, true, false, not, ◌&&◌, ◌≡◌, refl, arith, Option, none, some, List, ◌⊎◌,
  inl, inr,
}
use seol.Base.{
  ◌==◌, ==_refl, lt→==false, if◌then◌else◌, length, get_or, Bool-cases, not→true, not→false,
}
use seol.Base.Order.{bytes_lt, bytes_lt_trans, bytes_lt_le_trans}
use seol.Base.Search.{search, Found, search_lem}
use seol.Compaction.{TableMeta, no_meta, find_level_table}

abbrev pub covers : TableMeta → List ℕ → Bool
covers m key = not (bytes_lt key m.smallest) && not (bytes_lt m.largest key)

-- Each table ends before the next begins.
pub record IsDisjoint (meta : List TableMeta) : Type 0 where
  pub nonempty :
      (i : ℕ)
      → i < length meta
      → bytes_lt (get_or meta i no_meta).largest (get_or meta i no_meta).smallest ≡ false
  pub apart :
      (i j : ℕ)
      → i < j
      → j < length meta
      → bytes_lt (get_or meta i no_meta).largest (get_or meta j no_meta).smallest ≡ true

covers_above : (m : TableMeta) (key : List ℕ) → bytes_lt m.largest key ≡ true → covers m key ≡ false
covers_above m key h = elim (Bool-cases (bytes_lt key m.smallest)) [
  | inl p ↦ rw p refl
  | inr p ↦ rw (p, h) refl
]

covers_below :
    (m : TableMeta) (key : List ℕ) → bytes_lt key m.smallest ≡ true → covers m key ≡ false
covers_below m key h = rw h refl

module _ (meta : List TableMeta) (key : List ℕ) (v : IsDisjoint meta) where
  abbrev at : ℕ → TableMeta
  at i = get_or meta i no_meta

  -- The tables before the answer of the search end below the key.
  ends_below :
      (r i : ℕ)
      → Found (λ i. not (bytes_lt (at i).largest key)) (length meta) r
      → i < r
      → bytes_lt (at i).largest key ≡ true
  ends_below zero i found h = absurd (omega arith)
  ends_below (suc k) i found h =
      let last : bytes_lt (at k).largest key ≡ true = not→true _ (found.fails_before k refl) in
      elim (dec_lt i k) [
        | no p ↦ let same : k ≡ i = omega arith in rw (← same) last
        | yes p ↦
            let low =
              bytes_lt_le_trans (at i).largest (at k).smallest (at k).largest
                (v.apart i k p (omega (arith, found.inside)))
                (v.nonempty k (omega (arith, found.inside))) in
            bytes_lt_trans (at i).largest (at k).largest key low last
      ]

  -- Those behind a table that begins above the key begin above it too.
  begins_above :
      (r i : ℕ)
      → bytes_lt key (at r).smallest ≡ true
      → r < i
      → i < length meta
      → bytes_lt key (at i).smallest ≡ true
  begins_above r i above h inside =
      bytes_lt_trans key (at r).largest (at i).smallest
        (bytes_lt_le_trans key (at r).smallest (at r).largest above (v.nonempty r (omega arith)))
        (v.apart r i h inside)

  none_covers :
      (r i : ℕ)
      → Found (λ i. not (bytes_lt (at i).largest key)) (length meta) r
      → bytes_lt key (at r).smallest ≡ true
      → i < length meta
      → covers (at i) key ≡ false
  none_covers r i found above inside = elim (dec_lt i r) [
    | yes p ↦ covers_above (at i) key (ends_below r i found p)
    | no p ↦ elim (dec_lt r i) [
      | yes q ↦ covers_below (at i) key (begins_above r i above q inside)
      | no q ↦ let same : r ≡ i = omega arith in covers_below (at i) key (rw (← same) above)
    ]
  ]

  abbrev answer : ℕ → Option ℕ
  answer r =
      if r == length meta then none else if bytes_lt key (at r).smallest then none else some r

  abbrev pub Located : Option ℕ → Type 0
  Located o =
      ((i : ℕ) × (o ≡ some i) × (i < length meta) × (covers (at i) key ≡ true))
      ⊎ ((o ≡ none) × ((i : ℕ) → i < length meta → covers (at i) key ≡ false))

  located :
      (r : ℕ) → Found (λ i. not (bytes_lt (at i).largest key)) (length meta) r → Located (answer r)
  located r found = elim (dec_lt r (length meta)) [
    | no p ↦
        let same : r ≡ length meta = omega (arith, found.inside) in
        inr (
          rw (same, ==_refl) refl,
          λ i h. covers_above (at i) key (ends_below r i found (omega arith)),
        )
    | yes p ↦ elim (Bool-cases (bytes_lt key (at r).smallest)) [
      | inl above ↦
          inr (rw (lt→==false r (length meta) p, above) refl, λ i h. none_covers r i found above h)
      | inr within ↦
          let ends : bytes_lt (at r).largest key ≡ false = not→false _ (found.holds_at p) in
          inl (r, rw (lt→==false r (length meta) p, within) refl, p, rw (within, ends) refl)
    ]
  ]

  -- On a level of tables that do not overlap, the binary search finds the table whose range of keys
  -- has the key, and it finds none exactly where no table's range has it.
  pub find_level_table-Located : Located (find_level_table meta key)
  unfolding find_level_table
  find_level_table-Located =
      located (search (λ i. not (bytes_lt (at i).largest key)) (length meta))
        (search_lem _ (length meta))
