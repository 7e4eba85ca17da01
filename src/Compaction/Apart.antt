-- ===== src/Compaction/Apart.antt =====
-- compaction.go: no table that selectL0CompactionSource leaves behind overlaps one that it chooses.
use mathlib.Core.Path.{subst}
use seol.Base.{
  ℕ, zero, suc, ◌-◌, Bool, true, false, ◌≡◌, refl, sym, ◌∙◌, arith, none, some, List, [], ◌∷◌, ◌⊎◌,
  inl, inr,
}
use seol.Base.{length, get_or, All, Bool-cases}
use seol.Base.Order.{
  bytes_equal, bytes_equal_refl, bytes_lt, bytes_lt_irrefl, bytes_lt_trans, bytes_lt_le_trans,
}
use seol.Compaction.{TableMeta, no_meta, is_outside, lower, higher}
use seol.Compaction.Selection.{
  Chosen, is_selected, widen, select_pass, select_loop, start, chosen_of,
}
use seol.Compaction.Closure.{
  Settled, step_cases, loop_again, loop_ends, select_loop-Settled, left_out_le,
}

-- Tables of the same name are the same.
abbrev pub IsNamed : List TableMeta → TableMeta → Type 0
IsNamed l0 t = All (λ (u : TableMeta). bytes_equal t.filename u.filename ≡ true → u ≡ t) l0

abbrev pub Within : Chosen → TableMeta → Type 0
Within c t = (bytes_lt t.smallest c.smallest ≡ false) × (bytes_lt c.largest t.largest ≡ false)

-- The bounds are those of what is chosen.
abbrev pub Covers : List TableMeta → Chosen → Type 0
Covers l0 c = All (λ (u : TableMeta). is_selected c.names u.filename ≡ true → Within c u) l0

not_below : (x a b : List ℕ) → bytes_lt x b ≡ false → bytes_lt x (lower a b) ≡ false
not_below x a b h = elim (Bool-cases (bytes_lt a b)) [
  | inr stays ↦ rw stays h
  | inl less ↦ elim (Bool-cases (bytes_lt x a)) [
    | inr q ↦ rw less q
    | inl q ↦ absurd (cc (bytes_lt_trans x a b q less, h))
  ]
]

not_above : (x a b : List ℕ) → bytes_lt b x ≡ false → bytes_lt (higher a b) x ≡ false
not_above x a b h = elim (Bool-cases (bytes_lt b a)) [
  | inr stays ↦ rw stays h
  | inl less ↦ elim (Bool-cases (bytes_lt a x)) [
    | inr q ↦ rw less q
    | inl q ↦ absurd (cc (bytes_lt_trans b a x less q, h))
  ]
]

itself_not_below : (a b : List ℕ) → bytes_lt a (lower a b) ≡ false
itself_not_below a b = elim (Bool-cases (bytes_lt a b)) [
  | inl less ↦ rw less (bytes_lt_irrefl a)
  | inr stays ↦ rw stays stays
]

itself_not_above : (a b : List ℕ) → bytes_lt (higher a b) a ≡ false
itself_not_above a b = elim (Bool-cases (bytes_lt b a)) [
  | inl less ↦ rw less (bytes_lt_irrefl a)
  | inr stays ↦ rw stays stays
]

widen-Covers :
    (us : List TableMeta) (c : Chosen) (t : TableMeta)
    → IsNamed us t
    → Covers us c
    → Covers us (widen c t)
unfolding widen is_selected
widen-Covers [] c t named h = tt
widen-Covers (u ∷ us) c t named h = (
  λ q. elim (Bool-cases (bytes_equal t.filename u.filename)) [
    | inl same ↦
        subst (Within (widen c t)) (sym (named.0 same))
          (itself_not_below t.smallest c.smallest, itself_not_above t.largest c.largest)
    | inr other ↦
        let old = h.0 (rw other at q) in
        (
          not_below u.smallest t.smallest c.smallest old.0,
          not_above u.largest t.largest c.largest old.1,
        )
  ],
  widen-Covers us c t named.1 h.1,
)

pass-Covers :
    (l0 ts : List TableMeta) (c : Chosen) (changed : Bool)
    → All (IsNamed l0) ts
    → Covers l0 c
    → Covers l0 (select_pass ts (c, changed)).0
pass-Covers l0 [] c changed named h = unfold select_pass in h
pass-Covers l0 (t ∷ ts) c changed named h = elim (step_cases t ts c changed) [
  | inl same ↦ rw same.1 (pass-Covers l0 ts c changed named.1 h)
  | inr new ↦ rw new.1 (pass-Covers l0 ts (widen c t) true named.1 (widen-Covers l0 c t named.0 h))
]

loop-Covers :
    (fuel : ℕ) (l0 : List TableMeta) (c d : Chosen)
    → All (IsNamed l0) l0
    → Covers l0 c
    → select_loop fuel l0 c ≡ some d
    → Covers l0 d
loop-Covers zero l0 c d named h e =
    let never : none ≡ some d = unfold select_loop in e in absurd (cc never)
loop-Covers (suc fuel) l0 c d named h e =
    let c' = (select_pass l0 (c, false)).0 in
    let h' = pass-Covers l0 l0 c false named h in
    elim (Bool-cases (select_pass l0 (c, false)).1) [
      | inl more ↦ loop-Covers fuel l0 c' d named h' (sym (loop_again fuel l0 c more) ∙ e)
      | inr done ↦ let same : c' ≡ d = cc (loop_ends fuel l0 c done, e) in subst (Covers l0) same h'
    ]

last-IsNamed :
    (l0 ts : List TableMeta) (t : TableMeta)
    → All (IsNamed l0) (t ∷ ts)
    → IsNamed l0 (get_or (t ∷ ts) (length ts) no_meta)
last-IsNamed l0 [] t h = h.0
last-IsNamed l0 (u ∷ ts) t h = last-IsNamed l0 ts u h.1

start-Covers : (us : List TableMeta) (t : TableMeta) → IsNamed us t → Covers us (start t)
unfolding start is_selected
start-Covers [] t named = tt
start-Covers (u ∷ us) t named = (
  λ q. elim (Bool-cases (bytes_equal t.filename u.filename)) [
    | inl same ↦
        subst (Within (start t)) (sym (named.0 same))
          (bytes_lt_irrefl t.smallest, bytes_lt_irrefl t.largest)
    | inr other ↦ absurd (cc (rw other at q))
  ],
  start-Covers us t named.1,
)

oldest-Covers :
    (l0 : List TableMeta)
    → All (IsNamed l0) l0
    → Covers l0 (start (get_or l0 (length l0 - 1) no_meta))
oldest-Covers [] named = tt
oldest-Covers (t ∷ ts) named =
    let less : length (t ∷ ts) - 1 ≡ length ts = omega arith in
    subst (λ k. Covers (t ∷ ts) (start (get_or (t ∷ ts) k no_meta))) (sym less)
      (start-Covers (t ∷ ts) (get_or (t ∷ ts) (length ts) no_meta)
        (last-IsNamed (t ∷ ts) ts t named))

-- The ranges of the two tables have no key in common.
abbrev pub AreApart : TableMeta → TableMeta → Type 0
AreApart t u = is_outside t u.smallest u.largest ≡ true

outside-Within :
    (c : Chosen) (t u : TableMeta)
    → is_outside t c.smallest c.largest ≡ true
    → Within c u
    → AreApart t u
outside-Within c t u h w = elim (Bool-cases (bytes_lt t.largest c.smallest)) [
  | inl below ↦ rw (bytes_lt_le_trans t.largest c.smallest u.smallest below w.0) refl
  | inr other ↦
      let above : bytes_lt c.largest t.smallest ≡ true = rw other at h in
      elim (Bool-cases (bytes_lt u.largest t.smallest)) [
        | inl q ↦ elim (Bool-cases (bytes_lt t.largest u.smallest)) [
          | inl b ↦ rw b refl
          | inr b ↦ rw (b, q) refl
        ]
        | inr q ↦ absurd (cc (bytes_lt_le_trans c.largest t.smallest u.largest above q, w.1))
      ]
]

apart_from :
    (us : List TableMeta) (c : Chosen) (t : TableMeta)
    → is_outside t c.smallest c.largest ≡ true
    → Covers us c
    → All (λ (u : TableMeta). is_selected c.names u.filename ≡ true → AreApart t u) us
apart_from [] c t h covers = tt
apart_from (u ∷ us) c t h covers =
    (λ q. outside-Within c t u h (covers.0 q), apart_from us c t h covers.1)

-- A table is chosen, or has no key in common with any that is.
abbrev pub ChosenOrApart : List TableMeta → Chosen → TableMeta → Type 0
ChosenOrApart l0 c t =
    (is_selected c.names t.filename ≡ true)
    ⊎ All (λ (u : TableMeta). is_selected c.names u.filename ≡ true → AreApart t u) l0

Settled-apart :
    (us l0 : List TableMeta) (c : Chosen)
    → All (Settled c) us
    → Covers l0 c
    → All (ChosenOrApart l0 c) us
Settled-apart [] l0 c h covers = tt
Settled-apart (t ∷ us) l0 c h covers = (
  elim h.0 [ inl chosen ↦ inl chosen | inr outside ↦ inr (apart_from l0 c t outside covers) ],
  Settled-apart us l0 c h.1 covers,
)

-- The choice of the tables to compact ends, for every list of tables: the last, which is the oldest,
-- is chosen; the range of each chosen table is within the bounds; and each table is chosen, or is
-- apart from every chosen table, with all its keys below or above all of that one's, so that no
-- table that stays behind in level 0 has a key in common with one that is compacted. Tables of the
-- same name are the same.
pub chosen_of-ChosenOrApart :
    (l0 : List TableMeta)
    → All (IsNamed l0) l0
    → (c : Chosen) × (chosen_of l0 ≡ some c)
      × All (ChosenOrApart l0 c) l0
      × Covers l0 c
      × (is_selected c.names (get_or l0 (length l0 - 1) no_meta).filename ≡ true)
unfolding chosen_of
chosen_of-ChosenOrApart l0 named =
    let oldest = get_or l0 (length l0 - 1) no_meta in
    let (c, e, all, keeps) =
      select_loop-Settled (suc (length l0)) l0 (start oldest)
        (omega (arith, left_out_le (start oldest).names l0)) in
    let covers =
      loop-Covers (suc (length l0)) l0 (start oldest) c named (oldest-Covers l0 named) e in
    (
      c,
      e,
      Settled-apart l0 l0 c all covers,
      covers,
      keeps oldest.filename
          (unfold start is_selected in rw (bytes_equal_refl oldest.filename) refl),
    )
