-- ===== src/Compaction/Closure.antt =====
-- compaction.go: the loop of selectL0CompactionSource ends, and leaves out only tables that lie beside
-- its bounds.
use seol.Base.{
  ℕ, zero, suc, ◌≤◌, ◌<◌, Bool, true, false, ◌≡◌, refl, ap, ◌∙◌, arith, some, List, [], ◌∷◌, ◌⊎◌,
  inl, inr,
}
use seol.Base.{if◌then◌else◌, length, All, Bool-cases}
use seol.Base.Order.{bytes_equal_refl}
use seol.Compaction.{TableMeta, is_outside}
use seol.Compaction.Selection.{Chosen, is_selected, widen, select_step, select_pass, select_loop}

-- How many tables are not selected.
unfoldable pub left_out : List (List ℕ) → List TableMeta → ℕ
left_out names [] = 0
left_out names (t ∷ l0) =
    let rest = left_out names l0 in if is_selected names t.filename then rest else suc rest

-- A table is selected, or it lies beside the bounds.
abbrev pub Settled : Chosen → TableMeta → Type 0
Settled c t = (is_selected c.names t.filename ≡ true) ⊎ (is_outside t c.smallest c.largest ≡ true)

abbrev pub Keeps : List (List ℕ) → List (List ℕ) → Type 0
Keeps names names' = (n : List ℕ) → is_selected names n ≡ true → is_selected names' n ≡ true

-- A round on a table that is settled, and on one that is not.
pub step_cases :
    (t : TableMeta) (ts : List TableMeta) (c : Chosen) (changed : Bool)
    → (Settled c t × (select_pass (t ∷ ts) (c, changed) ≡ select_pass ts (c, changed)))
      ⊎ ((is_selected c.names t.filename ≡ false)
          × (select_pass (t ∷ ts) (c, changed) ≡ select_pass ts (widen c t, true)))
unfolding select_step select_pass
step_cases t ts c changed = elim (Bool-cases (is_selected c.names t.filename)) [
  | inl s ↦ inl (inl s, rw s refl)
  | inr n ↦ elim (Bool-cases (is_outside t c.smallest c.largest)) [
    | inl o ↦ inl (inr o, rw (n, o) refl)
    | inr i ↦ inr (n, rw (n, i) refl)
  ]
]

widen-Keeps : (c : Chosen) (t : TableMeta) → Keeps c.names (widen c t).names
unfolding widen is_selected
widen-Keeps c t n h = ground (arith, h)

widen-selected : (c : Chosen) (t : TableMeta) → is_selected (widen c t).names t.filename ≡ true
unfolding widen is_selected
widen-selected c t = rw (bytes_equal_refl t.filename) refl

pass-Keeps :
    (ts : List TableMeta) (c : Chosen) (changed : Bool)
    → Keeps c.names (select_pass ts (c, changed)).0.names
pass-Keeps [] c changed n h = unfold select_pass in h
pass-Keeps (t ∷ ts) c changed n h = elim (step_cases t ts c changed) [
  | inl same ↦ rw same.1 (pass-Keeps ts c changed n h)
  | inr new ↦ rw new.1 (pass-Keeps ts (widen c t) true n (widen-Keeps c t n h))
]

pass-changed : (ts : List TableMeta) (c : Chosen) → (select_pass ts (c, true)).1 ≡ true
pass-changed [] c = unfold select_pass in refl
pass-changed (t ∷ ts) c = elim (step_cases t ts c true) [
  | inl same ↦ rw same.1 (pass-changed ts c)
  | inr new ↦ rw new.1 (pass-changed ts (widen c t))
]

-- A pass that changes nothing finds every table settled.
pass-Settled :
    (ts : List TableMeta) (c : Chosen)
    → (select_pass ts (c, false)).1 ≡ false
    → ((select_pass ts (c, false)).0 ≡ c) × All (Settled c) ts
pass-Settled [] c e = (unfold select_pass in refl, tt)
pass-Settled (t ∷ ts) c e = elim (step_cases t ts c false) [
  | inl same ↦ let (q, all) = pass-Settled ts c (rw same.1 at e) in (rw same.1 q, (same.0, all))
  | inr new ↦ absurd (cc (rw (new.1, pass-changed ts (widen c t)) at e))
]

left_out-Keeps :
    (names names' : List (List ℕ)) (ts : List TableMeta)
    → Keeps names names'
    → left_out names' ts ≤ left_out names ts
unfolding left_out
left_out-Keeps names names' [] k = omega arith
left_out-Keeps names names' (t ∷ ts) k =
    ground (arith, left_out-Keeps names names' ts k, k t.filename)

fewer_with :
    (names names' : List (List ℕ)) (t : TableMeta) (ts : List TableMeta)
    → (is_selected names t.filename ≡ true → is_selected names' t.filename ≡ true)
    → left_out names' ts < left_out names ts
    → left_out names' (t ∷ ts) < left_out names (t ∷ ts)
unfolding left_out
fewer_with names names' t ts k h = ground (arith, k, h)

fewer_by :
    (names names' : List (List ℕ)) (t : TableMeta) (ts : List TableMeta)
    → is_selected names t.filename ≡ false
    → is_selected names' t.filename ≡ true
    → left_out names' ts ≤ left_out names ts
    → left_out names' (t ∷ ts) < left_out names (t ∷ ts)
unfolding left_out
fewer_by names names' t ts a b h = ground (arith, a, b, h)

-- One that changes something leaves out fewer.
pass-fewer :
    (ts : List TableMeta) (c : Chosen)
    → (select_pass ts (c, false)).1 ≡ true
    → left_out (select_pass ts (c, false)).0.names ts < left_out c.names ts
pass-fewer [] c e = let e' : false ≡ true = unfold select_pass in e in absurd (cc e')
pass-fewer (t ∷ ts) c e = elim (step_cases t ts c false) [
  | inl same ↦
      let fewer = pass-fewer ts c (rw same.1 at e) in
      let keeps = pass-Keeps ts c false t.filename in
      rw (same.1) (fewer_with c.names (select_pass ts (c, false)).0.names t ts keeps fewer)
  | inr new ↦
      let now = pass-Keeps ts (widen c t) true t.filename (widen-selected c t) in
      let keeps : Keeps c.names (select_pass ts (widen c t, true)).0.names =
        λ n h. pass-Keeps ts (widen c t) true n (widen-Keeps c t n h) in
      let le = left_out-Keeps c.names (select_pass ts (widen c t, true)).0.names ts keeps in
      rw new.1 (fewer_by c.names (select_pass ts (widen c t, true)).0.names t ts new.0 now le)
]

pub left_out_le : (names : List (List ℕ)) (ts : List TableMeta) → left_out names ts ≤ length ts
unfolding left_out
left_out_le names [] = omega arith
left_out_le names (t ∷ ts) = ground (arith, left_out_le names ts)

pub loop_again :
    (fuel : ℕ) (l0 : List TableMeta) (c : Chosen)
    → (select_pass l0 (c, false)).1 ≡ true
    → select_loop (suc fuel) l0 c ≡ select_loop fuel l0 (select_pass l0 (c, false)).0
unfolding select_loop
loop_again fuel l0 c e = rw (select_loop, e) refl

pub loop_ends :
    (fuel : ℕ) (l0 : List TableMeta) (c : Chosen)
    → (select_pass l0 (c, false)).1 ≡ false
    → select_loop (suc fuel) l0 c ≡ some (select_pass l0 (c, false)).0
unfolding select_loop
loop_ends fuel l0 c e = rw (select_loop, e) refl

pub select_loop-Settled :
    (fuel : ℕ) (l0 : List TableMeta) (c : Chosen)
    → left_out c.names l0 < fuel
    → (c' : Chosen) × (select_loop fuel l0 c ≡ some c')
      × All (Settled c') l0
      × Keeps c.names c'.names
select_loop-Settled zero l0 c h = absurd (omega arith)
select_loop-Settled (suc fuel) l0 c h = elim (Bool-cases (select_pass l0 (c, false)).1) [
  | inr e ↦
      let (q, all) = pass-Settled l0 c e in (c, loop_ends fuel l0 c e ∙ ap some q, all, λ n s. s)
  | inl e ↦
      let c' = (select_pass l0 (c, false)).0 in
      let (d, q, all, keeps) = select_loop-Settled fuel l0 c' (omega (arith, pass-fewer l0 c e)) in
      (d, loop_again fuel l0 c e ∙ q, all, λ n s. keeps n (pass-Keeps l0 c false n s))
]
