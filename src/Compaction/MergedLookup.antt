-- ===== src/Compaction/MergedLookup.antt =====
-- compaction.go: the merge of sorted lists is sorted, and finds what the first list with a key has.
use mathlib.Core.Path.{subst}
use seol.Base.{ℕ, zero, suc, ◌≤◌, ◌<◌, true, ◌≡◌, sym, ap, ◌∙◌, arith, inl, inr}
use seol.Base.{Option, none, some, List, [], ◌∷◌, length, All, Bool-cases, Option-cases}
use seol.Base.Order.{bytes_equal, bytes_lt, bytes_equal→eq}
use seol.Compaction.FirstWins.{
  least_answers, find_first_nothing, skip_heads-above, skip_heads-Everywhere, skip_heads-AllSorted,
  find_first-skip_heads, total-skip_heads,
}
use seol.Compaction.Merged.{
  least, skip_heads, total, merge, find_first, AllSorted, Everywhere, least-NotLess,
}
use seol.Sstable.Blocks.{Entry}
use seol.Sstable.BlockLookup.{Sorted, find}

-- With as many rounds as there are entries the merge has every key's first value, in order.
pub find-merge :
    (fuel : ℕ) (ess : List (List Entry)) (key : List ℕ)
    → AllSorted ess
    → total ess < fuel
    → find (merge fuel ess) key ≡ find_first ess key
unfolding merge find
find-merge zero ess key s h = absurd (omega arith)
find-merge (suc fuel) ess key s h = elim (Option-cases (least none ess)) [
  | inl q ↦ rw (q, merge) (sym (find_first_nothing ess key q))
  | inr (w, q) ↦ elim (total-skip_heads none ess w q) [
    | inl never ↦ absurd (cc never)
    | inr fewer ↦
        let ih =
          find-merge fuel (skip_heads w.0 ess) key (skip_heads-AllSorted w.0 ess s)
            (omega (arith, fewer)) in
        rw (q, merge)
          (elim (Bool-cases (bytes_equal w.0 key)) [
            | inl same ↦ rw same (
                sym (least_answers none ess w s q)
                ∙ ap (find_first ess) (bytes_equal→eq w.0 key same))
            | inr differ ↦ rw differ (ih ∙ find_first-skip_heads w.0 key ess differ)
          ])
  ]
]

pub length-merge :
    (fuel : ℕ) (ess : List (List Entry)) → total ess < fuel → length (merge fuel ess) ≤ total ess
unfolding merge
length-merge zero ess h = absurd (omega arith)
length-merge (suc fuel) ess h = elim (Option-cases (least none ess)) [
  | inl q ↦ rw (q, merge) (omega arith)
  | inr (w, q) ↦ elim (total-skip_heads none ess w q) [
    | inl never ↦ absurd (cc never)
    | inr fewer ↦
        let ih = length-merge fuel (skip_heads w.0 ess) (omega (arith, fewer)) in
        rw (q, merge) (omega (arith, ih, fewer))
  ]
]

merge-All :
    (P : Entry → Type 0) (fuel : ℕ) (ess : List (List Entry))
    → Everywhere P ess
    → ((w : Entry) → least none ess ≡ some w → P w)
    → ((ess : List (List Entry)) (w : Entry) → Everywhere P ess → least none ess ≡ some w → P w)
    → All P (merge fuel ess)
unfolding merge
merge-All P zero ess h now always = tt
merge-All P (suc fuel) ess h now always = elim (Option-cases (least none ess)) [
  | inl q ↦ rw (q, merge) tt
  | inr (w, q) ↦
      let left = skip_heads-Everywhere P w.0 ess h in
      rw (q, merge)
        (
          now w q,
          merge-All P fuel (skip_heads w.0 ess) left (λ x r. always (skip_heads w.0 ess) x left r)
              always,
        )
]

some_eq : (x y : Entry) → some x ≡ some y → x ≡ y
some_eq x y e = cc e

least-Everywhere :
    (P : Entry → Type 0) (best : Option Entry) (ess : List (List Entry)) (w : Entry)
    → ((b : Entry) → best ≡ some b → P b)
    → Everywhere P ess
    → least best ess ≡ some w
    → P w
unfolding least
least-Everywhere P best [] w b h e = b w e
least-Everywhere P best ([] ∷ ess) w b h e = least-Everywhere P best ess w b h.1 e
least-Everywhere P none ((x ∷ xs) ∷ ess) w b h e =
    least-Everywhere P (some x) ess w (λ y q. subst P (some_eq x y q) h.0.0) h.1 e
least-Everywhere P (some best) ((x ∷ xs) ∷ ess) w b h e = elim (Bool-cases (bytes_lt x.0 best.0)) [
  | inl less ↦
      least-Everywhere P (some x) ess w (λ y q. subst P (some_eq x y q) h.0.0) h.1 (rw less at e)
  | inr stays ↦ least-Everywhere P (some best) ess w b h.1 (rw stays at e)
]

pub merge-Sorted : (fuel : ℕ) (ess : List (List Entry)) → AllSorted ess → Sorted (merge fuel ess)
unfolding merge
merge-Sorted zero ess s = tt
merge-Sorted (suc fuel) ess s = elim (Option-cases (least none ess)) [
  | inl q ↦ rw (q, merge) tt
  | inr (w, q) ↦
      let P = λ (x : Entry). bytes_lt w.0 x.0 ≡ true in
      let above = skip_heads-above w.0 ess s (least-NotLess none ess w s q) in
      rw (q, merge)
        (
          merge-All P fuel (skip_heads w.0 ess) above
              (λ x r. least-Everywhere P none (skip_heads w.0 ess) x (λ b z. absurd (cc z)) above r)
              (λ ess' x h r. least-Everywhere P none ess' x (λ b z. absurd (cc z)) h r),
          merge-Sorted fuel (skip_heads w.0 ess) (skip_heads-AllSorted w.0 ess s),
        )
]
