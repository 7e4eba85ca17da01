-- ===== src/Compaction/FirstWins.antt =====
-- compaction.go: the merge has for each key the value of the first list that has the key.
use seol.Base.{ℕ, suc, ◌+◌, ◌≤◌, ◌<◌, true, false, ◌≡◌, refl, ap, ◌∙◌, arith, ◌⊎◌, inl, inr}
use seol.Base.{Option, none, some, List, [], ◌∷◌, if◌then◌else◌, length, All, Bool-cases, if_cases}
use seol.Base.Order.{bytes_equal, bytes_equal_refl, bytes_equal→eq, bytes_lt, bytes_lt_total}
use seol.Compaction.Merged.{
  least, skip_head, skip_heads, total, find_first, AllSorted, Everywhere, NotLess, least-best,
  answer, find-none, not_less_or_best,
}
use seol.Sstable.Blocks.{Entry}
use seol.Sstable.BlockLookup.{Sorted, find, All-lt}

find_here :
    (x : Entry) (xs : List Entry) (key : List ℕ)
    → bytes_equal x.0 key ≡ true
    → find (x ∷ xs) key ≡ some x.1
unfolding find
find_here x xs key e = rw e refl

-- A head that has the key, and one that has not.
find_first_head :
    (x : Entry) (xs : List Entry) (ess : List (List Entry)) (key : List ℕ) (v : Option (List ℕ))
    → (bytes_equal x.0 key ≡ true → some x.1 ≡ v)
    → (bytes_equal x.0 key ≡ false → (find (x ∷ xs) key ≡ none) × (find_first ess key ≡ v))
    → find_first ((x ∷ xs) ∷ ess) key ≡ v
unfolding find_first
find_first_head x xs ess key v yes_case no_case = elim (Bool-cases (bytes_equal x.0 key)) [
  | inl same ↦ rw (find_here x xs key same, find_first) (yes_case same)
  | inr differ ↦ let (a, b) = no_case differ in rw (a, find_first) b
]

answer-nil :
    (best : Option Entry) (ess : List (List Entry)) (key : List ℕ)
    → answer best ([] ∷ ess) key ≡ answer best ess key
unfolding find_first find
answer-nil none ess key = refl
answer-nil (some best) ess key = refl

-- One key is below another, and not the same.
lt_not_same :
    (a b c : List ℕ) → bytes_lt a b ≡ true → bytes_lt a c ≡ false → bytes_equal b c ≡ false
lt_not_same a b c p q = elim (Bool-cases (bytes_equal b c)) [
  | inr differ ↦ differ
  | inl same ↦ absurd (cc (ap (λ x. bytes_lt a x) (bytes_equal→eq b c same), p, q))
]

not_same_below :
    (a b c : List ℕ)
    → bytes_lt a b ≡ false
    → bytes_lt b c ≡ false
    → bytes_equal b c ≡ false
    → bytes_equal a c ≡ false
not_same_below a b c p q differ = elim (Bool-cases (bytes_equal a c)) [
  | inr other ↦ other
  | inl same ↦
      let below : bytes_lt c b ≡ true = bytes_lt_total b c q differ in
      absurd (cc (ap (λ x. bytes_lt x b) (bytes_equal→eq a c same), p, below))
]

pub least_answers :
    (best : Option Entry) (ess : List (List Entry)) (w : Entry)
    → AllSorted ess
    → least best ess ≡ some w
    → answer best ess w.0 ≡ some w.1
unfolding least
least_answers none [] w s e = absurd (cc e)
least_answers (some best) [] w s e =
    let same : best ≡ w = cc e in rw (same, bytes_equal_refl w.0) refl
least_answers none ([] ∷ ess) w s e = answer-nil none ess w.0 ∙ least_answers none ess w s.1 e
least_answers (some best) ([] ∷ ess) w s e =
    answer-nil (some best) ess w.0 ∙ least_answers (some best) ess w s.1 e
least_answers none ((x ∷ xs) ∷ ess) w s e =
    let ih : answer (some x) ess w.0 ≡ some w.1 = least_answers (some x) ess w s.1 e in
    find_first_head x xs ess w.0 (some w.1) (λ same. rw same at ih)
      (λ differ. (find-none x xs w.0 s.0 (least-best x ess w e) differ, rw differ at ih))
least_answers (some best) ((x ∷ xs) ∷ ess) w s e = elim (Bool-cases (bytes_lt x.0 best.0)) [
  | inl less ↦
      let e' : least (some x) ess ≡ some w = rw less at e in
      let ih : answer (some x) ess w.0 ≡ some w.1 = least_answers (some x) ess w s.1 e' in
      let head = least-best x ess w e' in
      rw (lt_not_same x.0 best.0 w.0 less head) (
        find_first_head x xs ess w.0 (some w.1) (λ same. rw same at ih)
          (λ differ. (find-none x xs w.0 s.0 head differ, rw differ at ih)))
  | inr stays ↦
      let e' : least (some best) ess ≡ some w = rw stays at e in
      let ih : answer (some best) ess w.0 ≡ some w.1 = least_answers (some best) ess w s.1 e' in
      let low = least-best best ess w e' in
      elim (Bool-cases (bytes_equal best.0 w.0)) [
        | inl same ↦ rw same (rw same at ih)
        | inr differ ↦
            let apart = not_same_below x.0 best.0 w.0 stays low differ in
            rw differ (
              find_first_head x xs ess w.0 (some w.1) (λ same. absurd (cc (same, apart)))
                (λ other. (
                  find-none x xs w.0 s.0 (not_less_or_best x.0 best.0 w.0 stays low) apart,
                  rw differ at ih,
                )))
      ]
]

-- Without a least entry there is none.
least-some : (best : Entry) (ess : List (List Entry)) → least (some best) ess ≡ none → ⊥
unfolding least
least-some best [] e = cc e
least-some best ([] ∷ ess) e = least-some best ess e
least-some best ((x ∷ xs) ∷ ess) e = least-some (if bytes_lt x.0 best.0 then x else best) ess e

pub find_first_nothing :
    (ess : List (List Entry)) (key : List ℕ) → least none ess ≡ none → find_first ess key ≡ none
unfolding least find_first find
find_first_nothing [] key e = refl
find_first_nothing ([] ∷ ess) key e = find_first_nothing ess key e
find_first_nothing ((x ∷ xs) ∷ ess) key e = absurd (least-some x ess e)

-- What is left has no more of the key that was taken.
skip_head-above :
    (key : List ℕ) (es : List Entry)
    → Sorted es
    → All (NotLess key) es
    → All (λ x. bytes_lt key x.0 ≡ true) (skip_head key es)
unfolding skip_head
skip_head-above key [] s h = tt
skip_head-above key (e ∷ es) s h = elim (Bool-cases (bytes_equal e.0 key)) [
  | inl same ↦ rw same (rw (bytes_equal→eq e.0 key same) at s.0)
  | inr differ ↦
      let above = bytes_lt_total e.0 key h.0 differ in
      rw differ (above, All-lt key e.0 es above s.0)
]

pub skip_heads-above :
    (key : List ℕ) (ess : List (List Entry))
    → AllSorted ess
    → Everywhere (NotLess key) ess
    → Everywhere (λ x. bytes_lt key x.0 ≡ true) (skip_heads key ess)
unfolding skip_heads
skip_heads-above key [] s h = tt
skip_heads-above key (es ∷ ess) s h =
    (skip_head-above key es s.0 h.0, skip_heads-above key ess s.1 h.1)

skip_head-All :
    (P : Entry → Type 0) (key : List ℕ) (es : List Entry) → All P es → All P (skip_head key es)
unfolding skip_head
skip_head-All P key [] h = tt
skip_head-All P key (e ∷ es) h =
    if_cases (All P) (bytes_equal e.0 key) es (e ∷ es) (λ q. h.1) (λ q. h)

pub skip_heads-Everywhere :
    (P : Entry → Type 0) (key : List ℕ) (ess : List (List Entry))
    → Everywhere P ess
    → Everywhere P (skip_heads key ess)
unfolding skip_heads
skip_heads-Everywhere P key [] h = tt
skip_heads-Everywhere P key (es ∷ ess) h =
    (skip_head-All P key es h.0, skip_heads-Everywhere P key ess h.1)

pub skip_heads-AllSorted :
    (key : List ℕ) (ess : List (List Entry)) → AllSorted ess → AllSorted (skip_heads key ess)
unfolding skip_heads skip_head
skip_heads-AllSorted key [] s = tt
skip_heads-AllSorted key ([] ∷ ess) s = (tt, skip_heads-AllSorted key ess s.1)
skip_heads-AllSorted key ((e ∷ es) ∷ ess) s = (
  if_cases Sorted (bytes_equal e.0 key) es (e ∷ es) (λ q. s.0.1) (λ q. s.0),
  skip_heads-AllSorted key ess s.1,
)

find-skip_head :
    (key other : List ℕ) (es : List Entry)
    → bytes_equal key other ≡ false
    → find (skip_head key es) other ≡ find es other
unfolding skip_head find
find-skip_head key other [] differ = refl
find-skip_head key other (e ∷ es) differ = elim (Bool-cases (bytes_equal e.0 key)) [
  | inl same ↦
      rw same (rw (ap (λ x. bytes_equal x other) (bytes_equal→eq e.0 key same) ∙ differ) refl)
  | inr stays ↦ rw stays refl
]

pub find_first-skip_heads :
    (key other : List ℕ) (ess : List (List Entry))
    → bytes_equal key other ≡ false
    → find_first (skip_heads key ess) other ≡ find_first ess other
unfolding skip_heads find_first
find_first-skip_heads key other [] differ = refl
find_first-skip_heads key other (es ∷ ess) differ =
    ground (arith, find-skip_head key other es differ, find_first-skip_heads key other ess differ)

total-skip_heads_le :
    (key : List ℕ) (ess : List (List Entry)) → total (skip_heads key ess) ≤ total ess
unfolding skip_heads skip_head
total-skip_heads_le key [] = omega arith
total-skip_heads_le key ([] ∷ ess) = omega (arith, total-skip_heads_le key ess)
total-skip_heads_le key ((e ∷ es) ∷ ess) =
    if_cases (λ xs. length xs + total (skip_heads key ess) ≤ suc (length es) + total ess)
      (bytes_equal e.0 key) es (e ∷ es) (λ q. omega (arith, total-skip_heads_le key ess))
      (λ q. omega (arith, total-skip_heads_le key ess))

shorter :
    (x : Entry) (xs : List Entry) (ess : List (List Entry)) (w : Entry)
    → (some x ≡ some w) ⊎ (total (skip_heads w.0 ess) < total ess)
    → length (if bytes_equal x.0 w.0 then xs else x ∷ xs) + total (skip_heads w.0 ess)
      < suc (length xs) + total ess
shorter x xs ess w (inl e) =
    let same : x ≡ w = cc e in
    rw (ap (λ (y : Entry). bytes_equal y.0 w.0) same ∙ bytes_equal_refl w.0)
      (omega (arith, total-skip_heads_le w.0 ess))
shorter x xs ess w (inr h) =
    if_cases (λ ys. length ys + total (skip_heads w.0 ess) < suc (length xs) + total ess)
      (bytes_equal x.0 w.0) xs (x ∷ xs) (λ q. omega (arith, h)) (λ q. omega (arith, h))

-- The least entry is the best so far, or a head that is skipped.
pub total-skip_heads :
    (best : Option Entry) (ess : List (List Entry)) (w : Entry)
    → least best ess ≡ some w
    → (best ≡ some w) ⊎ (total (skip_heads w.0 ess) < total ess)
unfolding least skip_heads skip_head
total-skip_heads best [] w e = inl e
total-skip_heads none ([] ∷ ess) w e = elim (total-skip_heads none ess w e) [
  | inl q ↦ inl q
  | inr h ↦ inr (omega (arith, h))
]
total-skip_heads (some best) ([] ∷ ess) w e = elim (total-skip_heads (some best) ess w e) [
  | inl q ↦ inl q
  | inr h ↦ inr (omega (arith, h))
]
total-skip_heads none ((x ∷ xs) ∷ ess) w e =
    inr (shorter x xs ess w (total-skip_heads (some x) ess w e))
total-skip_heads (some best) ((x ∷ xs) ∷ ess) w e = elim (Bool-cases (bytes_lt x.0 best.0)) [
  | inl less ↦ inr (shorter x xs ess w (total-skip_heads (some x) ess w (rw less at e)))
  | inr stays ↦ elim (total-skip_heads (some best) ess w (rw stays at e)) [
    | inl q ↦ inl q
    | inr h ↦ inr (shorter x xs ess w (inr h))
  ]
]
