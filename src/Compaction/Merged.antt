-- ===== src/Compaction/Merged.antt =====
-- compaction.go: what a merge of sorted lists of entries is, where the first list wins.
use seol.Base.{ℕ, zero, suc, ◌+◌, true, false, ◌≡◌, ap, inl, inr}
use seol.Base.{Option, none, some, List, [], ◌∷◌, if◌then◌else◌, length, All, Bool-cases}
use seol.Base.Order.{
  bytes_equal, bytes_equal→eq, bytes_lt, bytes_lt_trans, bytes_lt_total, bytes_lt_irrefl,
}
use seol.Sstable.Blocks.{Entry}
use seol.Sstable.BlockLookup.{Sorted, find, find_above, All-lt}

-- The first of the least entries at the heads of the lists.
unfoldable pub least : Option Entry → List (List Entry) → Option Entry
least best [] = best
least best ([] ∷ ess) = least best ess
least none ((e ∷ es) ∷ ess) = least (some e) ess
least (some best) ((e ∷ es) ∷ ess) = least (some (if bytes_lt e.0 best.0 then e else best)) ess

unfoldable pub skip_head : List ℕ → List Entry → List Entry
skip_head key [] = []
skip_head key (e ∷ es) = if bytes_equal e.0 key then es else e ∷ es

unfoldable pub skip_heads : List ℕ → List (List Entry) → List (List Entry)
unfolding skip_head
skip_heads key [] = []
skip_heads key (es ∷ ess) = skip_head key es ∷ skip_heads key ess

abbrev pub total : List (List Entry) → ℕ
total [] = 0
total (es ∷ ess) = length es + total ess

-- Each round removes an entry.
unfoldable pub merge : ℕ → List (List Entry) → List Entry
unfolding least skip_heads
merge zero ess = []
merge (suc fuel) ess = elim (least none ess) [
  | none ↦ []
  | some e ↦ e ∷ merge fuel (skip_heads e.0 ess)
]

-- The first list that has the key.
unfoldable pub find_first : List (List Entry) → List ℕ → Option (List ℕ)
find_first [] key = none
find_first (es ∷ ess) key = elim (find es key) [ some v ↦ some v | none ↦ find_first ess key ]

abbrev pub AllSorted : List (List Entry) → Type 0
AllSorted = All Sorted

abbrev pub Everywhere : (Entry → Type 0) → List (List Entry) → Type 0
Everywhere P = All (All P)

abbrev pub NotLess : List ℕ → Entry → Type 0
NotLess key e = bytes_lt e.0 key ≡ false

pub not_less_trans :
    (a b c : List ℕ) → bytes_lt a b ≡ true → bytes_lt a c ≡ false → bytes_lt b c ≡ false
not_less_trans a b c p q = elim (Bool-cases (bytes_lt b c)) [
  | inr stays ↦ stays
  | inl less ↦ absurd (cc (bytes_lt_trans a b c p less, q))
]

-- The least entry is not above the best so far.
pub least-best :
    (best : Entry) (ess : List (List Entry)) (w : Entry)
    → least (some best) ess ≡ some w
    → NotLess w.0 best
unfolding least
least-best best [] w e = let same : best ≡ w = cc e in rw same (bytes_lt_irrefl w.0)
least-best best ([] ∷ ess) w e = least-best best ess w e
least-best best ((x ∷ xs) ∷ ess) w e = elim (Bool-cases (bytes_lt x.0 best.0)) [
  | inl less ↦ not_less_trans x.0 best.0 w.0 less (least-best x ess w (rw less at e))
  | inr stays ↦ least-best best ess w (rw stays at e)
]

-- It is not above what stands in the lists.
pub NotLess-rest :
    (e : Entry) (es : List Entry) (key : List ℕ)
    → NotLess key e
    → All (λ x. bytes_lt e.0 x.0 ≡ true) es
    → All (NotLess key) es
NotLess-rest e [] key h s = tt
NotLess-rest e (x ∷ xs) key h s = (not_less_trans e.0 x.0 key s.0 h, NotLess-rest e xs key h s.1)

pub not_less_or_best :
    (a b c : List ℕ) → bytes_lt a b ≡ false → bytes_lt b c ≡ false → bytes_lt a c ≡ false
not_less_or_best a b c p q = elim (Bool-cases (bytes_lt a c)) [
  | inr stays ↦ stays
  | inl less ↦ elim (Bool-cases (bytes_equal b c)) [
    | inl same ↦ let e : b ≡ c = bytes_equal→eq b c same in absurd (cc (ap (bytes_lt a) e, p, less))
    | inr differ ↦ absurd (cc (bytes_lt_trans a c b less (bytes_lt_total b c q differ), p))
  ]
]

pub least-NotLess :
    (best : Option Entry) (ess : List (List Entry)) (w : Entry)
    → AllSorted ess
    → least best ess ≡ some w
    → Everywhere (NotLess w.0) ess
unfolding least
least-NotLess best [] w s e = tt
least-NotLess best ([] ∷ ess) w s e = (tt, least-NotLess best ess w s.1 e)
least-NotLess none ((x ∷ xs) ∷ ess) w s e =
    let head = least-best x ess w e in
    ((head, NotLess-rest x xs w.0 head s.0.0), least-NotLess (some x) ess w s.1 e)
least-NotLess (some best) ((x ∷ xs) ∷ ess) w s e = elim (Bool-cases (bytes_lt x.0 best.0)) [
  | inl less ↦
      let e' : least (some x) ess ≡ some w = rw less at e in
      let head = least-best x ess w e' in
      ((head, NotLess-rest x xs w.0 head s.0.0), least-NotLess (some x) ess w s.1 e')
  | inr stays ↦
      let e' : least (some best) ess ≡ some w = rw stays at e in
      let head = not_less_or_best x.0 best.0 w.0 stays (least-best best ess w e') in
      ((head, NotLess-rest x xs w.0 head s.0.0), least-NotLess (some best) ess w s.1 e')
]

-- What the best so far and the lists say of a key.
abbrev pub answer : Option Entry → List (List Entry) → List ℕ → Option (List ℕ)
answer none ess key = find_first ess key
answer (some best) ess key = if bytes_equal best.0 key then some best.1 else find_first ess key

-- A sorted list whose head is above the key does not have it.
pub find-none :
    (x : Entry) (xs : List Entry) (key : List ℕ)
    → Sorted (x ∷ xs)
    → NotLess key x
    → bytes_equal x.0 key ≡ false
    → find (x ∷ xs) key ≡ none
find-none x xs key s h differ =
    let above = bytes_lt_total x.0 key h differ in
    find_above (x ∷ xs) key (above, All-lt key x.0 xs above s.0)
