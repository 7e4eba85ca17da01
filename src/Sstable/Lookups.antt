-- ===== src/Sstable/Lookups.antt =====
-- sstable/sstable.go: the index finds the block that holds a key.
use seol.Base.{
  ℕ, zero, suc, ◌<◌, true, false, ◌≡◌, refl, ap, ◌∙◌, arith, some, List, [], ◌∷◌, ◌++◌, append-nil,
}
use seol.Base.{if◌then◌else◌, length, drop, get_or, All}
use seol.Base.Order.{bytes_equal, bytes_lt, bytes_lt_differs, bytes_lt_le_trans}
use seol.Sstable.Blocks.{Entry, no_entry}
use seol.Sstable.BlockLookup.{Sorted, find, find_above, All-lt}

abbrev pub concat : List (List Entry) → List Entry
concat [] = []
concat (es ∷ bs) = es ++ concat bs

abbrev Below : List Entry → List ℕ → Type 0
Below es key = All (λ x. bytes_lt x.0 key ≡ true) es

find-Below :
    (es rest : List Entry) (key : List ℕ) → Below es key → find (es ++ rest) key ≡ find rest key
unfolding find
find-Below [] rest key h = refl
find-Below (e ∷ es) rest key h = rw (bytes_lt_differs e.0 key h.0) (find-Below es rest key h.1)

find_before :
    (es rest : List Entry) (key : List ℕ)
    → All (λ x. bytes_lt key x.0 ≡ true) rest
    → find (es ++ rest) key ≡ find es key
unfolding find
find_before [] rest key h = find_above rest key h
find_before (e ∷ es) rest key h =
    ap (λ o. if bytes_equal e.0 key then some e.1 else o) (find_before es rest key h)

All-right : (P : Entry → Type 0) (xs ys : List Entry) → All P (xs ++ ys) → All P ys
All-right P [] ys h = h
All-right P (x ∷ xs) ys h = All-right P xs ys h.1

pub Sorted-right : (xs ys : List Entry) → Sorted (xs ++ ys) → Sorted ys
Sorted-right [] ys s = s
Sorted-right (x ∷ xs) ys s = Sorted-right xs ys s.1

-- The first entry of a block that has one is among the entries.
pub All-first :
    (P : Entry → Type 0) (bs : List (List Entry)) (k : ℕ)
    → All P (concat bs)
    → 0 < length (get_or bs k [])
    → P (get_or (get_or bs k []) 0 no_entry)
All-first P [] k h lt = absurd (omega arith)
All-first P ([] ∷ bs) zero h lt = absurd (omega arith)
All-first P ((e ∷ es) ∷ bs) zero h lt = h.0
All-first P (es ∷ bs) (suc k) h lt = All-first P bs k (All-right P es (concat bs) h) lt

-- Entries before a block whose first key is not above the key are below it.
Below-prefix :
    (es : List Entry) (bs : List (List Entry)) (k : ℕ) (key : List ℕ)
    → Sorted (es ++ concat bs)
    → 0 < length (get_or bs k [])
    → bytes_lt key (get_or (get_or bs k []) 0 no_entry).0 ≡ false
    → Below es key
Below-prefix [] bs k key s lt ge = tt
Below-prefix (e ∷ es) bs k key s lt ge =
    let first = get_or (get_or bs k []) 0 no_entry in
    let less : bytes_lt e.0 first.0 ≡ true =
      All-first (λ x. bytes_lt e.0 x.0 ≡ true) bs k
        (All-right (λ x. bytes_lt e.0 x.0 ≡ true) es (concat bs) s.0) lt in
    (bytes_lt_le_trans e.0 first.0 key less ge, Below-prefix es bs k key s.1 lt ge)

pub find-drop_blocks :
    (bs : List (List Entry)) (k : ℕ) (key : List ℕ)
    → Sorted (concat bs)
    → 0 < length (get_or bs k [])
    → bytes_lt key (get_or (get_or bs k []) 0 no_entry).0 ≡ false
    → find (concat bs) key ≡ find (concat (drop k bs)) key
find-drop_blocks bs zero key s lt ge = refl
find-drop_blocks [] (suc k) key s lt ge = absurd (omega arith)
find-drop_blocks (es ∷ bs) (suc k) key s lt ge =
    find-Below es (concat bs) key (Below-prefix es bs k key s lt ge)
    ∙ find-drop_blocks bs k key (Sorted-right es (concat bs) s) lt ge

-- If the next block begins above the key, so does all that follows.
pub find_first_block :
    (es : List Entry) (bs : List (List Entry)) (key : List ℕ)
    → Sorted (es ++ concat bs)
    → (0 < length bs
        → (0 < length (get_or bs 0 []))
          × (bytes_lt key (get_or (get_or bs 0 []) 0 no_entry).0 ≡ true))
    → find (es ++ concat bs) key ≡ find es key
find_first_block es [] key s h = ap (λ xs. find xs key) (append-nil es)
find_first_block es ([] ∷ bs) key s h = absurd (omega (arith, (h (omega arith)).0))
find_first_block es ((e ∷ more) ∷ bs) key s h =
    let above = (h (omega arith)).1 in
    let tail = Sorted-right es ((e ∷ more) ++ concat bs) s in
    find_before es ((e ∷ more) ++ concat bs) key
      (above, All-lt key e.0 (more ++ concat bs) above tail.0)

pub Sorted-drop_blocks :
    (bs : List (List Entry)) (k : ℕ) → Sorted (concat bs) → Sorted (concat (drop k bs))
Sorted-drop_blocks bs zero s = s
Sorted-drop_blocks [] (suc k) s = tt
Sorted-drop_blocks (es ∷ bs) (suc k) s = Sorted-drop_blocks bs k (Sorted-right es (concat bs) s)
