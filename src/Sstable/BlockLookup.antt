-- ===== src/Sstable/BlockLookup.antt =====
-- sstable/sstable.go: the binary search of a block.
use native.Mathlib.Decide.{dec_lt}
use seol.Base.{
  ℕ, zero, suc, ◌+◌, ◌^◌, ◌≤◌, ◌<◌, true, false, not, ◌≡◌, refl, sym, ap, ◌∙◌, arith, Option, none,
  some, List, [], ◌∷◌,
}
use seol.Base.{
  ◌==◌, ==_refl, lt→==false, if◌then◌else◌, length, drop, get_or, All, drop_all, drop_at,
  Bool-cases, not→true, not→false, inl, inr,
}
use seol.Base.Order.{
  bytes_equal, bytes_lt_differs, bytes_gt_differs, bytes_lt_total, bytes_lt, bytes_lt_trans,
}
use seol.Base.Search.{search, Found, search_lem}
use seol.Sstable.{entry_meta_size, entry_at, block_lookup}
use seol.Sstable.Blocks.{
  Entry, EntryFits, encode_entries, block_of, no_entry, entry_at-block_of, offsets_from,
}

-- The keys ascend.
abbrev pub Sorted : List Entry → Type 0
Sorted [] = Unit
Sorted (e ∷ es) = All (λ x. bytes_lt e.0 x.0 ≡ true) es × Sorted es

-- The value of the first entry with the key.
unfoldable pub find : List Entry → List ℕ → Option (List ℕ)
find [] key = none
find (e ∷ es) key = if bytes_equal e.0 key then some e.1 else find es key

pub find_above :
    (es : List Entry) (key : List ℕ) → All (λ x. bytes_lt key x.0 ≡ true) es → find es key ≡ none
unfolding find
find_above [] key h = refl
find_above (e ∷ es) key h = rw (bytes_gt_differs e.0 key h.0) (find_above es key h.1)

All-get_or :
    (P : Entry → Type 0) (es : List Entry) (i : ℕ)
    → All P es
    → i < length es
    → P (get_or es i no_entry)
All-get_or P [] i h lt = absurd (omega arith)
All-get_or P (e ∷ es) zero h lt = h.0
All-get_or P (e ∷ es) (suc i) h lt = All-get_or P es i h.1 (omega arith)

-- The entries before a place whose predecessor's key is below are all below.
find-drop :
    (es : List Entry) (key : List ℕ) (r : ℕ)
    → Sorted es
    → r ≤ length es
    → ((k : ℕ) → r ≡ suc k → bytes_lt (get_or es k no_entry).0 key ≡ true)
    → find es key ≡ find (drop r es) key
unfolding find
find-drop es key zero s h below = refl
find-drop [] key (suc r) s h below = absurd (omega arith)
find-drop (e ∷ es) key (suc zero) s h below = rw (bytes_lt_differs e.0 key (below 0 refl)) refl
find-drop (e ∷ es) key (suc (suc r)) s h below =
    let last = get_or es r no_entry in
    let first : bytes_lt e.0 last.0 ≡ true =
      All-get_or (λ x. bytes_lt e.0 x.0 ≡ true) es r s.0 (omega arith) in
    let low : bytes_lt e.0 key ≡ true = bytes_lt_trans e.0 last.0 key first (below (suc r) refl) in
    rw (bytes_lt_differs e.0 key low)
      (find-drop es key (suc r) s.1 (omega arith) (λ k q. below (suc k) (ap suc q)))

Sorted-drop :
    (es : List Entry) (r : ℕ)
    → Sorted es
    → r < length es
    → All (λ x. bytes_lt (get_or es r no_entry).0 x.0 ≡ true) (drop (suc r) es)
Sorted-drop [] r s h = absurd (omega arith)
Sorted-drop (e ∷ es) zero s h = s.0
Sorted-drop (e ∷ es) (suc r) s h = Sorted-drop es r s.1 (omega arith)

pub All-lt :
    (a b : List ℕ) (xs : List Entry)
    → bytes_lt a b ≡ true
    → All (λ x. bytes_lt b x.0 ≡ true) xs
    → All (λ x. bytes_lt a x.0 ≡ true) xs
All-lt a b [] lt all = tt
All-lt a b (x ∷ xs) lt all = (bytes_lt_trans a b x.0 lt all.0, All-lt a b xs lt all.1)

-- What stands at the answer of the search decides.
found_at :
    (es : List Entry) (key : List ℕ) (r : ℕ)
    → Sorted es
    → r < length es
    → bytes_lt (get_or es r no_entry).0 key ≡ false
    → find (drop r es) key ≡ (
        if not (bytes_equal (get_or es r no_entry).0 key)
        then none
        else some (get_or es r no_entry).1)
unfolding find
found_at es key r s h ge =
    let e = get_or es r no_entry in
    rw (drop_at es r no_entry h) (elim (Bool-cases (bytes_equal e.0 key)) [
      | inl q ↦ rw q refl
      | inr q ↦
          let above : bytes_lt key e.0 ≡ true = bytes_lt_total e.0 key ge q in
          rw q (
            find_above (drop (suc r) es) key
              (All-lt key e.0 (drop (suc r) es) above (Sorted-drop es r s h)))
    ])

length-offsets_from : (ptr : ℕ) (es : List Entry) → length (offsets_from ptr es) ≡ length es
length-offsets_from ptr [] = refl
length-offsets_from ptr (e ∷ es) =
    ap suc (length-offsets_from (ptr + (entry_meta_size + (length e.0 + length e.1))) es)

module _ (es : List Entry) (f : All EntryFits es) (s : Sorted es)
    (small : length (encode_entries es) < 2 ^ 32) where
  at : (i : ℕ) → i < length es → entry_at (block_of es) i ≡ get_or es i no_entry
  at i h = entry_at-block_of es i f small h

  at_answer :
      (key : List ℕ) (r : ℕ)
      → Found (λ i. not (bytes_lt (entry_at (block_of es) i).0 key)) (length es) r
      → (if r == length es
          then none
          else if not (bytes_equal (entry_at (block_of es) r).0 key)
          then none
          else some (entry_at (block_of es) r).1)
        ≡ find es key
  at_answer key r found = elim (dec_lt r (length es)) [
    | yes h ↦
        let ge : bytes_lt (get_or es r no_entry).0 key ≡ false =
          not→false _ (rw (at r h) at (found.holds_at h)) in
        rw (lt→==false r (length es) h) (rw (at r h) (sym (found_at es key r s h ge)) ∙ sym below)
    | no h ↦
        let same : r ≡ length es = omega (arith, found.inside) in
        let past : find (drop r es) key ≡ none =
          unfold find in ap (λ xs. find xs key) (drop_all r es (omega arith)) in
        rw (same, ==_refl) (sym (below ∙ past))
  ]
    where
      below : find es key ≡ find (drop r es) key
      below = find-drop es key r s found.inside (λ k q.
          not→true _ (rw (at k (omega (arith, found.inside, q))) at (found.fails_before k q)))

  -- The binary search of a block answers what a walk over its entries would. The entries are sorted,
  -- their lengths fit their fields, and the block is below 2^32 bytes.
  pub block_lookup-find : (key : List ℕ) → block_lookup (block_of es) key ≡ find es key
  unfolding block_lookup
  block_lookup-find key = rw (length-offsets_from 0 es) (
      at_answer key (search (λ i. not (bytes_lt (entry_at (block_of es) i).0 key)) (length es))
        (search_lem _ (length es)))
