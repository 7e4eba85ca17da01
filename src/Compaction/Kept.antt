-- ===== src/Compaction/Kept.antt =====
-- compaction.go: what a compaction that drops tombstones keeps of sorted entries.
use seol.Base.{
  ℕ, Bool, true, ◌&&◌, ◌≡◌, refl, sym, ap, ◌∙◌, inl, inr, Option, none, some, List, [], ◌∷◌,
}
use seol.Base.{if◌then◌else◌, All, Bool-cases}
use seol.Base.Order.{bytes_equal, bytes_equal→eq, bytes_lt}
use seol.Sstable.Blocks.{Entry}
use seol.Sstable.BlockLookup.{Sorted, find, find_above}
use seol.Stored.{is_tombstone_value}

-- What a compaction keeps of what is stored for a key, and of entries.
unfoldable pub kept : Bool → Option (List ℕ) → Option (List ℕ)
kept drops none = none
kept drops (some v) = if drops && is_tombstone_value v then none else some v

unfoldable pub keep : Bool → List Entry → List Entry
keep drops [] = []
keep drops (e ∷ es) =
    let rest = keep drops es in if drops && is_tombstone_value e.1 then rest else e ∷ rest

keep-All : (P : Entry → Type 0) (drops : Bool) (es : List Entry) → All P es → All P (keep drops es)
unfolding keep
keep-All P drops [] h = tt
keep-All P drops (e ∷ es) h = elim (Bool-cases (drops && is_tombstone_value e.1)) [
  | inl q ↦ rw (q, keep) (keep-All P drops es h.1)
  | inr q ↦ rw (q, keep) (h.0, keep-All P drops es h.1)
]

pub find-keep :
    (drops : Bool) (es : List Entry) (key : List ℕ)
    → Sorted es
    → find (keep drops es) key ≡ kept drops (find es key)
unfolding keep kept find
find-keep drops [] key s = refl
find-keep drops (e ∷ es) key s = elim (Bool-cases (bytes_equal e.0 key)) [
  | inl same ↦ elim (Bool-cases (drops && is_tombstone_value e.1)) [
    | inl q ↦
        let past = keep-All (λ x. bytes_lt e.0 x.0 ≡ true) drops es s.0 in
        let gone : find (keep drops es) e.0 ≡ none = find_above (keep drops es) e.0 past in
        rw same (rw q (ap (find (keep drops es)) (sym (bytes_equal→eq e.0 key same)) ∙ gone))
    | inr q ↦ rw same (rw q (rw same refl))
  ]
  | inr differ ↦ elim (Bool-cases (drops && is_tombstone_value e.1)) [
    | inl q ↦ rw (q, differ) (find-keep drops es key s.1)
    | inr q ↦ rw (q, differ) (find-keep drops es key s.1)
  ]
]

pub keep-Sorted : (drops : Bool) (es : List Entry) → Sorted es → Sorted (keep drops es)
unfolding keep
keep-Sorted drops [] s = tt
keep-Sorted drops (e ∷ es) s = elim (Bool-cases (drops && is_tombstone_value e.1)) [
  | inl q ↦ rw (q, keep) (keep-Sorted drops es s.1)
  | inr q ↦
      rw (q, keep) (keep-All (λ x. bytes_lt e.0 x.0 ≡ true) drops es s.0, keep-Sorted drops es s.1)
]
