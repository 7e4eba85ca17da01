-- ===== src/Memtable/SortedList.antt =====
-- skiplist/skiplist.go: a memtable as a sorted list of entries, for the examples.
use seol.Base.{ℕ, true, ◌≡◌, List, [], ◌∷◌}
use seol.Base.{if◌then◌else◌, All, if_cases}
use seol.Base.Order.{bytes_equal, bytes_lt, bytes_lt_total}
use seol.Memtable.{Memtable}
use seol.Sstable.Blocks.{Entry}
use seol.Sstable.BlockLookup.{Sorted, find, All-lt}

unfoldable pub insert_entry : List ℕ → List ℕ → List Entry → List Entry
insert_entry key value [] = (key, value) ∷ []
insert_entry key value (e ∷ es) =
    let rest = insert_entry key value es in
    if bytes_equal e.0 key
    then (e.0, value) ∷ es
    else if bytes_lt e.0 key
    then e ∷ rest
    else (key, value) ∷ e ∷ es

All-insert_entry :
    (x key value : List ℕ) (es : List Entry)
    → bytes_lt x key ≡ true
    → All (λ e. bytes_lt x e.0 ≡ true) es
    → All (λ e. bytes_lt x e.0 ≡ true) (insert_entry key value es)
unfolding insert_entry
All-insert_entry x key value [] h hs = (h, tt)
All-insert_entry x key value (e ∷ es) h hs =
    if_cases (All (λ e. bytes_lt x e.0 ≡ true)) (bytes_equal e.0 key) ((e.0, value) ∷ es)
      (if bytes_lt e.0 key then e ∷ insert_entry key value es else (key, value) ∷ e ∷ es)
      (λ same. hs)
      (λ differ.
        if_cases (All (λ e. bytes_lt x e.0 ≡ true)) (bytes_lt e.0 key)
          (e ∷ insert_entry key value es) ((key, value) ∷ e ∷ es)
          (λ below. (hs.0, All-insert_entry x key value es h hs.1)) (λ above. (h, hs)))

pub insert_entry-Sorted :
    (key value : List ℕ) (es : List Entry) → Sorted es → Sorted (insert_entry key value es)
unfolding insert_entry
insert_entry-Sorted key value [] s = (tt, tt)
insert_entry-Sorted key value (e ∷ es) s =
    if_cases Sorted (bytes_equal e.0 key) ((e.0, value) ∷ es)
      (if bytes_lt e.0 key then e ∷ insert_entry key value es else (key, value) ∷ e ∷ es)
      (λ same. s)
      (λ differ.
        if_cases Sorted (bytes_lt e.0 key) (e ∷ insert_entry key value es) ((key, value) ∷ e ∷ es)
          (λ below.
            (All-insert_entry e.0 key value es below s.0, insert_entry-Sorted key value es s.1))
          (λ not_below.
            let above = bytes_lt_total e.0 key not_below differ in
            ((above, All-lt key e.0 es above s.0), s)))

abbrev pub SortedEntries : Type 0
SortedEntries = (es : List Entry) × Sorted es

abbrev pub sorted_list : Memtable SortedEntries
sorted_list = record {
  new = λ size. ([], tt);
  put = λ m key value. (insert_entry key value m.0, insert_entry-Sorted key value m.0 m.1);
  get = λ m key. find m.0 key;
  entries = λ m. m.0;
}
