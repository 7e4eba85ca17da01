-- ===== src/Skiplist.antt =====
-- skiplist/skiplist.go: the list in its arena. A node is its offset in the arena, 0 is nil, and the
-- bytes that the node's key and value have in the arena stand with it, since no allocation reuses a
-- byte. One goroutine writes, so that a compare-and-swap succeeds.
use seol.Base.{
  ℕ, zero, suc, ◌+◌, ◌-◌, ◌*◌, ◌/◌, ◌%◌, ◌^◌, ◌≡◌, refl, Bool, true, false, ◌||◌, Option, none,
  some, List, [], ◌∷◌, max,
}
use seol.Base.{ltb, leb, ◌==◌, if◌then◌else◌, length, take}
use seol.Base.Order.{bytes_equal, bytes_lt}
use seol.Memtable.{Memtable}
use seol.Sstable.Blocks.{Entry}

abbrev pub max_height : ℕ
max_height = 20

abbrev pub node_align : ℕ
node_align = 7

-- The size of a node with its whole tower: value, keyOffset, keySize, height and the tower.
abbrev pub max_node_size : ℕ
max_node_size = 8 + 4 + 2 + 2 + 4 * 20

abbrev pub height_increase : ℕ
height_increase = 1431655765

-- Where New puts the head.
abbrev pub head : ℕ
head = 8

-- `size` is the length of the buffer and `n` the counter. An allocation beyond the buffer panics or
-- writes to other memory: the list is broken from then on. `random` are the numbers of rand.Uint32,
-- of which `draws` are gone.
pub record Skiplist : Type 0 where
  pub size : ℕ
  pub n : ℕ
  pub height : ℕ
  pub key : ℕ → List ℕ
  pub value : ℕ → List ℕ
  pub tower : ℕ → ℕ → ℕ
  pub random : ℕ → ℕ
  pub draws : ℕ
  pub is_broken : Bool

-- `s.n.Add(l)`, a uint32.
unfoldable pub allocate : ℕ → Skiplist → Skiplist
allocate l s = record s { n = (s.n + l) % 2 ^ 32; is_broken = s.is_broken || ltb s.size (s.n + l) }

abbrev pub node_size : ℕ → ℕ
node_size height = max_node_size - (max_height - height) * 4 + node_align

-- The offset of a node, rounded up to a multiple of 8.
abbrev pub align : ℕ → ℕ
align n = (n + node_align) / 8 * 8

abbrev pub set_at {ℓ} : {A : Type ℓ} → ℕ → A → (ℕ → A) → ℕ → A
set_at i a f j = if i == j then a else f j

-- keySize is a uint16, and the value's size a uint32.
unfoldable pub new_node : List ℕ → List ℕ → ℕ → Skiplist → ℕ × Skiplist
unfolding allocate
new_node key v height s =
    let offset = align s.n in
    let s' = allocate (length v) (allocate (length key) (allocate (node_size height) s)) in
    (
      offset,
      record s' {
        key = set_at offset (take (length key % 2 ^ 16) key) s.key;
        value = set_at offset (take (length v % 2 ^ 32) v) s.value;
      },
    )

-- The buffer is zero, so that a new node's tower is.
unfoldable pub new_skiplist : (ℕ → ℕ) → ℕ → Skiplist
unfolding new_node
new_skiplist random size =
    (new_node [] [] max_height (record {
      size = size;
      n = 1;
      height = 1;
      key = λ a. [];
      value = λ a. [];
      tower = λ a i. 0;
      random = random;
      draws = 0;
      is_broken = false;
    })).1

unfoldable pub set_value : ℕ → List ℕ → Skiplist → Skiplist
unfolding allocate
set_value x v s = record (allocate (length v) s) {
  value = set_at x (take (length v % 2 ^ 32) v) s.value;
}

-- At most `rounds` more numbers raise the height; the next call takes those behind the 19 of this one.
unfoldable pub random_height : (ℕ → ℕ) → ℕ → ℕ → ℕ → ℕ
random_height random draws zero h = h
random_height random draws (suc rounds) h =
    let higher = random_height random (suc draws) rounds (suc h) in
    if leb (random draws) height_increase then higher else h

-- `(before, next)`. A walk has fewer rounds than the arena has bytes.
unfoldable pub find_splice_for_level : ℕ → Skiplist → List ℕ → ℕ → ℕ → ℕ × ℕ
find_splice_for_level zero s key before level = (before, 0)
find_splice_for_level (suc fuel) s key before level =
    let next = s.tower before level in
    let further = find_splice_for_level fuel s key next level in
    if next == 0
    then (before, 0)
    else if bytes_equal key (s.key next)
    then (next, next)
    else if bytes_lt key (s.key next)
    then (before, next)
    else further

-- `prev` and `next`, or the node that has the key.
pub data Splices : Type 0 where
  equal : ℕ → Splices
  between : (ℕ → ℕ × ℕ) → Splices

unfoldable pub add_splice : ℕ → ℕ × ℕ → Splices → Splices
add_splice i p (equal x) = equal x
add_splice i p (between f) = between (set_at i p f)

-- The loop from `level - 1` down.
unfoldable pub find_splices : Skiplist → List ℕ → ℕ → ℕ → Splices
unfolding find_splice_for_level add_splice
find_splices s key zero before = between (λ i. (0, 0))
find_splices s key (suc i) before =
    let p = find_splice_for_level s.n s key before i in
    let rest = find_splices s key i p.0 in if p.0 == p.1 then equal p.0 else add_splice i p rest

-- The tower of x at a level, and the link to x.
unfoldable pub link_level : ℕ → ℕ → ℕ × ℕ → Skiplist → Skiplist
link_level x i (prev, next) s = record s {
  tower = λ a j.
      if j == i
      then (if a == prev then x else if a == x then next else s.tower a j)
      else s.tower a j;
}

abbrev pub splice_or_find : Skiplist → List ℕ → ℕ → ℕ × ℕ → ℕ × ℕ
splice_or_find s key i p = if p.0 == 0 then find_splice_for_level s.n s key head i else p

-- `rounds` levels from i on.
unfoldable pub link_levels : List ℕ → ℕ → (ℕ → ℕ × ℕ) → ℕ → ℕ → Skiplist → Skiplist
unfolding link_level find_splice_for_level
link_levels key x f zero i s = s
link_levels key x f (suc rounds) i s =
    link_levels key x f rounds (suc i) (link_level x i (splice_or_find s key i (f i)) s)

unfoldable pub insert_node : List ℕ → List ℕ → (ℕ → ℕ × ℕ) → Skiplist → Skiplist
unfolding new_node random_height link_levels
insert_node key v f s =
    let h = random_height s.random s.draws (max_height - 1) 1 in
    let (x, s') = new_node key v h s in
    link_levels key x f h 0
      (record s' { height = max s.height h; draws = s.draws + (max_height - 1) })

unfoldable pub skiplist_put : Skiplist → List ℕ → List ℕ → Skiplist
unfolding find_splices set_value insert_node
skiplist_put s key v = elim (find_splices s key s.height head) [
  | equal x ↦ set_value x v s
  | between f ↦ insert_node key v (set_at s.height (head, 0) f) s
]

-- findNear with `less` false and `allowEqual` true, as Get and Seek call it.
unfoldable pub find_near : ℕ → Skiplist → List ℕ → ℕ → ℕ → ℕ × Bool
find_near zero s key x level = (0, false)
find_near (suc fuel) s key x level =
    let next = s.tower x level in
    let further = find_near fuel s key next level in
    let down = find_near fuel s key x (level - 1) in
    if next == 0
    then (if level == 0 then (0, false) else down)
    else if bytes_equal key (s.key next)
    then (next, true)
    else if bytes_lt key (s.key next)
    then (if level == 0 then (next, false) else down)
    else further

-- Each round goes to a later node or a level down.
unfoldable pub skiplist_get : Skiplist → List ℕ → Option (List ℕ)
unfolding find_near
skiplist_get s key =
    let (x, is_equal) = find_near (s.n + s.height) s key head (s.height - 1) in
    if is_equal then some (s.value x) else none

-- What an iterator passes from a node on: SeekToFirst, and Next until it is not valid.
unfoldable pub walk : ℕ → Skiplist → ℕ → List Entry
walk zero s x = []
walk (suc fuel) s x =
    let rest = walk fuel s (s.tower x 0) in if x == 0 then [] else (s.key x, s.value x) ∷ rest

unfoldable pub skiplist_entries : Skiplist → List Entry
unfolding walk
skiplist_entries s = walk s.n s (s.tower head 0)

-- The list as a memtable.
abbrev pub skiplist_memtable : (ℕ → ℕ) → Memtable Skiplist
skiplist_memtable random = record {
  new = new_skiplist random;
  put = skiplist_put;
  get = skiplist_get;
  entries = skiplist_entries;
}

-- Get finds nothing in a new list: the head's tower is nil.
pub get-new_skiplist :
    (random : ℕ → ℕ) (size : ℕ) (key : List ℕ) → skiplist_get (new_skiplist random size) key ≡ none
unfolding skiplist_get new_skiplist
get-new_skiplist random size key = refl
