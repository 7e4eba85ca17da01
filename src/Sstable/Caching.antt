-- ===== src/Sstable/Caching.antt =====
-- sstable/sstable.go: what the block cache holds, and how much.
use native.Mathlib.Decide.{dec_lt}
use seol.Base.{
  ℕ, suc, ◌≤◌, ◌<◌, Bool, true, false, not, ◌≡◌, refl, arith, none, some, List, [], ◌∷◌, ◌++◌, inl,
  inr,
}
use seol.Base.{ltb, lt→ltb, le→ltb, ◌==◌, ==_iff, if◌then◌else◌, length, Bool-cases, Option-cases}
use seol.Base.Files.{lookup, insert, lookup-insert}
use seol.Sstable.{CachedDataBlock}
use seol.Sstable.Cache.{Shard, delete, evict_loop, evict_oldest_locked, shard_add}

abbrev listed : List ℕ → ℕ → Bool
listed [] k = false
listed (j ∷ order) k = if j == k then true else listed order k

-- The shard is within its limit, and each block that it holds can be evicted.
pub record IsBounded (s : Shard) : Type 0 where
  pub some_room : 0 < s.max_entries
  pub within : length s.blocks ≤ s.max_entries
  pub evictable :
      (k : ℕ) (b : CachedDataBlock) → lookup k s.blocks ≡ some b → listed s.order k ≡ true

lookup-delete :
    (k j : ℕ) (m : List (ℕ × CachedDataBlock))
    → lookup j (delete k m) ≡ (if k == j then none else lookup j m)
unfolding lookup delete
lookup-delete k j [] = ground arith
lookup-delete k j ((i, v) ∷ m) = ground (arith, lookup-delete k j m)

length-delete_le : (k : ℕ) (m : List (ℕ × CachedDataBlock)) → length (delete k m) ≤ length m
unfolding delete
length-delete_le k [] = omega arith
length-delete_le k ((i, v) ∷ m) = ground (arith, length-delete_le k m)

length-delete :
    (k : ℕ) (b : CachedDataBlock) (m : List (ℕ × CachedDataBlock))
    → lookup k m ≡ some b
    → length (delete k m) < length m
unfolding lookup delete
length-delete k b [] e = absurd (cc e)
length-delete k b ((i, v) ∷ m) e = ground (arith, length-delete k b m, length-delete_le k m)

length-insert :
    (k : ℕ) (b : CachedDataBlock) (m : List (ℕ × CachedDataBlock))
    → length (insert k b m) ≤ suc (length m)
unfolding insert
length-insert k b [] = omega arith
length-insert k b ((i, v) ∷ m) = ground (arith, length-insert k b m)

length-insert_held :
    (k : ℕ) (b c : CachedDataBlock) (m : List (ℕ × CachedDataBlock))
    → lookup k m ≡ some c
    → length (insert k b m) ≡ length m
unfolding insert lookup
length-insert_held k b c [] e = absurd (cc e)
length-insert_held k b c ((i, v) ∷ m) e = ground (arith, length-insert_held k b c m)

listed-append :
    (order : List ℕ) (j k : ℕ)
    → listed (order ++ (j ∷ [])) k ≡ (if listed order k then true else j == k)
listed-append [] j k = ground arith
listed-append (i ∷ order) j k = ground (arith, listed-append order j k)

evict_loop-stale :
    (m : List (ℕ × CachedDataBlock)) (j : ℕ) (order : List ℕ)
    → lookup j m ≡ none
    → evict_loop m (j ∷ order) ≡ evict_loop m order
unfolding evict_loop
evict_loop-stale m j order q = rw (evict_loop, q) refl

evict_loop-held :
    (m : List (ℕ × CachedDataBlock)) (j : ℕ) (order : List ℕ) (c : CachedDataBlock)
    → lookup j m ≡ some c
    → evict_loop m (j ∷ order) ≡ (delete j m, order)
unfolding evict_loop
evict_loop-held m j order c q = rw (evict_loop, q) refl

-- What is left after an eviction was there, and can be evicted in its turn.
pub evict_loop-lookup :
    (m : List (ℕ × CachedDataBlock)) (order : List ℕ) (k : ℕ) (b : CachedDataBlock)
    → lookup k (evict_loop m order).0 ≡ some b
    → lookup k m ≡ some b
evict_loop-lookup m [] k b e = unfold evict_loop in e
evict_loop-lookup m (j ∷ order) k b e = elim (Option-cases (lookup j m)) [
  | inl q ↦ evict_loop-lookup m order k b (rw (evict_loop-stale m j order q) at e)
  | inr (c, q) ↦
      let held : lookup k (delete j m) ≡ some b = rw (evict_loop-held m j order c q) at e in
      ground (arith, lookup-delete j k m, held)
]

evict_loop-listed :
    (m : List (ℕ × CachedDataBlock)) (order : List ℕ)
    → ((k : ℕ) (b : CachedDataBlock) → lookup k m ≡ some b → listed order k ≡ true)
    → (k : ℕ) (b : CachedDataBlock) → lookup k (evict_loop m order).0 ≡ some b
    → listed (evict_loop m order).1 k ≡ true
evict_loop-listed m [] h k b e = unfold evict_loop in (h k b e)
evict_loop-listed m (j ∷ order) h k b e = elim (Option-cases (lookup j m)) [
  | inl q ↦ rw (evict_loop-stale m j order q) (
      evict_loop-listed m order (λ i c d. not_stale j i order c (h i c d) q d) k b
        (rw (evict_loop-stale m j order q) at e))
  | inr (c, q) ↦
      let held : lookup k (delete j m) ≡ some b = rw (evict_loop-held m j order c q) at e in
      rw (evict_loop-held m j order c q) (ground (arith, lookup-delete j k m, held, h k b))
]
  where
    not_stale :
        (j i : ℕ) (order : List ℕ) (c : CachedDataBlock)
        → listed (j ∷ order) i ≡ true
        → lookup j m ≡ none
        → lookup i m ≡ some c
        → listed order i ≡ true
    not_stale j i order c l q d = elim (Bool-cases (j == i)) [
      | inl same ↦ absurd (cc (rw ((==_iff j i).0 same) at q))
      | inr other ↦ rw other at l
    ]

evict_loop-smaller :
    (m : List (ℕ × CachedDataBlock)) (order : List ℕ) (k : ℕ) (b : CachedDataBlock)
    → lookup k m ≡ some b
    → listed order k ≡ true
    → length (evict_loop m order).0 < length m
evict_loop-smaller m [] k b e h = absurd (cc h)
evict_loop-smaller m (j ∷ order) k b e h = elim (Option-cases (lookup j m)) [
  | inl q ↦ rw (evict_loop-stale m j order q) (evict_loop-smaller m order k b e (still j order h q))
  | inr (c, q) ↦ rw (evict_loop-held m j order c q) (length-delete j c m q)
]
  where
    still :
        (j : ℕ) (order : List ℕ)
        → listed (j ∷ order) k ≡ true
        → lookup j m ≡ none
        → listed order k ≡ true
    still j order l q = elim (Bool-cases (j == k)) [
      | inl same ↦ absurd (cc (rw ((==_iff j k).0 same) at q))
      | inr other ↦ rw other at l
    ]

first_key :
    (m : List (ℕ × CachedDataBlock))
    → 0 < length m
    → (k : ℕ) × ((b : CachedDataBlock) × (lookup k m ≡ some b))
unfolding lookup
first_key [] h = absurd (omega arith)
first_key ((k, b) ∷ m) h = (k, (b, ground arith))

evict-smaller :
    (s : Shard)
    → IsBounded s
    → 0 < length s.blocks
    → length (evict_oldest_locked s).blocks < length s.blocks
unfolding evict_oldest_locked
evict-smaller s v h =
    let (k, (b, e)) = first_key s.blocks h in
    evict_loop-smaller s.blocks s.order k b e (v.evictable k b e)

evict-IsBounded :
    (s : Shard) → IsBounded s → 0 < length s.blocks → IsBounded (evict_oldest_locked s)
evict-IsBounded s v h = record {
  some_room = unfold evict_oldest_locked in v.some_room;
  within =
      let less = evict-smaller s v h in unfold evict_oldest_locked in omega (arith, v.within, less);
  evictable = unfold evict_oldest_locked in (evict_loop-listed s.blocks s.order v.evictable);
}

-- A new block in a shard with room for it.
appended_block-IsBounded :
    (s : Shard) (offset : ℕ) (block : CachedDataBlock)
    → IsBounded s
    → length s.blocks < s.max_entries
    → IsBounded
        (record s { blocks = insert offset block s.blocks; order = s.order ++ (offset ∷ []) })
appended_block-IsBounded s offset block v room = record {
  some_room = v.some_room;
  within = omega (arith, length-insert offset block s.blocks);
  evictable = λ k b e. ground (
    arith,
    listed-append s.order offset k,
    lookup-insert offset k block s.blocks,
    e,
    v.evictable k b,
  );
}

pub shard_add-held :
    (s : Shard) (offset : ℕ) (block b : CachedDataBlock)
    → lookup offset s.blocks ≡ some b
    → shard_add s offset block ≡ record s { blocks = insert offset block s.blocks }
unfolding shard_add
shard_add-held s offset block b e = rw (shard_add, e) refl

pub shard_add-new :
    (s : Shard) (offset : ℕ) (block : CachedDataBlock)
    → lookup offset s.blocks ≡ none
    → shard_add s offset block ≡ (
        let s' = if not (ltb (length s.blocks) s.max_entries) then evict_oldest_locked s else s in
        record s' { blocks = insert offset block s'.blocks; order = s'.order ++ (offset ∷ []) })
unfolding shard_add
shard_add-new s offset block e = rw (shard_add, e) refl

-- Adding a block, be it new or known, leaves a shard that was within its limit within it, and each
-- block that the shard holds can be evicted.
pub shard_add-IsBounded :
    (s : Shard) (offset : ℕ) (block : CachedDataBlock)
    → IsBounded s
    → IsBounded (shard_add s offset block)
shard_add-IsBounded s offset block v = elim (Option-cases (lookup offset s.blocks)) [
  | inr (b, e) ↦ rw (shard_add-held s offset block b e) (record {
    some_room = v.some_room;
    within = omega (arith, v.within, length-insert_held offset block b s.blocks e);
    evictable = λ k c q. known k c q b e;
  })
  | inl e ↦ rw (shard_add-new s offset block e) (elim (dec_lt (length s.blocks) s.max_entries) [
    | yes h ↦
        rw (lt→ltb (length s.blocks) s.max_entries h) (appended_block-IsBounded s offset block v h)
    | no h ↦
        let some_block : 0 < length s.blocks = omega (arith, v.some_room) in
        let less = evict-smaller s v some_block in
        let v' = evict-IsBounded s v some_block in
        let same : (evict_oldest_locked s).max_entries ≡ s.max_entries =
          unfold evict_oldest_locked in refl in
        rw (le→ltb (length s.blocks) s.max_entries (omega arith)) (
          appended_block-IsBounded (evict_oldest_locked s) offset block v'
            (omega (arith, less, v.within, same)))
  ])
]
  where
    known :
        (k : ℕ) (c : CachedDataBlock)
        → lookup k (insert offset block s.blocks) ≡ some c
        → (b : CachedDataBlock) → lookup offset s.blocks ≡ some b
        → listed s.order k ≡ true
    known k c q b e = elim (Bool-cases (offset == k)) [
      | inl same ↦ rw (← (==_iff offset k).0 same) (v.evictable offset b e)
      | inr other ↦ v.evictable k c (rw (lookup-insert, other) at q)
    ]
