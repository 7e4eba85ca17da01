-- ===== src/Sstable/CacheAnswers.antt =====
-- sstable/sstable.go: what the block cache answers.
use native.Mathlib.Decide.{dec_lt}
use seol.Base.{
  ℕ, zero, suc, ◌≤◌, ◌<◌, not, ◌≡◌, refl, ap, arith, Option, none, some, List, [], ◌∷◌, ◌⊎◌, inl,
  inr,
}
use seol.Base.{
  ltb, ◌==◌, ==_iff, length, length-set, get_or-set_self, get_or-set_ne, get_or, set, Bool-cases,
  Option-cases,
}
use seol.Base.Files.{lookup, insert, lookup-insert}
use seol.Sstable.{CachedDataBlock}
use seol.Sstable.Cache.{
  Shard, no_shard, evict_oldest_locked, shard_add, cache_get, cache_add, shard_index,
}
use seol.Sstable.Caching.{shard_add-held, shard_add-new, evict_loop-lookup}

shard_add-lookup :
    (s : Shard) (offset k : ℕ) (block c : CachedDataBlock)
    → lookup k (shard_add s offset block).blocks ≡ some c
    → ((offset ≡ k) × (block ≡ c)) ⊎ (lookup k s.blocks ≡ some c)
shard_add-lookup s offset k block c e = elim (Option-cases (lookup offset s.blocks)) [
  | inr (b, q) ↦ inserted s.blocks (rw (shard_add-held s offset block b q) at e)
  | inl q ↦ elim (Bool-cases (not (ltb (length s.blocks) s.max_entries))) [
    | inr h ↦ inserted s.blocks (rw h at (rw (shard_add-new s offset block q) at e))
    | inl h ↦
        elim (inserted (evict_oldest_locked s).blocks
          (rw h at (rw (shard_add-new s offset block q) at e))) [
            | inl new ↦ inl new
            | inr old ↦
                inr (evict_loop-lookup s.blocks s.order k c (unfold evict_oldest_locked in old))
          ]
  ]
]
  where
    inserted :
        (m : List (ℕ × CachedDataBlock))
        → lookup k (insert offset block m) ≡ some c
        → ((offset ≡ k) × (block ≡ c)) ⊎ (lookup k m ≡ some c)
    inserted m q = elim (Bool-cases (offset == k)) [
      | inl same ↦ inl ((==_iff offset k).0 same, cc (rw (lookup-insert, same) at q))
      | inr other ↦ inr (rw (lookup-insert, other) at q)
    ]

-- What the cache answers after `add` is the block that was added at the offset, or what it answered
-- before.
pub cache_get-cache_add :
    (cache : Option (List Shard)) (offset k : ℕ) (block c : CachedDataBlock)
    → cache_get (cache_add cache offset block) k ≡ some c
    → ((offset ≡ k) × (block ≡ c)) ⊎ (cache_get cache k ≡ some c)
unfolding cache_get cache_add
cache_get-cache_add none offset k block c e = absurd (cc e)
cache_get-cache_add (some shards) offset k block c e =
    let i = shard_index shards offset in
    let j = shard_index shards k in
    let e' : lookup k
          (get_or (set shards i (shard_add (get_or shards i no_shard) offset block)) j
            no_shard).blocks
        ≡ some c =
      rw (length-set shards i (shard_add (get_or shards i no_shard) offset block)) at e in
    elim (Bool-cases (i == j)) [
      | inr other ↦ inr (
          rw
            (get_or-set_ne shards i j (shard_add (get_or shards i no_shard) offset block) no_shard
              (λ q. absurd (ground (arith, other, q))))
            at e')
      | inl same ↦
          let q : i ≡ j = (==_iff i j).0 same in
          elim (dec_lt i (length shards)) [
            | yes h ↦ at_shard i j q h e'
            | no h ↦ inr (
                rw
                  (set_outside shards i (shard_add (get_or shards i no_shard) offset block)
                    (omega arith))
                  at e')
          ]
    ]
  where
    set_outside : (xs : List Shard) (i : ℕ) (x : Shard) → length xs ≤ i → set xs i x ≡ xs
    set_outside [] i x h = refl
    set_outside (y ∷ xs) zero x h = absurd (omega arith)
    set_outside (y ∷ xs) (suc i) x h =
        ap (λ (ys : List Shard). y ∷ ys) (set_outside xs i x (omega arith))

    at_shard :
        (i j : ℕ)
        → i ≡ j
        → i < length shards
        → lookup k
            (get_or
              (set shards i (shard_add (get_or shards i no_shard) offset block))
              j
              no_shard).blocks
          ≡ some c
        → ((offset ≡ k) × (block ≡ c)) ⊎ (lookup k (get_or shards j no_shard).blocks ≡ some c)
    at_shard i j q h d = rw (← q) (
        shard_add-lookup (get_or shards i no_shard) offset k block c (
          rw
            (
              ← q,
              get_or-set_self shards i (shard_add (get_or shards i no_shard) offset block) no_shard
                  h,
            )
            at d))
