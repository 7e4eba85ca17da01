-- ===== src/Bloom.antt =====
-- bloom/bloom.go: the filter, its bit arithmetic, and its binary format. `Add` and `Contains` hash
-- their argument by xxh3, which is a parameter.
pub mod Membership
pub mod NoFalseNegatives
mod Examples
pub mod Codec
use Prim.Native.Nat.{bit_and, bit_or}
use seol.Base.{
  ℕ, zero, suc, ◌+◌, ◌-◌, ◌*◌, ◌/◌, ◌%◌, ◌^◌, Bool, true, false, not, ◌&&◌, List, [], ◌∷◌,
}
use seol.Base.{ltb, ◌==◌, if◌then◌else◌, length, get_or, set, replicate}

pub record Filter : Type 0 where
  pub words : List ℕ
  pub num_bits : ℕ
  pub num_hashes : ℕ
  pub seed : ℕ

-- `bits.Mul64(hash, numBits)`, of which the high word is kept
unfoldable pub index : ℕ → ℕ → ℕ
index num_bits hash = hash * num_bits / 2 ^ 64

-- `idx & 63` is `idx % 64`. An index past the words would be a panic; `index-lt` excludes it.
unfoldable pub check : List ℕ → ℕ → Bool
check words idx = not (bit_and (get_or words (idx / 2 ^ 6) 0) (2 ^ (idx % 64)) == 0)

unfoldable pub set_bit : List ℕ → ℕ → List ℕ
set_bit words idx =
    let word = idx / 2 ^ 6 in set words word (bit_or (get_or words word 0) (2 ^ (idx % 64)))

abbrev pub derived_hash_multiplier : ℕ
derived_hash_multiplier = 0x517cc1b727220a95

-- `hash * derivedHashMultiplier`, which wraps
abbrev pub second_hash : ℕ → ℕ
second_hash hash = hash * derived_hash_multiplier % 2 ^ 64

-- bits.RotateLeft64(h, 5)
abbrev pub rotate_left_5 : ℕ → ℕ
rotate_left_5 h = h * 2 ^ 5 % 2 ^ 64 + h / 2 ^ 59

abbrev pub next_hash : ℕ → ℕ → ℕ
next_hash h1 h2 = (rotate_left_5 h1 + h2) % 2 ^ 64

-- The loops run for i = 1 … numHashes - 1: their first argument counts the rounds that are left.
unfoldable pub add_loop : ℕ → ℕ → List ℕ → ℕ → ℕ → Bool → List ℕ × Bool
add_loop zero num_bits words h1 h2 previously_contained = (words, previously_contained)
add_loop (suc rounds) num_bits words h1 h2 previously_contained =
    let h1' = next_hash h1 h2 in
    let idx = index num_bits h1' in
    let was_set = check words idx in
    add_loop rounds num_bits (set_bit words idx) h1' h2 (previously_contained && was_set)

unfoldable pub add_hash : Filter → ℕ → Filter × Bool
add_hash f hash =
    let idx = index f.num_bits hash in
    let previously_contained = check f.words idx in
    let words = set_bit f.words idx in
    if f.num_hashes == 1
    then (record f { words = words }, previously_contained)
    else (let (words', contained) =
          add_loop (f.num_hashes - 1) f.num_bits words hash (second_hash hash)
            previously_contained in
        (record f { words = words' }, contained))

unfoldable pub contains_loop : ℕ → ℕ → List ℕ → ℕ → ℕ → Bool
contains_loop zero num_bits words h1 h2 = true
contains_loop (suc rounds) num_bits words h1 h2 =
    let h1' = next_hash h1 h2 in
    let rest = contains_loop rounds num_bits words h1' h2 in
    if not (check words (index num_bits h1')) then false else rest

unfoldable pub contains_hash : Filter → ℕ → Bool
contains_hash f hash =
    if not (check f.words (index f.num_bits hash))
    then false
    else if f.num_hashes == 1
    then true
    else contains_loop (f.num_hashes - 1) f.num_bits f.words hash (second_hash hash)

abbrev pub word_count : ℕ → ℕ
word_count num_bits = (num_bits + 63) / 64

-- An int that is negative here would be one below 1, as 0 is.
abbrev pub normalize_hashes : ℕ → ℕ
normalize_hashes num_hashes = if ltb num_hashes 1 then 1 else num_hashes % 2 ^ 32

-- The panic of `NewSeeded` at numBits <= 0 is left to the caller.
unfoldable pub new_seeded : ℕ → ℕ → ℕ → Filter
new_seeded num_bits num_hashes seed = record {
  words = replicate (word_count num_bits) 0;
  num_bits = word_count num_bits * 64;
  num_hashes = normalize_hashes num_hashes;
  seed = seed;
}

unfoldable pub reset : Filter → Filter
reset f = record f { words = replicate (length f.words) 0 }

-- xxh3.HashSeed, a third-party function.
module _ (hash_seed : List ℕ → ℕ → ℕ) where
  unfoldable pub add : Filter → List ℕ → Filter × Bool
  add f b = add_hash f (hash_seed b f.seed)

  unfoldable pub contains : Filter → List ℕ → Bool
  contains f b = contains_hash f (hash_seed b f.seed)

  -- `Add` on each key in turn, as `writeDataBlocks` of the sstable makes it.
  unfoldable pub add_all : Filter → List (List ℕ) → Filter
  unfolding add
  add_all f [] = f
  add_all f (b ∷ bs) = add_all (add f b).0 bs
