-- ===== src/Bloom/NoFalseNegatives.antt =====
-- bloom/bloom.go: `Contains` after `Add`, and the answer of `Add` itself.
use seol.Base.{
  ℕ, zero, suc, ◌-◌, ◌*◌, ◌/◌, ◌^◌, ◌<◌, Bool, true, false, not, ◌&&◌, ◌≡◌, refl, ◌∙◌, arith,
}
use seol.Base.{List, [], ◌∷◌, ◌++◌, ◌==◌, ==_iff, if◌then◌else◌, length}
use seol.Bloom.{
  Filter, index, check, set_bit, next_hash, second_hash, add_loop, add_hash, contains_loop,
  contains_hash, add, contains, add_all,
}
use seol.Bloom.Membership.{
  IsValid, index-lt, check-set_bit, length-set_bit, length-add_loop, check-add_loop_mono,
  contains_loop_mono, contains_loop-add_loop, word-lt,
}

module _ (f : Filter) (v : IsValid f) (hash : ℕ) (h : hash < 2 ^ 64) where
  pub first_word-lt : index f.num_bits hash / 2 ^ 6 < length f.words
  first_word-lt = omega (arith, index-lt f.num_bits hash (omega arith) h)

  -- The whole call leaves the sizes, and so validity, alone.
  pub add_hash-IsValid : IsValid (add_hash f hash).0
  unfolding add_hash
  add_hash-IsValid =
      let idx = index f.num_bits hash in
      ground (
        arith,
        length-set_bit f.words idx,
        length-add_loop f.num_bits (omega arith) (f.num_hashes - 1) (set_bit f.words idx) hash
            (second_hash hash) (check f.words idx),
      )

  pub contains_hash-add_hash_self : contains_hash (add_hash f hash).0 hash ≡ true
  unfolding add_hash contains_hash
  contains_hash-add_hash_self =
      let idx = index f.num_bits hash in
      ground (
        arith,
        length-set_bit f.words idx,
        check-set_bit f.words idx idx first_word-lt,
        check-add_loop_mono f.num_bits (omega arith) (f.num_hashes - 1) (set_bit f.words idx) hash
            (second_hash hash) (check f.words idx) idx,
        contains_loop-add_loop f.num_bits (omega arith) (f.num_hashes - 1) (set_bit f.words idx)
            hash (second_hash hash) (check f.words idx),
      )

  check-add_hash_mono : (j : ℕ) → check f.words j ≡ true → check (add_hash f hash).0.words j ≡ true
  unfolding add_hash
  check-add_hash_mono j c =
      let idx = index f.num_bits hash in
      ground (
        arith,
        length-set_bit f.words idx,
        check-set_bit f.words idx j first_word-lt,
        check-add_loop_mono f.num_bits (omega arith) (f.num_hashes - 1) (set_bit f.words idx) hash
            (second_hash hash) (check f.words idx) j,
      )

  same_parameters :
      ((add_hash f hash).0.num_bits ≡ f.num_bits)
      × ((add_hash f hash).0.num_hashes ≡ f.num_hashes)
      × ((add_hash f hash).0.seed ≡ f.seed)
  unfolding add_hash
  same_parameters = ground arith

  pub contains_hash-add_hash_mono :
      (g : ℕ) → contains_hash f g ≡ true → contains_hash (add_hash f hash).0 g ≡ true
  unfolding contains_hash
  contains_hash-add_hash_mono g c = ground (
    arith,
    same_parameters,
    check-add_hash_mono (index f.num_bits g),
    contains_loop_mono f.num_bits (omega arith) (f.num_hashes - 1) f.words (add_hash f hash).0.words
        g (second_hash g) check-add_hash_mono,
  )

-- While every bit that was set was there before, the words answer as they did.
abbrev Unchanged : Bool → List ℕ → List ℕ → Type 0
Unchanged p ws vs = p ≡ true → (j : ℕ) → check vs j ≡ check ws j

module _ (n : ℕ) (pos : 0 < n) (ws : List ℕ) where
  Unchanged-set_bit :
      (vs : List ℕ) (p : Bool) (idx : ℕ)
      → idx / 2 ^ 6 < length vs
      → Unchanged p ws vs
      → Unchanged (p && check vs idx) ws (set_bit vs idx)
  Unchanged-set_bit vs true idx h u e j =
      let same : check vs j ≡ check ws j = u refl j in
      ground (arith, same, check-set_bit vs idx j h, set_already idx j e)
    where
      set_already : (i k : ℕ) → check vs i ≡ true → (i == k) ≡ true → check vs k ≡ true
      set_already i k c q = rw (← (==_iff i k).0 q) c
  Unchanged-set_bit vs false idx h u e j = cc

  answer-add_loop :
      (k : ℕ) (vs : List ℕ) (h1 h2 : ℕ) (p : Bool)
      → n ≡ length vs * 64
      → Unchanged p ws vs
      → (add_loop k n vs h1 h2 p).1 ≡ (p && contains_loop k n ws h1 h2)
  unfolding add_loop contains_loop
  answer-add_loop zero vs h1 h2 p e u = ground arith
  answer-add_loop (suc k) vs h1 h2 p e u =
      let idx = index n (next_hash h1 h2) in
      let inside : idx / 2 ^ 6 < length vs = word-lt n pos vs h1 h2 e in
      answer-add_loop k (set_bit vs idx) (next_hash h1 h2) h2 (p && check vs idx)
        (omega (arith, length-set_bit vs idx)) (Unchanged-set_bit vs p idx inside u)
      ∙ same_answer p idx u
    where
      same_answer :
          (q : Bool) (idx : ℕ)
          → Unchanged q ws vs
          → ((q && check vs idx) && contains_loop k n ws (next_hash h1 h2) h2) ≡ (
              q
              && (if not (check ws idx) then false else contains_loop k n ws (next_hash h1 h2) h2))
      same_answer true idx w = let same : check vs idx ≡ check ws idx = w refl idx in ground arith
      same_answer false idx w = refl

-- On a valid filter and a 64-bit hash, `Add` answers what `Contains` would have answered before it.
pub answer-add_hash :
    (f : Filter) (hash : ℕ) → IsValid f → hash < 2 ^ 64 → (add_hash f hash).1 ≡ contains_hash f hash
unfolding add_hash contains_hash
answer-add_hash f hash v h =
    let idx = index f.num_bits hash in
    ground (
      arith,
      length-set_bit f.words idx,
      answer-add_loop f.num_bits (omega arith) f.words (f.num_hashes - 1) (set_bit f.words idx) hash
          (second_hash hash) (check f.words idx) (omega (arith, length-set_bit f.words idx))
          (Unchanged-set_bit f.num_bits (omega arith) f.words f.words true idx
            (first_word-lt f v hash h) (λ _ _. refl)),
    )

-- The third-party hash returns 64-bit words.
module _ (hash_seed : List ℕ → ℕ → ℕ)
    (word : (b : List ℕ) (seed : ℕ) → hash_seed b seed < 2 ^ 64) where
  add-IsValid : (f : Filter) (b : List ℕ) → IsValid f → IsValid (add hash_seed f b).0
  unfolding add
  add-IsValid f b v = add_hash-IsValid f v (hash_seed b f.seed) (word b f.seed)

  add_all-IsValid : (f : Filter) (bs : List (List ℕ)) → IsValid f → IsValid (add_all hash_seed f bs)
  unfolding add_all
  add_all-IsValid f [] v = v
  add_all-IsValid f (b ∷ bs) v = add_all-IsValid (add hash_seed f b).0 bs (add-IsValid f b v)

  contains-add_self :
      (f : Filter) (b : List ℕ) → IsValid f → contains hash_seed (add hash_seed f b).0 b ≡ true
  unfolding add contains
  contains-add_self f b v =
      rw (same_parameters f v (hash_seed b f.seed) (word b f.seed)).2
        (contains_hash-add_hash_self f v (hash_seed b f.seed) (word b f.seed))

  contains-add_mono :
      (f : Filter) (b c : List ℕ)
      → IsValid f
      → contains hash_seed f c ≡ true
      → contains hash_seed (add hash_seed f b).0 c ≡ true
  unfolding add contains
  contains-add_mono f b c v e =
      rw (same_parameters f v (hash_seed b f.seed) (word b f.seed)).2 (
        contains_hash-add_hash_mono f v (hash_seed b f.seed) (word b f.seed) (hash_seed c f.seed) e)

  contains-add_all_mono :
      (f : Filter) (bs : List (List ℕ)) (c : List ℕ)
      → IsValid f
      → contains hash_seed f c ≡ true
      → contains hash_seed (add_all hash_seed f bs) c ≡ true
  unfolding add_all
  contains-add_all_mono f [] c v e = e
  contains-add_all_mono f (b ∷ bs) c v e =
      contains-add_all_mono (add hash_seed f b).0 bs c (add-IsValid f b v)
        (contains-add_mono f b c v e)

  -- There are no false negatives: after any keys were added to a valid filter, in any order and with
  -- any keys before and after it, `Contains` answers true for each of them. The third-party hash
  -- returns 64-bit words.
  pub no_false_negatives :
      (f : Filter) (before after : List (List ℕ)) (b : List ℕ)
      → IsValid f
      → contains hash_seed (add_all hash_seed f (before ++ (b ∷ after))) b ≡ true
  unfolding add_all
  no_false_negatives f [] after b v =
      contains-add_all_mono (add hash_seed f b).0 after b (add-IsValid f b v)
        (contains-add_self f b v)
  no_false_negatives f (c ∷ before) after b v =
      no_false_negatives (add hash_seed f c).0 before after b (add-IsValid f c v)
