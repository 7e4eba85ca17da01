-- ===== src/Bloom/Membership.antt =====
-- bloom/bloom.go: what `Add` and `Contains` answer.
use native.Mathlib.Nat.{div-lt_iff_lt-mul, one-le-pow}
use seol.Base.{ℕ, zero, suc, ◌*◌, ◌/◌, ◌%◌, ◌^◌, ◌<◌, Bool, true, ◌&&◌}
use seol.Base.{List, ◌≡◌, ◌≢◌, refl, ap, ◌∙◌, arith, inl, inr}
use seol.Base.{
  ◌==◌, ==_iff, if◌then◌else◌, length, get_or, length-set, get_or-set_self, get_or-set_ne,
  Bool-cases,
}
use seol.Base.Bits.{
  digit, digit-lt, digit-bit_or, digit-two-pow_self, digit-two-pow_ne, bit_and-two-pow,
}
use seol.Bloom.{Filter, index, check, set_bit, next_hash, add_loop, contains_loop}

-- What every constructor of the program makes: the bits are those of the words, at least one.
pub record IsValid (f : Filter) : Type 0 where
  pub sized : f.num_bits ≡ length f.words * 64
  pub some_words : 0 < length f.words

-- The bit of an index, by the binary digits of its word.
bit : List ℕ → ℕ → ℕ
bit words idx = digit (get_or words (idx / 2 ^ 6) 0) (idx % 64)

check-bit : (words : List ℕ) (idx : ℕ) → check words idx ≡ (bit words idx == 1)
unfolding check bit
check-bit words idx = ground (
  arith,
  bit_and-two-pow (idx % 64) (get_or words (idx / 2 ^ 6) 0),
  one-le-pow (idx % 64) 2 (omega arith),
  digit-lt (get_or words (idx / 2 ^ 6) 0) (idx % 64),
)

-- No index leaves the words.
pub index-lt : (num_bits hash : ℕ) → 0 < num_bits → hash < 2 ^ 64 → index num_bits hash < num_bits
unfolding index
index-lt num_bits hash p h = (div-lt_iff_lt-mul (omega arith)).1 (grind arith)

bit-set_bit_self : (words : List ℕ) (i : ℕ) → i / 2 ^ 6 < length words → bit (set_bit words i) i ≡ 1
unfolding set_bit bit
bit-set_bit_self words i h =
    ap (λ (w : ℕ). digit w (i % 64)) (get_or-set_self words (i / 2 ^ 6) _ 0 h)
    ∙ digit-bit_or (i % 64) (get_or words (i / 2 ^ 6) 0) (2 ^ (i % 64))
    ∙ omega (arith, digit-two-pow_self (i % 64), digit-lt (get_or words (i / 2 ^ 6) 0) (i % 64))

bit-set_bit_word :
    (words : List ℕ) (i j : ℕ)
    → i / 2 ^ 6 ≡ j / 2 ^ 6
    → i ≢ j
    → i / 2 ^ 6 < length words
    → bit (set_bit words i) j ≡ bit words j
unfolding set_bit bit
bit-set_bit_word words i j e ne h = rw (← e) (
    ap (λ (w : ℕ). digit w (j % 64)) (get_or-set_self words (i / 2 ^ 6) _ 0 h)
    ∙ digit-bit_or (j % 64) (get_or words (i / 2 ^ 6) 0) (2 ^ (i % 64))
    ∙ omega (arith, digit-two-pow_ne (i % 64) (j % 64) (omega arith)))

bit-set_bit_ne :
    (words : List ℕ) (i j : ℕ)
    → i ≢ j
    → i / 2 ^ 6 < length words
    → bit (set_bit words i) j ≡ bit words j
bit-set_bit_ne words i j ne h = elim (Bool-cases (i / 2 ^ 6 == j / 2 ^ 6)) [
  | inl e ↦ bit-set_bit_word words i j ((==_iff _ _).0 e) ne h
  | inr e ↦
      unfold set_bit bit in
      ap (λ (w : ℕ). digit w (j % 64))
        (get_or-set_ne words (i / 2 ^ 6) (j / 2 ^ 6) _ 0 (ground arith))
]

-- Writing a bit writes that bit alone.
pub check-set_bit :
    (words : List ℕ) (i j : ℕ)
    → i / 2 ^ 6 < length words
    → check (set_bit words i) j ≡ (if i == j then true else check words j)
check-set_bit words i j h = elim (Bool-cases (i == j)) [
  | inl e ↦ rw (e, check-bit) (rw (← (==_iff i j).0 e, bit-set_bit_self words i h))
  | inr e ↦ rw (e, check-bit, check-bit) (rw (bit-set_bit_ne words i j (ground arith) h))
]

pub length-set_bit : (words : List ℕ) (i : ℕ) → length (set_bit words i) ≡ length words
unfolding set_bit
length-set_bit words i = length-set words (i / 2 ^ 6) _

-- The words after `add_loop`, and its answer apart.
abbrev loop_words : ℕ → ℕ → List ℕ → ℕ → ℕ → Bool → List ℕ
loop_words k n words h1 h2 p = (add_loop k n words h1 h2 p).0

module _ (n : ℕ) (pos : 0 < n) where
  pub word-lt :
      (words : List ℕ) (h1 h2 : ℕ)
      → n ≡ length words * 64
      → index n (next_hash h1 h2) / 2 ^ 6 < length words
  word-lt words h1 h2 e =
      let b : index n (next_hash h1 h2) < n = index-lt n (next_hash h1 h2) pos (omega arith) in
      omega arith

  pub length-add_loop :
      (k : ℕ) (words : List ℕ) (h1 h2 : ℕ) (p : Bool)
      → length (loop_words k n words h1 h2 p) ≡ length words
  unfolding add_loop
  length-add_loop zero words h1 h2 p = refl
  length-add_loop (suc k) words h1 h2 p =
      length-add_loop k (set_bit words (index n (next_hash h1 h2))) (next_hash h1 h2) h2 _
      ∙ length-set_bit words _

  -- The loop clears no bit.
  pub check-add_loop_mono :
      (k : ℕ) (words : List ℕ) (h1 h2 : ℕ) (p : Bool) (j : ℕ)
      → n ≡ length words * 64
      → check words j ≡ true
      → check (loop_words k n words h1 h2 p) j ≡ true
  unfolding add_loop
  check-add_loop_mono zero words h1 h2 p j e c = c
  check-add_loop_mono (suc k) words h1 h2 p j e c =
      let idx = index n (next_hash h1 h2) in
      check-add_loop_mono k (set_bit words idx) (next_hash h1 h2) h2 _ j
        (omega (arith, length-set_bit words idx))
        (rw (check-set_bit words idx j (word-lt words h1 h2 e)) (ground (arith, c)))

  -- `contains_loop` sees only the bits, and a filter with more bits answers true more often.
  pub contains_loop_mono :
      (k : ℕ) (ws vs : List ℕ) (h1 h2 : ℕ)
      → ((j : ℕ) → check ws j ≡ true → check vs j ≡ true)
      → contains_loop k n ws h1 h2 ≡ true
      → contains_loop k n vs h1 h2 ≡ true
  unfolding contains_loop
  contains_loop_mono zero ws vs h1 h2 m c = refl
  contains_loop_mono (suc k) ws vs h1 h2 m c =
      ground
        (arith, m (index n (next_hash h1 h2)), contains_loop_mono k ws vs (next_hash h1 h2) h2 m)

  -- What the loop has added it finds.
  pub contains_loop-add_loop :
      (k : ℕ) (words : List ℕ) (h1 h2 : ℕ) (p : Bool)
      → n ≡ length words * 64
      → contains_loop k n (loop_words k n words h1 h2 p) h1 h2 ≡ true
  unfolding contains_loop add_loop
  contains_loop-add_loop zero words h1 h2 p e = refl
  contains_loop-add_loop (suc k) words h1 h2 p e =
      let idx = index n (next_hash h1 h2) in
      ground (
        arith,
        check-add_loop_mono k (set_bit words idx) (next_hash h1 h2) h2 (p && check words idx) idx
            (omega (arith, length-set_bit words idx)),
        check-set_bit words idx idx (word-lt words h1 h2 e),
        contains_loop-add_loop k (set_bit words idx) (next_hash h1 h2) h2 (p && check words idx)
            (omega (arith, length-set_bit words idx)),
      )
