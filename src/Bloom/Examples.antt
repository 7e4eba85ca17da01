-- ===== src/Bloom/Examples.antt =====
-- bloom/bloom.go: a filter of one word, and keys in it.
use seol.Base.{ℕ, ◌+◌, ◌/◌, ◌%◌, ◌^◌, ◌<◌, true, ◌≡◌, refl, arith, length, List, [], ◌∷◌}
use seol.Base.Result.{ok}
use seol.Bloom.{Filter, index, next_hash, add_all, contains, add_hash, contains_hash}
use seol.Bloom.Membership.{IsValid}
use seol.Bloom.Codec.{InRange, marshal_binary, read_filter}
use seol.Bloom.NoFalseNegatives.{no_false_negatives, answer-add_hash}
use seol.Bloom.Codec.{read_filter-marshal_binary, read_filter-IsValid}

abbrev sum : List ℕ → ℕ
sum [] = 0
sum (b ∷ bs) = b + sum bs

abbrev toy_hash : List ℕ → ℕ → ℕ
toy_hash b seed = (sum b + seed) % 2 ^ 64

toy_hash-lt : (b : List ℕ) (seed : ℕ) → toy_hash b seed < 2 ^ 64
toy_hash-lt b seed = omega arith

abbrev one_word : Filter
one_word = record { words = 5 ∷ []; num_bits = 64; num_hashes = 2; seed = 7 }

one_word-IsValid : IsValid one_word
one_word-IsValid = record { sized = refl; some_words = omega arith }

one_word-InRange : InRange one_word
one_word-InRange = record {
  bits_fit = omega arith;
  hashes_fit = omega arith;
  some_hashes = omega arith;
  seed_fits = omega arith;
  words_fit = (omega arith, tt);
}

no_false_negatives_example :
    contains toy_hash (add_all toy_hash one_word ((1 ∷ []) ∷ (2 ∷ 3 ∷ []) ∷ [])) (2 ∷ 3 ∷ []) ≡ true
no_false_negatives_example =
    no_false_negatives toy_hash toy_hash-lt one_word ((1 ∷ []) ∷ []) [] (2 ∷ 3 ∷ [])
      one_word-IsValid

answer-add_hash_example : (add_hash one_word 9).1 ≡ contains_hash one_word 9
answer-add_hash_example = answer-add_hash one_word 9 one_word-IsValid (omega arith)

read_filter-marshal_binary_example : read_filter (marshal_binary one_word) ≡ ok one_word
read_filter-marshal_binary_example =
    read_filter-marshal_binary one_word one_word-IsValid one_word-InRange

read_filter-IsValid_example :
    IsValid one_word
    × (0 < 2)
    × ((hash : ℕ)
        → hash < 2 ^ 64
        → (index one_word.num_bits hash / 2 ^ 6 < length one_word.words)
          × IsValid (add_hash one_word hash).0)
    × ((h1 h2 : ℕ) → index one_word.num_bits (next_hash h1 h2) / 2 ^ 6 < length one_word.words)
read_filter-IsValid_example =
    read_filter-IsValid (marshal_binary one_word) one_word
      (read_filter-marshal_binary one_word one_word-IsValid one_word-InRange)
