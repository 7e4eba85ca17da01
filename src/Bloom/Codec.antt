-- ===== src/Bloom/Codec.antt =====
-- bloom/bloom.go: MarshalBinary, UnmarshalBinary and ReadFilter.
use mathlib.Core.Path.{ap₂}
use seol.Base.{
  ℕ, zero, suc, ◌+◌, ◌*◌, ◌/◌, ◌%◌, ◌^◌, ◌<◌, not, ◌||◌, ◌≡◌, refl, sym, ap, ◌∙◌, arith,
}
use seol.Base.{List, [], ◌∷◌, ◌++◌, ◌==◌, ltb, length, drop, get_or, All, drop-append, drop-drop}
use seol.Base.Result.{
  Result, ok, ◌>>◌, require, data_too_short, invalid_magic, unsupported_version, invalid_bit_count,
  invalid_hash_count, invalid_data_length,
}
use seol.Base.Bytes.{put_uint, get_uint, length-put_uint, get_uint-put_uint}
use seol.Bloom.{Filter, index, next_hash, add_hash}
use seol.Bloom.Membership.{IsValid, word-lt}
use seol.Bloom.NoFalseNegatives.{first_word-lt, add_hash-IsValid}

abbrev pub magic : ℕ
magic = 0xb100f11e

abbrev pub version : ℕ
version = 1

abbrev pub header_size : ℕ
header_size = 4 + 1 + 8 + 4 + 8

unfoldable pub put_words : List ℕ → List ℕ
put_words [] = []
put_words (word ∷ words) = put_uint 8 word ++ put_words words

-- The fields at the offsets 0, 4, 5, 13 and 17 of the buffer, and the words from 25 on.
unfoldable pub marshal_binary : Filter → List ℕ
unfolding put_words
marshal_binary f =
    put_uint 4 magic
    ++ (version
        ∷ (put_uint 8 f.num_bits
            ++ (put_uint 4 f.num_hashes ++ (put_uint 8 f.seed ++ put_words f.words))))

-- `for i := range words`: so many words, from `ptr` on.
unfoldable pub get_words : ℕ → ℕ → List ℕ → List ℕ
get_words zero ptr bytes = []
get_words (suc count) ptr bytes = get_uint 8 (drop ptr bytes) ∷ get_words count (ptr + 8) bytes

unfoldable pub read_filter : List ℕ → Result Filter
unfolding get_words
read_filter bytes = do
  require (not (ltb (length bytes) header_size)) data_too_short
  require (get_uint 4 bytes == magic) invalid_magic
  require (get_or bytes 4 0 == version) unsupported_version
  let num_bits = get_uint 8 (drop 5 bytes)
  require (not (num_bits == 0 || not (num_bits % 64 == 0))) invalid_bit_count
  let num_hashes = get_uint 4 (drop 13 bytes)
  require (not (num_hashes == 0)) invalid_hash_count
  let word_count = num_bits / 64
  require (length bytes == header_size + word_count * 8) invalid_data_length
  ok (record {
    words = get_words word_count header_size bytes;
    num_bits = num_bits;
    num_hashes = num_hashes;
    seed = get_uint 8 (drop 17 bytes);
  })

-- What the fields of a filter hold in the program.
pub record InRange (f : Filter) : Type 0 where
  pub bits_fit : f.num_bits < 2 ^ 64
  pub hashes_fit : f.num_hashes < 2 ^ 32
  pub some_hashes : 0 < f.num_hashes
  pub seed_fits : f.seed < 2 ^ 64
  pub words_fit : All (λ w. w < 2 ^ 64) f.words

length-put_words : (words : List ℕ) → length (put_words words) ≡ length words * 8
unfolding put_words
length-put_words [] = refl
length-put_words (w ∷ ws) = omega (arith, length-put_words ws)

get_words-put_words :
    (words : List ℕ) (ptr : ℕ) (bytes : List ℕ)
    → All (λ w. w < 2 ^ 64) words
    → drop ptr bytes ≡ put_words words
    → get_words (length words) ptr bytes ≡ words
unfolding get_words put_words
get_words-put_words [] ptr bytes h e = refl
get_words-put_words (w ∷ ws) ptr bytes h e =
    ap₂ ◌∷◌ (ap (get_uint 8) e ∙ get_uint-put_uint 8 w (put_words ws) h.0)
      (get_words-put_words ws (ptr + 8) bytes h.1 rest)
  where
    rest : drop (ptr + 8) bytes ≡ put_words ws
    rest =
        sym (drop-drop 8 ptr bytes)
        ∙ ap (drop 8) e
        ∙ drop-append 8 (put_uint 8 w) (put_words ws) (length-put_uint 8 w)

-- The decoder on a buffer whose fields are known.
read_filter_fields :
    (bytes : List ℕ) (f : Filter)
    → IsValid f
    → 0 < f.num_hashes
    → length bytes ≡ header_size + length f.words * 8
    → get_uint 4 bytes ≡ magic
    → get_or bytes 4 0 ≡ version
    → get_uint 8 (drop 5 bytes) ≡ f.num_bits
    → get_uint 4 (drop 13 bytes) ≡ f.num_hashes
    → get_uint 8 (drop 17 bytes) ≡ f.seed
    → get_words (length f.words) header_size bytes ≡ f.words
    → read_filter bytes ≡ ok f
unfolding read_filter
read_filter_fields bytes f v pos e0 e1 e2 e3 e4 e5 e6 = ground arith

-- Decoding gives back every valid filter that was encoded, if its fields hold what their Go types
-- hold and it has a hash to check.
pub read_filter-marshal_binary :
    (f : Filter) → IsValid f → InRange f → read_filter (marshal_binary f) ≡ ok f
unfolding marshal_binary
read_filter-marshal_binary f v r =
    let seed_and_words = put_uint 8 f.seed ++ put_words f.words in
    let from_hashes = put_uint 4 f.num_hashes ++ seed_and_words in
    read_filter_fields (marshal_binary f) f v r.some_hashes
      (omega (arith, length-put_words f.words)) refl refl
      (get_uint-put_uint 8 f.num_bits from_hashes r.bits_fit)
      (get_uint-put_uint 4 f.num_hashes seed_and_words r.hashes_fit)
      (get_uint-put_uint 8 f.seed (put_words f.words) r.seed_fits)
      (get_words-put_words f.words header_size (marshal_binary f) r.words_fit refl)

length-get_words : (n ptr : ℕ) (bytes : List ℕ) → length (get_words n ptr bytes) ≡ n
unfolding get_words
length-get_words zero ptr bytes = refl
length-get_words (suc n) ptr bytes = ap suc (length-get_words n (ptr + 8) bytes)

IsValid-read :
    (bytes : List ℕ) (f : Filter) → read_filter bytes ≡ ok f → IsValid f × (0 < f.num_hashes)
unfolding read_filter
IsValid-read bytes f e =
    ground (arith, length-get_words (get_uint 8 (drop 5 bytes) / 64) header_size bytes)

-- Whatever bytes it is given, an accepted filter is valid and has a hash to check; for each 64-bit
-- hash, and for each hash that is derived from it, the bit that `Contains` and `Add` look at is
-- inside the words of the filter, and after `Add` the filter is valid again.
pub read_filter-IsValid :
    (bytes : List ℕ) (f : Filter)
    → read_filter bytes ≡ ok f
    → IsValid f
      × (0 < f.num_hashes)
      × ((hash : ℕ)
          → hash < 2 ^ 64
          → (index f.num_bits hash / 2 ^ 6 < length f.words) × IsValid (add_hash f hash).0)
      × ((h1 h2 : ℕ) → index f.num_bits (next_hash h1 h2) / 2 ^ 6 < length f.words)
read_filter-IsValid bytes f e =
    let (v, some_hash) = IsValid-read bytes f e in
    let pos : 0 < f.num_bits = omega (arith, v.sized, v.some_words) in
    (
      v,
      some_hash,
      λ hash h. (first_word-lt f v hash h, add_hash-IsValid f v hash h),
      λ h1 h2. word-lt f.num_bits pos f.words h1 h2 v.sized,
    )
