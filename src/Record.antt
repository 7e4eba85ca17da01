-- ===== src/Record.antt =====
-- The record format that vlog/vlog.go (Append, scanSegment) and wal.go (appendBatch, replayWAL)
-- share: checksum, key length, value length, key, value; the checksum covers all behind it.
pub mod Reading
use seol.Base.{ℕ, zero, suc, ◌+◌, ◌-◌, ◌^◌, ◌≤◌, ◌<◌, ◌≡◌, refl, sym, ap, ◌∙◌, arith}
use seol.Base.{
  List, [], ◌∷◌, ◌++◌, append_assoc, length, take, drop, All, length-append, take-append,
  drop-append,
}
use seol.Base.Bytes.{IsByte, put_uint, get_uint, put_uint-IsByte, get_uint-put_uint}
use seol.Base.Crc.{checksum, checksum-lt}

abbrev pub record_header_size : ℕ
record_header_size = 4 + 4 + 4

-- record[4:]
unfoldable pub body : List ℕ → List ℕ → List ℕ
body key value = put_uint 4 (length key) ++ (put_uint 4 (length value) ++ (key ++ value))

unfoldable pub encode : List ℕ → List ℕ → List ℕ
unfolding body
encode key value = put_uint 4 (checksum (body key value)) ++ body key value

-- The first bytes of a record, of a fixed number.
pub header : List ℕ → List ℕ → List ℕ
header key value =
    put_uint 4 (checksum (body key value)) ++ (put_uint 4 (length key) ++ put_uint 4 (length value))

pub encode-eq-header : (key value : List ℕ) → encode key value ≡ header key value ++ (key ++ value)
unfolding encode header
encode-eq-header key value = refl

pub length-header : (key value : List ℕ) → length (header key value) ≡ record_header_size
unfolding header
length-header key value = refl

-- A key and a value that the format holds.
pub record Fits (key value : List ℕ) : Type 0 where
  pub key_bytes : All IsByte key
  pub value_bytes : All IsByte value
  pub key_length : length key < 2 ^ 32
  pub value_length : length value < 2 ^ 32

pub All-append {ℓ κ} :
    {A : Type ℓ} (P : A → Type κ) (xs ys : List A) → All P xs → All P ys → All P (xs ++ ys)
All-append P [] ys left right = right
All-append P (x ∷ xs) ys left right = (left.0, All-append P xs ys left.1 right)

pub length-encode :
    (key value : List ℕ)
    → length (encode key value) ≡ record_header_size + length key + length value
unfolding encode
length-encode key value = omega (arith, length-append key value)

module _ (key value : List ℕ) (f : Fits key value) where
  body-IsByte : All IsByte (body key value)
  unfolding body
  body-IsByte =
      All-append IsByte (put_uint 4 (length key)) (put_uint 4 (length value) ++ (key ++ value))
        (put_uint-IsByte 4 (length key))
        (All-append IsByte (put_uint 4 (length value)) (key ++ value)
          (put_uint-IsByte 4 (length value))
          (All-append IsByte key value f.key_bytes f.value_bytes))

  -- What a reader finds in the header of an encoded record.
  pub header_fields :
      (get_uint 4 (header key value) ≡ checksum (drop 4 (header key value) ++ (key ++ value)))
      × (get_uint 4 (drop 4 (header key value)) ≡ length key)
      × (get_uint 4 (drop 8 (header key value)) ≡ length value)
  unfolding header body
  header_fields = (
    get_uint-put_uint 4 (checksum (body key value))
        (put_uint 4 (length key) ++ put_uint 4 (length value)) (checksum-lt _ body-IsByte),
    get_uint-put_uint 4 (length key) (put_uint 4 (length value)) f.key_length,
    get_uint-put_uint 4 (length value) [] f.value_length,
  )

  pub header_lengths :
      (rest : List ℕ)
      → (get_uint 4 (drop 4 (header key value ++ rest)) ≡ length key)
        × (get_uint 4 (drop 8 (header key value ++ rest)) ≡ length value)
  unfolding header
  header_lengths rest = (
    get_uint-put_uint 4 (length key) (put_uint 4 (length value) ++ rest) f.key_length,
    get_uint-put_uint 4 (length value) rest f.value_length,
  )

  -- The same with what follows the header.
  pub encode_fields :
      (rest : List ℕ)
      → (get_uint 4 (encode key value ++ rest) ≡ checksum (body key value))
        × (get_uint 4 (drop 4 (encode key value ++ rest)) ≡ length key)
        × (get_uint 4 (drop 8 (encode key value ++ rest)) ≡ length value)
        × (drop record_header_size (encode key value ++ rest) ≡ (key ++ value) ++ rest)
  unfolding encode
  encode_fields rest = (
    get_uint-put_uint 4 (checksum (body key value)) (body key value ++ rest)
        (checksum-lt _ body-IsByte),
    get_uint-put_uint 4 (length key) (put_uint 4 (length value) ++ ((key ++ value) ++ rest))
        f.key_length,
    get_uint-put_uint 4 (length value) ((key ++ value) ++ rest) f.value_length,
    refl,
  )

-- Records one after the other, as a log holds them.
abbrev pub encode_all : List (List ℕ × List ℕ) → List ℕ
encode_all [] = []
encode_all ((key, value) ∷ rest) = encode key value ++ encode_all rest

abbrev pub AllFit : List (List ℕ × List ℕ) → Type 0
AllFit = All (λ entry. Fits entry.0 entry.1)
