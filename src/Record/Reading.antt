-- ===== src/Record/Reading.antt =====
-- Reads from a file that holds an encoded record.
use seol.Base.{ℕ, ◌+◌, ◌^◌, ◌<◌, ◌≡◌, refl, sym, ◌∙◌, arith}
use seol.Base.{List, ◌++◌, append_assoc, length, drop, length-append}
use seol.Base.Result.{ok}
use seol.Base.Bytes.{get_uint}
use seol.Base.Crc.{update, checksum-append}
use seol.Base.Files.{read_at, read_at_middle}
use seol.Record.{
  record_header_size, encode, header, Fits, encode-eq-header, length-header, header_fields,
}

-- The checksum of a record that is read back in two parts.
pub header_checksum :
    (key value : List ℕ)
    → Fits key value
    → update (update 0 (drop 4 (header key value))) (key ++ value) ≡ get_uint 4 (header key value)
header_checksum key value f =
    checksum-append (drop 4 (header key value)) (key ++ value) ∙ sym (header_fields key value f).0

module _ (before key value after : List ℕ)
    (small : length (before ++ (encode key value ++ after)) < 2 ^ 63) where
  -- The same bytes with the part to read in the middle.
  at_header :
      before ++ (encode key value ++ after)
      ≡ before ++ (header key value ++ ((key ++ value) ++ after))
  at_header = rw (encode-eq-header, append_assoc)

  at_key :
      before ++ (encode key value ++ after)
      ≡ (before ++ header key value) ++ (key ++ (value ++ after))
  at_key = rw encode-eq-header (simp append_assoc)

  at_payload :
      before ++ (encode key value ++ after)
      ≡ (before ++ header key value) ++ ((key ++ value) ++ after)
  at_payload = rw encode-eq-header (simp append_assoc)

  at_value :
      before ++ (encode key value ++ after)
      ≡ (before ++ (header key value ++ key)) ++ (value ++ after)
  at_value = rw encode-eq-header (simp append_assoc)

  pub read_header :
      read_at (before ++ (encode key value ++ after)) (length before) record_header_size
      ≡ ok (header key value)
  read_header = rw at_header (
      read_at_middle before (header key value) _ _ _ refl (sym (length-header key value))
        (rw at_header at small))

  pub read_payload :
      read_at
        (before ++ (encode key value ++ after))
        (length before + record_header_size)
        (length key + length value)
      ≡ ok (key ++ value)
  read_payload = rw at_payload (
      read_at_middle (before ++ header key value) (key ++ value) after _ _
        (omega (arith, length-append before (header key value), length-header key value))
        (sym (length-append key value)) (rw at_payload at small))

  pub read_at-key :
      read_at
        (before ++ (encode key value ++ after))
        (length before + record_header_size)
        (length key)
      ≡ ok key
  read_at-key = rw at_key (
      read_at_middle (before ++ header key value) key (value ++ after) _ _
        (omega (arith, length-append before (header key value), length-header key value)) refl
        (rw at_key at small))

  pub read_at-value :
      read_at
        (before ++ (encode key value ++ after))
        (length before + record_header_size + length key)
        (length value)
      ≡ ok value
  read_at-value = rw at_value (
      read_at_middle (before ++ (header key value ++ key)) value after _ _
        (omega (
          arith,
          length-append before (header key value ++ key),
          length-append (header key value) key,
          length-header key value,
        ))
        refl (rw at_value at small))
