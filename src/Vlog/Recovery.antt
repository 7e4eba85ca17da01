-- ===== src/Vlog/Recovery.antt =====
-- vlog/vlog.go: what scanSegment, and so Open, makes of a segment that a crash has cut short.
use mathlib.Core.Path.{subst}
use native.Mathlib.Nat.{zero-add}
use native.Mathlib.Decide.{dec_lt}
use seol.Base.{ℕ, suc, ◌+◌, ◌-◌, ◌^◌, ◌≤◌, ◌<◌, true, false, ◌≡◌, refl, sym, ap, ◌∙◌, arith}
use seol.Base.{
  List, [], ◌∷◌, ◌++◌, append_assoc, append-nil, ==_iff, lt→ltb, le→ltb, length, take, drop,
  length-append, length-take, take-append_ge,
}
use seol.Base.Result.{ok}
use seol.Base.Bytes.{get_uint}
use seol.Base.Crc.{update}
use seol.Base.Files.{read_at, read_at_middle}
use seol.Record.{
  record_header_size, encode, header, Fits, encode-eq-header, length-header, length-encode,
  header_fields, encode_all, AllFit,
}
use seol.Record.Reading.{header_checksum, read_header, read_payload}
use seol.Vlog.Scan.{scan_loop, scan_segment}

-- One round on a record that is whole.
scan_step :
    (fuel : ℕ) (file : List ℕ) (offset : ℕ) (head payload : List ℕ) (key_len value_len : ℕ)
    → read_at file offset record_header_size ≡ ok head
    → get_uint 4 (drop 4 head) ≡ key_len
    → get_uint 4 (drop 8 head) ≡ value_len
    → read_at file (offset + record_header_size) (key_len + value_len) ≡ ok payload
    → update (update 0 (drop 4 head)) payload ≡ get_uint 4 head
    → offset + (record_header_size + key_len + value_len) ≤ length file
    → scan_loop (suc fuel) file offset
      ≡ scan_loop fuel file (offset + (record_header_size + key_len + value_len))
unfolding scan_loop
scan_step fuel file offset head payload key_len value_len e1 e2 e3 e4 e5 h =
    rw
      (
        lt→ltb offset (length file) (omega arith),
        le→ltb (length file - offset) record_header_size (omega arith),
        e1,
      )
      (rw (e2, e3)
        (rw
          (
            le→ltb (record_header_size + key_len + value_len) record_header_size (omega arith),
            le→ltb (length file) (offset + (record_header_size + key_len + value_len)) h,
            e4,
          )
          (rw ((==_iff (update (update 0 (drop 4 head)) payload) (get_uint 4 head)).1 e5) refl)))

scan_encoded :
    (fuel : ℕ) (before key value after : List ℕ)
    → Fits key value
    → length (before ++ (encode key value ++ after)) < 2 ^ 63
    → scan_loop (suc fuel) (before ++ (encode key value ++ after)) (length before)
      ≡ scan_loop fuel (before ++ (encode key value ++ after)) (length (before ++ encode key value))
scan_encoded fuel before key value after f small =
    let (e1, e2, e3) = header_fields key value f in
    scan_step fuel (before ++ (encode key value ++ after)) (length before) (header key value)
      (key ++ value) (length key) (length value) (read_header before key value after small) e2 e3
      (read_payload before key value after small) (header_checksum key value f)
      (omega (
        arith,
        length-append before (encode key value ++ after),
        length-append (encode key value) after,
        length-encode key value,
      ))
    ∙ ap (scan_loop fuel (before ++ (encode key value ++ after)))
        (omega (arith, length-append before (encode key value), length-encode key value))

-- A run of whole records is passed over.
scan_encode_all :
    (rs : List (List ℕ × List ℕ)) (fuel : ℕ) (file before after : List ℕ)
    → AllFit rs
    → file ≡ before ++ (encode_all rs ++ after)
    → length file < 2 ^ 63
    → scan_loop (length rs + fuel) file (length before)
      ≡ scan_loop fuel file (length (before ++ encode_all rs))
scan_encode_all [] fuel file before after fits e small =
    rw zero-add (ap (λ (bs : List ℕ). scan_loop fuel file (length bs)) (sym (append-nil before)))
scan_encode_all ((key, value) ∷ rs) fuel file before after fits e small =
    let first : file ≡ before ++ (encode key value ++ (encode_all rs ++ after)) =
      e ∙ simp append_assoc in
    let rest : file ≡ (before ++ encode key value) ++ (encode_all rs ++ after) =
      first ∙ simp append_assoc in
    rw add_suc (
      subst
        (λ (g : List ℕ).
          scan_loop (suc (length rs + fuel)) g (length before)
          ≡ scan_loop (length rs + fuel) g (length (before ++ encode key value)))
        (sym first)
        (scan_encoded (length rs + fuel) before key value (encode_all rs ++ after) fits.0
          (rw first at small))
      ∙ scan_encode_all rs fuel file (before ++ encode key value) after fits.1 rest small
      ∙ ap (λ (bs : List ℕ). scan_loop fuel file (length bs))
          (append_assoc before (encode key value) (encode_all rs)))
  where
    add_suc : suc (length rs) + fuel ≡ suc (length rs + fuel)
    add_suc = omega arith

scan_end :
    (fuel : ℕ) (file : List ℕ) (offset : ℕ)
    → offset ≡ length file
    → scan_loop (suc fuel) file offset ≡ ok (offset, false)
unfolding scan_loop
scan_end fuel file offset e = rw (le→ltb offset (length file) (omega arith)) refl

-- A record takes a header at least, so there are no more records than bytes.
length-encode_all : (rs : List (List ℕ × List ℕ)) → length rs ≤ length (encode_all rs)
length-encode_all [] = omega arith
length-encode_all ((key, value) ∷ rs) = omega (
  arith,
  length-append (encode key value) (encode_all rs),
  length-encode key value,
  length-encode_all rs,
)

scan_segment_prefix :
    (rs : List (List ℕ × List ℕ)) (after : List ℕ)
    → AllFit rs
    → length (encode_all rs ++ after) < 2 ^ 63
    → (fuel : ℕ) × (scan_segment (encode_all rs ++ after)
        ≡ scan_loop (suc fuel) (encode_all rs ++ after) (length (encode_all rs)))
unfolding scan_segment
scan_segment_prefix rs after fits small =
    let fuel = length (encode_all rs ++ after) - length rs in
    let enough : suc (length (encode_all rs ++ after)) ≡ length rs + suc fuel =
      omega (arith, length-append (encode_all rs) after, length-encode_all rs) in
    (
      fuel,
      ap (λ (n : ℕ). scan_loop n (encode_all rs ++ after) 0) enough
          ∙ scan_encode_all rs (suc fuel) (encode_all rs ++ after) [] after fits refl small,
    )

-- A segment of whole records is valid to its end.
pub scan_segment_whole :
    (rs : List (List ℕ × List ℕ))
    → AllFit rs
    → length (encode_all rs) < 2 ^ 63
    → scan_segment (encode_all rs) ≡ ok (length (encode_all rs), false)
scan_segment_whole rs fits small =
    let (fuel, e) = scan_segment_prefix rs [] fits (rw append-nil small) in
    rw append-nil at e ∙ scan_end fuel (encode_all rs) (length (encode_all rs)) refl

-- A record that is cut short ends the scan where it begins, with an invalid tail.
module _ (fuel : ℕ) (before key value : List ℕ) (f : Fits key value) (k : ℕ) (some_bytes : 0 < k)
    (cut : k < length (encode key value))
    (small : length (before ++ take k (encode key value)) < 2 ^ 63) where
  torn : List ℕ
  torn = before ++ take k (encode key value)

  length-torn : length torn ≡ length before + k
  unfolding torn
  length-torn =
      omega
        (arith, length-append before (take k (encode key value)), length-take k (encode key value))

  scan_torn_header :
      k < record_header_size → scan_loop (suc fuel) torn (length before) ≡ ok (length before, true)
  unfolding scan_loop
  scan_torn_header h =
      rw
        (
          lt→ltb (length before) (length torn) (omega (arith, length-torn)),
          lt→ltb (length torn - length before) record_header_size (omega (arith, length-torn)),
        )
        refl

  torn_parts :
      record_header_size ≤ k
      → torn ≡ before ++ (header key value ++ take (k - record_header_size) (key ++ value))
  unfolding torn
  torn_parts h =
      ap (λ (bs : List ℕ). before ++ bs)
        (ap (take k) (encode-eq-header key value)
          ∙ take-append_ge k (header key value) (key ++ value)
              (omega (arith, length-header key value))
          ∙ rw (length-header key value) refl)

  torn-header :
      record_header_size ≤ k
      → read_at torn (length before) record_header_size ≡ ok (header key value)
  torn-header h =
      let fits : length torn < 2 ^ 63 = unfold torn in small in
      rw (torn_parts h) (
        read_at_middle before (header key value) (take (k - record_header_size) (key ++ value))
          (length before) record_header_size refl (sym (length-header key value))
          (rw (torn_parts h) at fits))

  scan_torn_body :
      record_header_size ≤ k → scan_loop (suc fuel) torn (length before) ≡ ok (length before, true)
  unfolding scan_loop
  scan_torn_body h =
      let (e1, e2, e3) = header_fields key value f in
      rw
        (
          lt→ltb (length before) (length torn) (omega (arith, length-torn)),
          le→ltb (length torn - length before) record_header_size (omega (arith, length-torn)),
          torn-header h,
        )
        (rw (e2, e3)
          (rw
            (
              le→ltb (record_header_size + length key + length value) record_header_size
                  (omega arith),
              lt→ltb (length torn)
                  (length before + (record_header_size + length key + length value))
                  (omega (arith, length-torn, length-encode key value)),
            )
            refl))

  scan_torn :
      scan_loop (suc fuel) (before ++ take k (encode key value)) (length before)
      ≡ ok (length before, true)
  unfolding torn
  scan_torn = elim (dec_lt k record_header_size) [
    | yes h ↦ scan_torn_header h
    | no h ↦ scan_torn_body (omega arith)
  ]

-- After a crash in the middle of a write, the scan of a segment keeps exactly the whole records
-- before it and reports an invalid tail. The records fit the format and the file is below 2^63
-- bytes.
pub scan_segment_torn :
    (rs : List (List ℕ × List ℕ)) (key value : List ℕ) (k : ℕ)
    → AllFit rs
    → Fits key value
    → 0 < k
    → k < length (encode key value)
    → length (encode_all rs ++ take k (encode key value)) < 2 ^ 63
    → scan_segment (encode_all rs ++ take k (encode key value)) ≡ ok (length (encode_all rs), true)
scan_segment_torn rs key value k fits f p q small =
    let (fuel, e) = scan_segment_prefix rs (take k (encode key value)) fits small in
    e ∙ scan_torn fuel (encode_all rs) key value f k p q small
