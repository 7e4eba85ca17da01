-- ===== src/Sstable/Ranges.antt =====
-- sstable/sstable.go: the index that is written is the one that is read.
use mathlib.Core.Path.{ap₂}
use seol.Base.{
  ℕ, zero, suc, ◌+◌, ◌-◌, ◌%◌, ◌^◌, ◌≤◌, ◌<◌, ◌≡◌, refl, sym, ap, ◌∙◌, arith, List, [], ◌∷◌, ◌++◌,
  append_assoc, append-nil,
}
use seol.Base.{
  le→ltb, lt→ltb, length, take, drop, replicate, All, length-append, take-append, drop-append,
  drop-drop, length-drop, length-replicate, take_all,
}
use seol.Base.Result.{ok}
use seol.Base.Bytes.{put_uint, get_uint, get_uint-put_uint}
use seol.Sstable.Index.{
  DataRange, data_range_meta_size, copy_to, encode_range, decode_range, full_size, encode_loop,
  encode_full_range, decode_loop, decode_full_range,
}

-- A key whose length and the sums with it fit a uint16, and fields of their Go types.
abbrev pub RangeFits : DataRange → Type 0
RangeFits dr = (length dr.first_key + 10 < 2 ^ 16) × (dr.offset < 2 ^ 64) × (dr.size < 2 ^ 32)

abbrev encoded : DataRange → List ℕ
encoded dr =
    put_uint 2 (length dr.first_key)
    ++ (dr.first_key ++ (put_uint 8 dr.offset ++ put_uint 4 dr.size))

length-encoded : (dr : DataRange) → length (encoded dr) ≡ length dr.first_key + data_range_meta_size
length-encoded dr =
    omega (arith, length-append dr.first_key (put_uint 8 dr.offset ++ put_uint 4 dr.size))

copy_to_at :
    (pre rest bytes : List ℕ) (pos : ℕ)
    → pos ≡ length pre
    → length bytes ≤ length rest
    → copy_to (pre ++ rest) pos bytes ≡ (pre ++ bytes) ++ drop (length bytes) rest
unfolding copy_to
copy_to_at pre rest bytes pos e h =
    rw
      (
        take-append pos pre rest (sym e),
        take_all (length (pre ++ rest) - pos) bytes (omega (arith, length-append pre rest)),
        ← drop-drop (length bytes) pos (pre ++ rest),
        drop-append pos pre rest (sym e),
      )
      (sym (append_assoc pre bytes (drop (length bytes) rest)))

drop-fields :
    (n : ℕ) (dst : List ℕ)
    → drop 4 (drop 8 (drop n (drop 2 dst))) ≡ drop (n + data_range_meta_size) dst
drop-fields n dst =
    let total : 2 + n + 8 + 4 ≡ n + data_range_meta_size = omega arith in
    ap (λ xs. drop 4 (drop 8 xs)) (drop-drop n 2 dst)
    ∙ ap (drop 4) (drop-drop 8 (2 + n) dst)
    ∙ drop-drop 4 (2 + n + 8) dst
    ∙ ap (λ k. drop k dst) total

-- One field after the other, each behind the one before.
encode_range-encoded :
    (dr : DataRange) (dst : List ℕ)
    → RangeFits dr
    → length dr.first_key + data_range_meta_size ≤ length dst
    → encode_range dr dst ≡ (
      encoded dr ++ drop (length dr.first_key + data_range_meta_size) dst,
      length dr.first_key + data_range_meta_size,
    )
unfolding encode_range
encode_range-encoded dr dst f h =
    let n = length dr.first_key in
    let fits : n % 2 ^ 16 ≡ n = omega (arith, f.0) in
    let second : (2 + n) % 2 ^ 16 ≡ 2 + n = omega (arith, f.0) in
    let third : (2 + n + 8) % 2 ^ 16 ≡ 2 + n + 8 = omega (arith, f.0) in
    let lens = put_uint 2 n in
    let key = dr.first_key in
    let d1 = drop 2 dst in
    let d2 = drop n d1 in
    let d3 = drop 8 d2 in
    let s1 : copy_to dst 0 lens ≡ lens ++ d1 = copy_to_at [] dst lens 0 refl (omega arith) in
    let s2 : copy_to (lens ++ d1) 2 key ≡ (lens ++ key) ++ d2 =
      copy_to_at lens d1 key 2 refl (omega (arith, length-drop 2 dst)) in
    let s3 : copy_to ((lens ++ key) ++ d2) (2 + n) (put_uint 8 dr.offset)
        ≡ ((lens ++ key) ++ put_uint 8 dr.offset) ++ d3 =
      copy_to_at (lens ++ key) d2 (put_uint 8 dr.offset) (2 + n)
        (omega (arith, length-append lens key))
        (omega (arith, length-drop 2 dst, length-drop n d1)) in
    let s4 =
      copy_to_at ((lens ++ key) ++ put_uint 8 dr.offset) d3 (put_uint 4 dr.size) (2 + n + 8)
        (omega (arith, length-append lens key, length-append (lens ++ key) (put_uint 8 dr.offset)))
        (omega (arith, length-drop 2 dst, length-drop n d1, length-drop 8 d2)) in
    rw (fits, second, third)
      (rw (s1, s2)
        (rw s3 (
          rw s4 (
            ap₂ (λ (bs : List ℕ) (k : ℕ). (bs, k))
              (ap₂ (λ (bs tail : List ℕ). lens ++ (bs ++ tail))
                (append_assoc key (put_uint 8 dr.offset) (put_uint 4 dr.size)) (drop-fields n dst))
              refl))))

unfoldable pub encode_ranges : List DataRange → List ℕ
encode_ranges [] = []
encode_ranges (dr ∷ ranges) = encoded dr ++ encode_ranges ranges

length-encode_ranges : (ranges : List DataRange) → length (encode_ranges ranges) ≡ full_size ranges
unfolding encode_ranges
length-encode_ranges [] = refl
length-encode_ranges (dr ∷ ranges) = omega (
  arith,
  length-append (encoded dr) (encode_ranges ranges),
  length-encoded dr,
  length-encode_ranges ranges,
)

encode_loop-ranges :
    (ranges : List DataRange) (done rest : List ℕ) (ptr : ℕ)
    → All RangeFits ranges
    → ptr ≡ length done
    → length rest ≡ full_size ranges
    → encode_loop ranges (done ++ rest) ptr ≡ done ++ encode_ranges ranges
unfolding encode_loop encode_ranges
encode_loop-ranges [] done rest ptr f e h =
    let none_left : rest ≡ [] = ground arith in ap (λ xs. done ++ xs) none_left
encode_loop-ranges (dr ∷ ranges) done rest ptr f e h =
    let n = length dr.first_key + data_range_meta_size in
    let one : encode_range dr rest ≡ (encoded dr ++ drop n rest, n) =
      encode_range-encoded dr rest f.0 (omega arith) in
    rw (drop-append ptr done rest (sym e), take-append ptr done rest (sym e))
      (rw one (
        ap (λ xs. encode_loop ranges xs (ptr + n))
          (sym (append_assoc done (encoded dr) (drop n rest)))
        ∙ encode_loop-ranges ranges (done ++ encoded dr) (drop n rest) (ptr + n) f.1
            (omega (arith, length-append done (encoded dr), length-encoded dr))
            (omega (arith, length-drop n rest))
        ∙ append_assoc done (encoded dr) (encode_ranges ranges)))

decode_fields :
    (src : List ℕ) (dr : DataRange)
    → length dr.first_key + data_range_meta_size ≤ length src
    → get_uint 2 src ≡ length dr.first_key
    → take (length dr.first_key) (drop 2 src) ≡ dr.first_key
    → get_uint 8 (drop (2 + length dr.first_key) src) ≡ dr.offset
    → get_uint 4 (drop (2 + length dr.first_key + 8) src) ≡ dr.size
    → decode_range src ≡ ok (dr, length dr.first_key + data_range_meta_size)
unfolding decode_range
decode_fields src dr h a b c d =
    let none_missing : length dr.first_key - length dr.first_key ≡ 0 = omega arith in
    rw (le→ltb (length src) 2 (omega arith), a)
      (rw
        (
          le→ltb (length src) (length dr.first_key + data_range_meta_size) h,
          b,
          c,
          d,
          none_missing,
          append-nil,
        )
        refl)

decode_range-encoded :
    (dr : DataRange) (after : List ℕ)
    → RangeFits dr
    → decode_range (encoded dr ++ after) ≡ ok (dr, length dr.first_key + data_range_meta_size)
decode_range-encoded dr after f =
    let key = dr.first_key in
    let n = length key in
    let src = encoded dr ++ after in
    let o = put_uint 8 dr.offset in
    let z = put_uint 4 dr.size in
    let from_key : drop 2 src ≡ key ++ (o ++ (z ++ after)) =
      append_assoc key (o ++ z) after ∙ ap (λ xs. key ++ xs) (append_assoc o z after) in
    let from_offset : drop (2 + n) src ≡ o ++ (z ++ after) =
      sym (drop-drop n 2 src) ∙ ap (drop n) from_key ∙ drop-append n key (o ++ (z ++ after)) refl in
    let from_size : drop (2 + n + 8) src ≡ z ++ after =
      sym (drop-drop 8 (2 + n) src) ∙ ap (drop 8) from_offset in
    decode_fields src dr (omega (arith, length-append (encoded dr) after, length-encoded dr))
      (get_uint-put_uint 2 n ((key ++ (o ++ z)) ++ after) (omega (arith, f.0)))
      (ap (take n) from_key ∙ take-append n key (o ++ (z ++ after)) refl)
      (ap (get_uint 8) from_offset ∙ get_uint-put_uint 8 dr.offset (z ++ after) f.1)
      (ap (get_uint 4) from_size ∙ get_uint-put_uint 4 dr.size after f.2)

decode_loop-ranges :
    (fuel : ℕ) (ranges : List DataRange) (done : List ℕ) (ptr : ℕ)
    → All RangeFits ranges
    → ptr ≡ length done
    → length ranges < fuel
    → decode_loop fuel (done ++ encode_ranges ranges) ptr ≡ ok ranges
unfolding decode_loop encode_ranges
decode_loop-ranges zero ranges done ptr f e h = absurd (omega arith)
decode_loop-ranges (suc fuel) [] done ptr f e h =
    rw (append-nil, le→ltb ptr (length done) (omega arith)) refl
decode_loop-ranges (suc fuel) (dr ∷ ranges) done ptr f e h =
    let n = length dr.first_key + data_range_meta_size in
    let rest = encode_ranges ranges in
    let same = append_assoc done (encoded dr) rest in
    let later : decode_loop fuel (done ++ (encoded dr ++ rest)) (ptr + n) ≡ ok ranges =
      ap (λ xs. decode_loop fuel xs (ptr + n)) (sym same)
      ∙ decode_loop-ranges fuel ranges (done ++ encoded dr) (ptr + n) f.1
          (omega (arith, length-append done (encoded dr), length-encoded dr)) (omega arith) in
    rw
      (
        lt→ltb ptr (length (done ++ (encoded dr ++ rest))) (
            omega (
              arith,
              length-append done (encoded dr ++ rest),
              length-append (encoded dr) rest,
              length-encoded dr,
            )),
        drop-append ptr done (encoded dr ++ rest) (sym e),
        decode_range-encoded dr rest f.0,
      )
      (rw later refl)

length-ranges : (ranges : List DataRange) → length ranges ≤ full_size ranges
length-ranges [] = omega arith
length-ranges (dr ∷ ranges) = omega (arith, length-ranges ranges)

-- An index whose keys are shorter than 65,526 bytes, and whose offsets and sizes fit 64 and 32 bits,
-- is read back as it was written: every field is written in its place, although the encoder's
-- offsets are 16 bits wide, and the loop that reads it ends at its end without a panic.
pub decode_full_range-encode_full_range :
    (ranges : List DataRange)
    → All RangeFits ranges
    → decode_full_range (encode_full_range ranges) ≡ ok ranges
unfolding decode_full_range encode_full_range
decode_full_range-encode_full_range ranges f =
    rw
      (encode_loop-ranges ranges [] (replicate (full_size ranges) 0) 0 f refl
        (length-replicate (full_size ranges) 0))
      (decode_loop-ranges (suc (length (encode_ranges ranges))) ranges [] 0 f refl
        (omega (arith, length-encode_ranges ranges, length-ranges ranges)))
