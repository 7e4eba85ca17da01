-- ===== src/Sstable/Index.antt =====
-- sstable/sstable.go: dataRange and tableIndex, their encoding into a buffer and their decoding.
use seol.Base.{ℕ, zero, suc, ◌+◌, ◌-◌, ◌%◌, ◌^◌, not, Option, none, some, List, [], ◌∷◌, ◌++◌}
use seol.Base.{ltb, ◌==◌, if◌then◌else◌, length, take, drop, get_or, replicate}
use seol.Base.Result.{Result, ok, err, ◌>>=◌, ◌>>◌, require, out_of_range, out_of_fuel}
use seol.Base.Bytes.{put_uint, get_uint}
use seol.Base.Search.{search}
use seol.Base.Order.{bytes_lt}

abbrev pub data_range_meta_size : ℕ
data_range_meta_size = 2 + 8 + 4

pub record DataRange : Type 0 where
  pub first_key : List ℕ
  pub offset : ℕ
  pub size : ℕ

-- `copy(dst[pos:], bytes)`
unfoldable pub copy_to : List ℕ → ℕ → List ℕ → List ℕ
copy_to dst pos bytes =
    take pos dst ++ (take (length dst - pos) bytes ++ drop (pos + length bytes) dst)

-- `keyln` is a uint16, and so are the sums with it.
unfoldable pub encode_range : DataRange → List ℕ → List ℕ × ℕ
encode_range dr dst =
    let keyln = length dr.first_key % 2 ^ 16 in
    let with_length = copy_to dst 0 (put_uint 2 keyln) in
    let with_key = copy_to with_length 2 dr.first_key in
    let with_offset = copy_to with_key ((2 + keyln) % 2 ^ 16) (put_uint 8 dr.offset) in
    (
      copy_to with_offset ((2 + keyln + 8) % 2 ^ 16) (put_uint 4 dr.size),
      keyln + data_range_meta_size,
    )

-- The reads panic past the end of `src`; `copy` leaves zeros there.
unfoldable pub decode_range : List ℕ → Result (DataRange × ℕ)
decode_range src = do
  require (not (ltb (length src) 2)) out_of_range
  let klen = get_uint 2 src
  let key = take klen (drop 2 src)
  require (not (ltb (length src) (klen + data_range_meta_size))) out_of_range
  ok (
    record {
      first_key = key ++ replicate (klen - length key) 0;
      offset = get_uint 8 (drop (2 + klen) src);
      size = get_uint 4 (drop (2 + klen + 8) src);
    },
    klen + data_range_meta_size,
  )

abbrev pub full_size : List DataRange → ℕ
full_size [] = 0
full_size (ra ∷ ranges) = length ra.first_key + data_range_meta_size + full_size ranges

-- `ptr += ra.encode(res[ptr:])`, where the slice shares its bytes with `res`.
unfoldable pub encode_loop : List DataRange → List ℕ → ℕ → List ℕ
encode_loop [] res ptr = res
encode_loop (ra ∷ ranges) res ptr =
    let (encoded, n) = encode_range ra (drop ptr res) in
    encode_loop ranges (take ptr res ++ encoded) (ptr + n)

unfoldable pub encode_full_range : List DataRange → List ℕ
unfolding encode_loop
encode_full_range ranges = encode_loop ranges (replicate (full_size ranges) 0) 0

unfoldable pub decode_loop : ℕ → List ℕ → ℕ → Result (List DataRange)
unfolding decode_range
decode_loop zero bytes ptr = err out_of_fuel
decode_loop (suc fuel) bytes ptr =
    let next = (do
      (dr, n) ← decode_range (drop ptr bytes)
      ranges ← decode_loop fuel bytes (ptr + n)
      ok (dr ∷ ranges)) in
    if ltb ptr (length bytes) then next else ok []

-- A round passes the fixed fields at least.
unfoldable pub decode_full_range : List ℕ → Result (List DataRange)
unfolding decode_loop
decode_full_range bytes = decode_loop (suc (length bytes)) bytes 0

abbrev pub no_range : DataRange
no_range = record { first_key = []; offset = 0; size = 0 }

-- The last range whose first key is not above the key.
unfoldable pub find_data_range : List DataRange → List ℕ → Option DataRange
find_data_range ranges key =
    let idx = search (λ i. bytes_lt key (get_or ranges i no_range).first_key) (length ranges) in
    if idx == 0 then none else some (get_or ranges (idx - 1) no_range)
