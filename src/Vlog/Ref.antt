-- ===== src/Vlog/Ref.antt =====
-- vlog/vlog.go: ValueRef and its binary form.
use seol.Base.{ℕ, ◌+◌, ◌^◌, ◌<◌, List, ◌++◌, length, drop, ◌==◌}
use seol.Base.Result.{Result, ok, ◌>>◌, require, invalid_data_length}
use seol.Base.Bytes.{put_uint, get_uint}

pub record ValueRef : Type 0 where
  pub segment_id : ℕ
  pub offset : ℕ
  pub value_len : ℕ
  pub checksum : ℕ

abbrev pub encoded_value_ref_size : ℕ
encoded_value_ref_size = 8 + 8 + 4 + 4

unfoldable pub marshal_binary : ValueRef → List ℕ
marshal_binary ref =
    put_uint 8 ref.segment_id
    ++ (put_uint 8 ref.offset ++ (put_uint 4 ref.value_len ++ put_uint 4 ref.checksum))

unfoldable pub unmarshal_binary : List ℕ → Result ValueRef
unmarshal_binary bytes = do
  require (length bytes == encoded_value_ref_size) invalid_data_length
  ok (record {
    segment_id = get_uint 8 bytes;
    offset = get_uint 8 (drop 8 bytes);
    value_len = get_uint 4 (drop 16 bytes);
    checksum = get_uint 4 (drop 20 bytes);
  })

-- The fields hold what their Go types hold.
pub record InRange (ref : ValueRef) : Type 0 where
  pub segment_fits : ref.segment_id < 2 ^ 64
  pub offset_fits : ref.offset < 2 ^ 64
  pub value_len_fits : ref.value_len < 2 ^ 32
  pub checksum_fits : ref.checksum < 2 ^ 32
