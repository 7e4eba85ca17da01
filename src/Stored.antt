-- ===== src/Stored.antt =====
-- value_ref.go: how a value stands in the memtable and the tables. A short value stands for itself,
-- a long one is a reference into the value log, and a deleted one is the tombstone.
pub mod RoundTrip
pub mod Growth
mod Examples
use seol.Base.{
  ℕ, ◌+◌, ◌-◌, ◌^◌, Bool, true, false, not, ◌&&◌, Option, none, some, List, [], ◌∷◌, ◌++◌,
}
use seol.Base.{ltb, leb, ◌==◌, if◌then◌else◌, length, take, drop}
use seol.Base.Result.{Result, ok, err, ◌>>=◌, ◌>>◌, value_log_nil}
use seol.Base.Bytes.{put_uint, get_uint}
use seol.Base.Order.{bytes_equal}
use seol.Vlog.{Log, Outcome, append}
use seol.Vlog.Ref.{ValueRef, encoded_value_ref_size}
use seol.Vlog.Read.{read_value}

abbrev pub value_ref_prefix : List ℕ
value_ref_prefix = 0x00 ∷ b's' ∷ b'e' ∷ b'o' ∷ b'l' ∷ b'v' ∷ b'r' ∷ 0x01 ∷ []

abbrev pub tombstone_value : List ℕ
tombstone_value = 0x00 ∷ b's' ∷ b'e' ∷ b'o' ∷ b'l' ∷ b't' ∷ b'o' ∷ b'm' ∷ b'b' ∷ 0x01 ∷ []

abbrev pub compact_encoded_value_ref_size : ℕ
compact_encoded_value_ref_size = 8 + 4 + 4 + 4

abbrev pub max_compact_value_ref_offset : ℕ
max_compact_value_ref_offset = 2 ^ 32 - 1

unfoldable pub encode_value_ref : ValueRef → List ℕ
encode_value_ref ref =
    if leb ref.offset max_compact_value_ref_offset
    then value_ref_prefix
      ++ (put_uint 8 ref.segment_id
          ++ (put_uint 4 ref.offset ++ (put_uint 4 ref.value_len ++ put_uint 4 ref.checksum)))
    else value_ref_prefix
      ++ (put_uint 8 ref.segment_id
          ++ (put_uint 8 ref.offset ++ (put_uint 4 ref.value_len ++ put_uint 4 ref.checksum)))

-- The payload behind the prefix, by its length. The error of the Go function is always nil.
unfoldable pub decode_payload : List ℕ → Option ValueRef
decode_payload payload =
    if length payload == compact_encoded_value_ref_size
    then some (record {
      segment_id = get_uint 8 payload;
      offset = get_uint 4 (drop 8 payload);
      value_len = get_uint 4 (drop 12 payload);
      checksum = get_uint 4 (drop 16 payload);
    })
    else if length payload == encoded_value_ref_size
    then some (record {
      segment_id = get_uint 8 payload;
      offset = get_uint 8 (drop 8 payload);
      value_len = get_uint 4 (drop 16 payload);
      checksum = get_uint 4 (drop 20 payload);
    })
    else none

unfoldable pub decode_value_ref : List ℕ → Option ValueRef
decode_value_ref bytes =
    if not (length bytes == length value_ref_prefix + compact_encoded_value_ref_size)
      && not (length bytes == length value_ref_prefix + encoded_value_ref_size)
    then none
    else if not (bytes_equal (take (length value_ref_prefix) bytes) value_ref_prefix)
    then none
    else decode_payload (drop (length value_ref_prefix) bytes)

-- An int64.
abbrev pub memtable_entry_size : List ℕ → List ℕ → ℕ
memtable_entry_size key value = length key + length value

unfoldable pub is_tombstone_value : List ℕ → Bool
is_tombstone_value bytes = bytes_equal bytes tombstone_value

wrap_append : Result ValueRef × Log → Result (List ℕ) × Option Log
wrap_append (ok ref, l) = (ok (encode_value_ref ref), some l)
wrap_append (err e, l) = (err e, some l)

append_value : Option Log → Outcome → List ℕ → List ℕ → Result (List ℕ) × Option Log
unfolding wrap_append
append_value none o key value = (err value_log_nil, none)
append_value (some l) o key value = wrap_append (append l o key value)

-- `none` is a nil log. A threshold is positive.
unfoldable pub store_value_for_lsm :
    Option Log → Outcome → ℕ → List ℕ → List ℕ → Result (List ℕ) × Option Log
unfolding append_value
store_value_for_lsm log o threshold key value =
    if is_tombstone_value value
    then (ok tombstone_value, log)
    else if leb (length value) threshold
    then (ok value, log)
    else append_value log o key value

-- A value, or that it is deleted.
pub data Resolved : Type 0 where
  value : List ℕ → Resolved
  deleted : Resolved

read_from : Option Log → ValueRef → Result Resolved
read_from none ref = err value_log_nil
read_from (some l) ref = do v ← read_value l ref; ok (value v)

resolve_ref : Option Log → List ℕ → Option ValueRef → Result Resolved
unfolding read_from
resolve_ref log stored none = ok (value stored)
resolve_ref log stored (some ref) = read_from log ref

unfoldable pub resolve_stored_value : Option Log → List ℕ → Result Resolved
unfolding resolve_ref
resolve_stored_value log stored =
    if is_tombstone_value stored
    then ok deleted
    else resolve_ref log stored (decode_value_ref stored)
