-- ===== src/Vlog/Read.antt =====
-- vlog/vlog.go: Read, ReadValue and ReadRecord.
use seol.Base.{ℕ, zero, suc, ◌+◌, ◌-◌, not, List, ◌==◌, ltb, if◌then◌else◌, take, drop}
use seol.Base.Result.{Result, ok, err, ◌>>=◌, ◌>>◌, require}
use seol.Base.Result.{
  closed, unknown_segment, length_mismatch, checksum_mismatch, value_checksum_mismatch, out_of_fuel,
}
use seol.Base.Bytes.{get_uint}
use seol.Base.Crc.{update, checksum}
use seol.Base.Files.{read_at}
use seol.Record.{record_header_size}
use seol.Vlog.Ref.{ValueRef}
use seol.Vlog.{Log, file_of, has_file}

pub record Record : Type 0 where
  pub key : List ℕ
  pub value : List ℕ

-- The loop that runs the key through the checksum, at most 256 bytes at a time. It gives the
-- checksum and the offset behind the key; each round takes a byte at least.
unfoldable pub read_key : ℕ → ℕ → List ℕ → ℕ → ℕ → Result (ℕ × ℕ)
read_key fuel zero file offset crc = ok (crc, offset)
read_key zero (suc r) file offset crc = err out_of_fuel
read_key (suc fuel) (suc r) file offset crc =
    let chunk = if ltb (suc r) 256 then suc r else 256 in
    do
      scratch ← read_at file offset chunk
      read_key fuel (suc r - chunk) file (offset + chunk) (update crc scratch)

-- ReadValue from `keyLen := …` on, with the file and the header read.
unfoldable pub value_behind : List ℕ → ValueRef → List ℕ → Result (List ℕ)
value_behind file ref header = do
  let key_len = get_uint 4 (drop 4 header)
  let value_len = get_uint 4 (drop 8 header)
  require (value_len == ref.value_len) length_mismatch
  (crc, offset) ←
      read_key key_len key_len file (ref.offset + record_header_size) (update 0 (drop 4 header))
  value ← read_at file offset value_len
  require (update crc value == get_uint 4 header) checksum_mismatch
  require (checksum value == ref.checksum) value_checksum_mismatch
  ok value

unfoldable pub read_value : Log → ValueRef → Result (List ℕ)
read_value l ref = do
  require (not l.is_closed) closed
  require (has_file l ref.segment_id) unknown_segment
  let file = file_of l ref.segment_id
  header ← read_at file ref.offset record_header_size
  value_behind file ref header

-- ReadRecord from `keyLen := …` on.
unfoldable pub record_behind : List ℕ → ValueRef → List ℕ → Result Record
record_behind file ref header = do
  let key_len = get_uint 4 (drop 4 header)
  let value_len = get_uint 4 (drop 8 header)
  require (value_len == ref.value_len) length_mismatch
  payload ← read_at file (ref.offset + record_header_size) (key_len + value_len)
  require (update (update 0 (drop 4 header)) payload == get_uint 4 header) checksum_mismatch
  require (checksum (drop key_len payload) == ref.checksum) value_checksum_mismatch
  ok (record { key = take key_len payload; value = drop key_len payload })

unfoldable pub read_record : Log → ValueRef → Result Record
read_record l ref = do
  require (not l.is_closed) closed
  require (has_file l ref.segment_id) unknown_segment
  let file = file_of l ref.segment_id
  header ← read_at file ref.offset record_header_size
  record_behind file ref header
