-- ===== src/Wal/Replay.antt =====
-- wal.go: replayWAL. The callback is a function that changes a state or fails.
use seol.Base.{
  ℕ, zero, suc, ◌+◌, not, List, [], ◌∷◌, ◌++◌, ltb, ◌==◌, if◌then◌else◌, length, take, drop,
}
use seol.Base.Result.{Result, ok, err, ◌>>=◌, checksum_mismatch, out_of_fuel}
use seol.Base.Bytes.{put_uint, get_uint}
use seol.Base.Crc.{checksum}
use seol.Record.{record_header_size}

module _ {ℓ} {S : Type ℓ} (fn : List ℕ → List ℕ → S → Result S) where
  -- The bytes are what the file still holds: io.ReadFull takes from the front, and a read that the
  -- end of the file cuts short ends the replay without an error. The lengths are never negative.
  unfoldable pub replay_loop : ℕ → List ℕ → S → Result S
  replay_loop zero bytes s = err out_of_fuel
  replay_loop (suc fuel) bytes s =
      let key_len = get_uint 4 (drop 4 bytes) in
      let value_len = get_uint 4 (drop 8 bytes) in
      let behind = drop record_header_size bytes in
      let data_read = take (key_len + value_len) behind in
      let payload = put_uint 4 key_len ++ (put_uint 4 value_len ++ data_read) in
      let next = (do
        s' ← fn (take key_len data_read) (drop key_len data_read) s
        replay_loop fuel (drop (key_len + value_len) behind) s') in
      if ltb (length bytes) record_header_size
      then ok s
      else if ltb (length behind) (key_len + value_len)
      then ok s
      else if not (checksum payload == get_uint 4 bytes)
      then err checksum_mismatch
      else next

  -- A round takes a header at least, so one more than the bytes are rounds enough.
  unfoldable pub replay : List ℕ → S → Result S
  unfolding replay_loop
  replay bytes s = replay_loop (suc (length bytes)) bytes s

  -- The callback on each entry in turn.
  unfoldable pub apply_all : List (List ℕ × List ℕ) → S → Result S
  apply_all [] s = ok s
  apply_all ((key, value) ∷ entries) s = do s' ← fn key value s; apply_all entries s'
