-- ===== src/Vlog/Scan.antt =====
-- vlog/vlog.go: scanSegment, and Open over the segments of a directory.
use seol.Base.{
  ℕ, zero, suc, ◌+◌, ◌-◌, ◌*◌, ◌^◌, Bool, true, false, not, none, some, List, [], ◌∷◌, ◌==◌, ltb,
  leb, if◌then◌else◌, length, take, drop,
}
use seol.Base.Result.{Result, ok, err, ◌>>=◌, ◌>>◌, require}
use seol.Base.Result.{eof, invalid_tail, invalid_record_size, missing_active, out_of_fuel}
use seol.Base.Bytes.{get_uint}
use seol.Base.Crc.{update}
use seol.Base.Files.{read_at, insert}
use seol.Record.{record_header_size}
use seol.Vlog.{Log, Outcome, rotate_segment_locked}

-- What follows each ReadAt: an io.EOF ends the scan with an invalid tail, another error fails it.
abbrev pub or_invalid_tail {ℓ} :
    {A : Type ℓ} → ℕ → Result A → (A → Result (ℕ × Bool)) → Result (ℕ × Bool)
or_invalid_tail offset (ok a) k = k a
or_invalid_tail offset (err eof) k = ok (offset, true)
or_invalid_tail offset (err e) k = err e

-- The valid size, and whether something invalid follows it.
unfoldable pub scan_loop : ℕ → List ℕ → ℕ → Result (ℕ × Bool)
scan_loop zero file offset = err out_of_fuel
scan_loop (suc fuel) file offset =
    if not (ltb offset (length file))
    then ok (offset, false)
    else if ltb (length file - offset) record_header_size
    then ok (offset, true)
    else or_invalid_tail offset (read_at file offset record_header_size) λ header.
      let key_len = get_uint 4 (drop 4 header) in
      let value_len = get_uint 4 (drop 8 header) in
      let record_size = record_header_size + key_len + value_len in
      if ltb record_size record_header_size
      then err invalid_record_size
      else if ltb (length file) (offset + record_size)
      then ok (offset, true)
      else or_invalid_tail offset (read_at file (offset + record_header_size) (key_len + value_len))
          λ payload.
            let rest = scan_loop fuel file (offset + record_size) in
            if not (update (update 0 (drop 4 header)) payload == get_uint 4 header)
            then ok (offset, true)
            else rest

-- A round takes a header at least, so one more than the bytes are rounds enough.
unfoldable pub scan_segment : List ℕ → Result (ℕ × Bool)
unfolding scan_loop
scan_segment file = scan_loop (suc (length file)) file 0

-- The loop of `Open` over the segments, sorted by id. `none` is the disk before the first.
unfoldable pub open_segments :
    ℕ → List (ℕ × List ℕ) → List (ℕ × Bool) → List (ℕ × List ℕ) → Result Log
unfolding scan_segment insert
open_segments segment_max_bytes [] files disk = err missing_active
open_segments segment_max_bytes ((id, file) ∷ []) files disk = do
  (valid_size, has_invalid_tail) ← scan_segment file
  let file' = if has_invalid_tail then take valid_size file else file
  ok (record {
    segment_max_bytes = segment_max_bytes;
    active = some (record { id = id; is_open = true; size = valid_size });
    files = insert id true files;
    is_closed = false;
    disk = insert id file' disk;
  })
open_segments segment_max_bytes ((id, file) ∷ next ∷ rest) files disk =
    let more =
      open_segments segment_max_bytes (next ∷ rest) (insert id true files) (insert id file disk) in
    do
      (valid_size, has_invalid_tail) ← scan_segment file
      require (not has_invalid_tail) invalid_tail
      more

abbrev pub default_segment_max_bytes : ℕ
default_segment_max_bytes = 64 * 2 ^ 20

-- The segments of the directory, sorted by id; a limit that is not positive is 0 here.
unfoldable pub open_log : ℕ → Outcome → List (ℕ × List ℕ) → Result Log
unfolding open_segments rotate_segment_locked
open_log max o segments =
    let segment_max_bytes = if leb max 0 then default_segment_max_bytes else max in
    elim segments [
      | [] ↦
          rotate_segment_locked
            (record {
              segment_max_bytes = segment_max_bytes;
              active = none;
              files = [];
              is_closed = false;
              disk = [];
            })
            o 0
      | s ∷ rest ↦ open_segments segment_max_bytes (s ∷ rest) [] []
    ]
