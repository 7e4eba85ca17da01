-- ===== src/Vlog.antt =====
-- vlog/vlog.go: value references, and the append-only log of segments. Files are lists of bytes on
-- a disk that maps a segment's id to its file; `Outcome` is what the operating system does.
pub mod Ref
pub mod Read
pub mod Scan
pub mod Recovery
pub mod Extends
pub mod Writes
pub mod Promises
pub mod Appends
pub mod Values
pub mod Growth
mod Examples
use seol.Base.{
  ℕ, zero, suc, ◌+◌, ◌-◌, ◌%◌, ◌^◌, min, Bool, true, false, not, ◌&&◌, ◌||◌, Option, none, some,
  List, [], ◌∷◌, ◌++◌,
}
use seol.Base.{ltb, leb, ◌==◌, if◌then◌else◌, length, take, drop}
use seol.Base.Result.{Error, Result, ok, err, ◌>>=◌, ◌>>◌, require}
use seol.Base.Result.{
  closed, missing_active, unknown_segment, record_too_large, short_write, io_error, length_mismatch,
  checksum_mismatch, value_checksum_mismatch, out_of_fuel,
}
use seol.Base.Bytes.{get_uint}
use seol.Base.Crc.{update, checksum}
use seol.Base.Files.{read_at, write_at, lookup, insert}
use seol.Record
use seol.Record.{record_header_size}
use Ref.{ValueRef}

-- `f` is the handle: `is_open` is `f != nil`.
pub record Segment : Type 0 where
  pub id : ℕ
  pub is_open : Bool
  pub size : ℕ

-- `files` has an entry for each handle in the Go map: true, or false where it is nil. The disk is
-- not a field of the Go struct: it is what the handles refer to.
pub record Log : Type 0 where
  pub segment_max_bytes : ℕ
  pub active : Option Segment
  pub files : List (ℕ × Bool)
  pub is_closed : Bool
  pub disk : List (ℕ × List ℕ)

-- One call's environment: the clock, whether Sync and OpenFile succeed, and how many bytes
-- WriteAt writes and whether it succeeds.
pub record Outcome : Type 0 where
  pub now : ℕ
  pub syncs : Bool
  pub creates : Bool
  pub written : ℕ
  pub writes : Bool

-- `now` is the clock's nanoseconds, converted to a uint64.
unfoldable pub next_segment_id : ℕ → ℕ → ℕ
next_segment_id now last_id =
    let id = now % 2 ^ 64 in if leb id last_id then (last_id + 1) % 2 ^ 64 else id

-- The bytes of a segment's file; nothing where there is none.
unfoldable pub file_of : Log → ℕ → List ℕ
file_of l id = elim (lookup id l.disk) [ none ↦ [] | some file ↦ file ]

unfoldable pub is_on_disk : Log → ℕ → Bool
is_on_disk l id = elim (lookup id l.disk) [ none ↦ false | some file ↦ true ]

-- `l.files[id]` is a handle that is not nil.
unfoldable pub has_file : Log → ℕ → Bool
has_file l id = elim (lookup id l.files) [ none ↦ false | some handle ↦ handle ]

-- `l.active != nil && l.active.f != nil`
unfoldable pub active_is_open : Log → Bool
active_is_open l = elim l.active [ none ↦ false | some seg ↦ seg.is_open ]

-- The new, empty segment is the active one.
unfoldable pub start_segment : Log → ℕ → Log
start_segment l id = record l {
  active = some (record { id = id; is_open = true; size = 0 });
  files = insert id true l.files;
  disk = insert id [] l.disk;
}

-- OpenFile with O_EXCL fails on a file that exists.
unfoldable pub rotate_segment_locked : Log → Outcome → ℕ → Result Log
rotate_segment_locked l o last_id = do
  require (not (active_is_open l && not o.syncs)) io_error
  let id = next_segment_id o.now last_id
  require (o.creates && not (is_on_disk l id)) io_error
  ok (start_segment l id)

-- WriteAt at the end of the active segment `seg`, which writes `n` of the bytes, and the new size.
unfoldable pub write_bytes : Log → Segment → List ℕ → ℕ → Log
write_bytes l seg bytes n = record l {
  active = some (record seg { size = (seg.size + n) % 2 ^ 64 });
  disk = insert seg.id (write_at (file_of l seg.id) seg.size (take n bytes)) l.disk;
}

-- From `record := make(…)` on, with `seg` the active segment.
unfoldable pub write_record : Log → Outcome → Segment → List ℕ → List ℕ → Result ValueRef × Log
write_record l o seg key value =
    let bytes = Record.encode key value in
    let n = min o.written (length bytes) in
    let l' = write_bytes l seg bytes n in
    if not o.writes
    then (err io_error, l')
    else if not (n == length bytes)
    then (err short_write, l')
    else (
      ok (record {
        segment_id = seg.id;
        offset = seg.size;
        value_len = length value % 2 ^ 32;
        checksum = checksum value;
      }),
      l',
    )

-- The active segment after the rotation, if there was one.
unfoldable pub write_to_active :
    Log → Outcome → List ℕ → List ℕ → Option Segment → Result ValueRef × Log
write_to_active l o key value none = (err missing_active, l)
write_to_active l o key value (some seg) = write_record l o seg key value

unfoldable pub after_rotation : Log → Outcome → List ℕ → List ℕ → Result Log → Result ValueRef × Log
after_rotation l o key value (err e) = (err e, l)
after_rotation l o key value (ok l') = write_to_active l' o key value l'.active

unfoldable pub append_to : Log → Outcome → List ℕ → List ℕ → Option Segment → Result ValueRef × Log
append_to l o key value none = (err missing_active, l)
append_to l o key value (some seg) =
    let record_size = record_header_size + length key + length value in
    if not seg.is_open
    then (err missing_active, l)
    else if ltb 0 seg.size && ltb l.segment_max_bytes ((seg.size + record_size) % 2 ^ 64)
    then after_rotation l o key value (rotate_segment_locked l o seg.id)
    else write_record l o seg key value

-- `recordSize` is an int that holds the sum, so the first guard never fires.
unfoldable pub append : Log → Outcome → List ℕ → List ℕ → Result ValueRef × Log
append l o key value =
    if ltb (record_header_size + length key + length value) (length key + length value)
    then (err record_too_large, l)
    else if l.is_closed
    then (err closed, l)
    else append_to l o key value l.active

unfoldable pub sync : Log → Outcome → Result (Unit {0})
unfolding active_is_open
sync l o = do
  require (not l.is_closed) closed
  require (active_is_open l) missing_active
  require o.syncs io_error

close_handles : List (ℕ × Bool) → List (ℕ × Bool)
close_handles [] = []
close_handles ((id, handle) ∷ files) = (id, false) ∷ close_handles files

close_active : Option Segment → Option Segment
close_active none = none
close_active (some seg) = some (record seg { is_open = false })

-- Every handle is closed and set to nil, whether its Close reports an error or not.
unfoldable pub close_files : Log → Log
unfolding close_handles close_active
close_files l = record l { files = close_handles l.files; active = close_active l.active }

-- The last argument is the error of `closeFiles`; an error of Sync comes first.
unfoldable pub close : Log → Outcome → Result (Unit {0}) → Result (Unit {0}) × Log
unfolding close_files active_is_open
close l o close_err = if l.is_closed then (ok tt, l) else (
  if active_is_open l && not o.syncs then err io_error else close_err,
  record (close_files l) { is_closed = true },
)
