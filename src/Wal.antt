-- ===== src/Wal.antt =====
-- wal.go: the write-ahead log. Its file is a list of bytes, of which the first `synced` survive a
-- crash; `buffered` stands in the bufio.Writer. `Outcome` is what the operating system does.
pub mod Replay
pub mod Recovery
pub mod Durable
pub mod Writes
pub mod Batches
pub mod Crashes
pub mod Grows
pub mod Survival
mod Examples
use seol.Base.{
  ℕ, zero, suc, ◌+◌, ◌-◌, ◌*◌, ◌%◌, ◌^◌, Bool, true, false, not, ◌&&◌, ◌||◌, Option, none, some,
  List, [], ◌∷◌, ◌++◌,
}
use seol.Base.{ltb, leb, ◌==◌, if◌then◌else◌, length, take, drop}
use seol.Base.Result.{Error, Result, ok, err, closed, io_error, not_durable}
use seol.Record.{encode_all}

-- `is_buffered` is `syncInterval > 0`, and `has_file` is `f != nil`. `bw_failed` is the error that
-- the bufio.Writer keeps: once set it refuses every Write and Flush.
pub record Wal : Type 0 where
  pub file : List ℕ
  pub synced : ℕ
  pub buffered : List ℕ
  pub bw_failed : Bool
  pub is_buffered : Bool
  pub pending : ℕ
  pub durable : ℕ
  pub sync_count : ℕ
  pub sync_err : Option Error
  pub is_closed : Bool
  pub has_file : Bool

-- How many of the bytes at hand reach the file, how many of the rest stay in the buffer, and
-- whether the write and the Sync succeed.
pub record Outcome : Type 0 where
  pub written : ℕ
  pub kept : ℕ
  pub writes : Bool
  pub syncs : Bool

unfoldable pub is_some : Option Error → Bool
is_some none = false
is_some (some e) = true

-- file.Sync, and `syncCount++`
unfoldable pub sync_file : Wal → Outcome → Result (Unit {0}) × Wal
sync_file w o =
    if o.syncs
    then (ok tt, record w { synced = length w.file; sync_count = (w.sync_count + 1) % 2 ^ 64 })
    else (err io_error, w)

unfoldable pub is_empty : List ℕ → Bool
is_empty [] = true
is_empty (b ∷ bs) = false

unfoldable pub flush_and_sync_locked : Wal → Outcome → Result (Unit {0}) × Wal
flush_and_sync_locked w o =
    if is_empty w.buffered
    then sync_file w o
    else if w.bw_failed
    then (err io_error, w)
    else if o.writes
    then sync_file (record w { file = w.file ++ w.buffered; buffered = [] }) o
    else (
      err io_error,
      record w {
        file = w.file ++ take o.written w.buffered;
        buffered = drop o.written w.buffered;
        bw_failed = true;
      },
    )

-- writeAll, which repeats Write until all is written or one fails, and Sync.
unfoldable pub write_and_sync_record_locked : Wal → Outcome → List ℕ → Result (Unit {0}) × Wal
write_and_sync_record_locked w o records =
    if o.writes
    then sync_file (record w { file = w.file ++ records }) o
    else (err io_error, record w { file = w.file ++ take o.written records })

-- bufio.Writer.Write: the buffer spills what does not fit it.
unfoldable pub bw_write : Wal → Outcome → List ℕ → Result (Unit {0}) × Wal
bw_write w o records =
    let bytes = w.buffered ++ records in
    if w.bw_failed
    then (err io_error, w)
    else if o.writes
    then (
      ok tt,
      record w { file = w.file ++ take o.written bytes; buffered = drop o.written bytes },
    )
    else (
      err io_error,
      record w {
        file = w.file ++ take o.written bytes;
        buffered = take o.kept (drop o.written bytes);
        bw_failed = true;
      },
    )

unfoldable pub set_sync_err : Result (Unit {0}) × Wal → Result (Unit {0}) × Wal
set_sync_err (ok u, w) = (ok u, record w { durable = w.pending })
set_sync_err (err e, w) = (err e, record w { sync_err = some e })

-- `appendBatch` up to the wait for the sync loop, with the mutex held. The encoded records are
-- those of the loop over `entries`.
unfoldable pub append_batch : Wal → Outcome → List (List ℕ × List ℕ) → Result (Unit {0}) × Wal
append_batch w o entries =
    if length entries == 0
    then (ok tt, w)
    else if w.is_closed
    then (err closed, w)
    else elim w.sync_err [
      | some e ↦ (err e, w)
      | none ↦
          let w' = record w { pending = (w.pending + length entries) % 2 ^ 64 } in
          if not w.is_buffered
          then set_sync_err (write_and_sync_record_locked w' o (encode_all entries))
          else bw_write w' o (encode_all entries)
    ]

-- The condition of the wait, and what follows it.
unfoldable pub must_wait : Wal → ℕ → Bool
must_wait w target = ltb w.durable target && not (is_some w.sync_err) && not w.is_closed

unfoldable pub after_wait : Wal → ℕ → Result (Unit {0})
after_wait w target = elim w.sync_err [
  | some e ↦ err e
  | none ↦ if ltb w.durable target then err not_durable else ok tt
]

-- The body of `case <-timerCh` and of `case <-w.closeCh` of syncLoop, with the mutex held; true
-- is `shouldExit`.
unfoldable pub sync_round : Wal → Outcome → Bool × Wal
sync_round w o =
    if ltb w.durable w.pending && not (is_some w.sync_err)
    then (w.is_closed, (set_sync_err (flush_and_sync_locked w o)).1)
    else (w.is_closed, w)

-- What `close` does with the mutex held. In the branch without a sync loop `durable` is set even
-- where the flush fails; with one, `closed` is set, and the loop's last round and `f = nil` follow.
unfoldable pub close_locked : Wal → Outcome → Wal
close_locked w o =
    if not w.has_file
    then w
    else if not w.is_buffered
    then (let w' =
          if ltb w.durable w.pending && not (is_some w.sync_err)
          then (let (result, w'') = flush_and_sync_locked w o in
              elim result [
                | ok u ↦ record w'' { durable = w''.pending }
                | err e ↦ record w'' { sync_err = some e; durable = w''.pending }
              ])
          else w in
        record w' { is_closed = true; has_file = false })
    else record w { is_closed = true }
