-- ===== src/Db/Written.antt =====
-- db.go: processWriteBatch on an open database, over what has been put into its memtables.
use seol.Base.{ℕ, ◌+◌, ◌^◌, ◌<◌, ◌≡◌, none, Option, List, All, length}
use seol.Base.Result.{Result}
use seol.Db.{Db}
use seol.Db.Batches.{Served, lawful_batch-Served}
use seol.Db.Histories.{History, history, history-IsLawful, realized_db}
use seol.Db.Preparing.{IsPlain, batch_size}
use seol.Db.Represents.{Represents}
use seol.Db.Rounds.{Answers}
use seol.Db.Simulation.{process_loop-realized}
use seol.Db.Writing.{Env, process_write_batch}
use seol.Memtable.{Memtable, memtable_arena_size}
use seol.Sstable.Blocks.{Entry}
use seol.Vlog.{Log, Segment}

module _ {M T : Type 0} (mem : Memtable M) (get : T → List ℕ → Result (Option (List ℕ)))
    (empty : (max_bytes : ℕ) (key : List ℕ)
      → mem.get (mem.new (memtable_arena_size max_bytes)) key ≡ none) where
  -- The database has the memtables of the histories of `after`, which serves the batch.
  abbrev pub ServedBy : List Entry → (List ℕ → Option (List ℕ)) → Answers × Db M T → Type 0
  ServedBy batch f result =
      (answers : Answers) × (after : Db (History M) T) × (result ≡ (answers, realized_db mem after))
      × Served (history mem) get (history-IsLawful mem empty) batch f answers after

  -- The write path refines a map from keys to values, over what it puts into the memtables. Whatever
  -- a memtable's `put` does, as long as it returns, and whatever the file system, the syncs and the
  -- rotations of each round do, `processWriteBatch` answers every request exactly once, and what it
  -- does to the memtables is to put entries into them, in order. A Get for which each memtable
  -- answered the last value that was put for the key, and else what the memtable answered as it
  -- began, shows, if it showed the map `f` before, for every key `f` updated by the first `seen`
  -- requests in order; a request that was answered without an error is always among these, a
  -- tombstone makes its key absent, and the memtable that a round fills is read on from the queue of
  -- the flushes. The database is open, the requests fit the record formats, a value below the
  -- threshold has not the form of a reference, the value log has room for them, and Get finds
  -- nothing in a new memtable.
  pub process_write_batch-Served :
      (envs : ℕ → Env) (batch : List Entry) (f : List ℕ → Option (List ℕ)) (db : Db (History M) T)
      (address : ℕ) (l : Log) (seg : Segment)
      → Represents (history mem) get db address l seg f
      → All (IsPlain db.value_threshold) batch
      → seg.size + batch_size batch < 2 ^ 63
      → ServedBy batch f (process_write_batch mem envs batch (realized_db mem db))
  unfolding process_write_batch
  process_write_batch-Served envs batch f db address l seg v plain room =
      let (answers, after) = process_write_batch (history mem) envs batch db in
      (
        answers,
        after,
        process_loop-realized mem (length batch) envs 0 batch db,
        lawful_batch-Served (history mem) get (history-IsLawful mem empty) envs batch f db address l
            seg v plain room,
      )
