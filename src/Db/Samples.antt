-- ===== src/Db/Samples.antt =====
-- db.go: a database with three memtables, two puts, and an environment in which all goes well.
use seol.Base.{
  ℕ, ◌<◌, ◌^◌, true, false, ◌≡◌, refl, arith, Option, none, some, List, [], ◌∷◌, All, length,
  if◌then◌else◌, ◌==◌,
}
use seol.Base.Result.{Result, ok}
use seol.Base.Files.{lookup}
use seol.Compaction.{TableMeta, lookup_tables}
use seol.Db.{
  Db, ImmutableMemtable, snapshot_read_state_locked, search_memtable, search_immutable, db_get,
}
use seol.Db.Histories.{History, history}
use seol.Db.Preparing.{IsPlain}
use seol.Db.Represents.{Represents}
use seol.Db.Views.{last_value}
use seol.Db.Writing.{Env}
use seol.Manifest.{ManifestStore}
use seol.Memtable.{Memtable, memtable_arena_size}
use seol.Memtable.SortedList.{SortedEntries}
use seol.Record.{Fits}
use seol.Skiplist.{Skiplist, skiplist_get, new_skiplist, skiplist_memtable, get-new_skiplist}
use seol.Sstable.Blocks.{Entry}
use seol.Sstable.BlockLookup.{find}
use seol.Stored.{decode_value_ref}
use seol.Vlog
use seol.Vlog.{Log, Segment, has_file, file_of, sync, active_is_open}
use seol.Vlog.Extends.{IsOpen}
use seol.Wal
use seol.Wal.Crashes.{create_wal}

abbrev pub first_segment : Segment
first_segment = record { id = 5; is_open = true; size = 0 }

abbrev pub empty_log : Log
empty_log = record {
  segment_max_bytes = 20;
  active = some first_segment;
  files = (5, true) ∷ [];
  is_closed = false;
  disk = (5, []) ∷ [];
}

pub empty_log-IsOpen : IsOpen empty_log first_segment
unfolding has_file file_of lookup
empty_log-IsOpen = record {
  open_log = refl;
  is_active = refl;
  open_segment = refl;
  handle = refl;
  size = refl;
  small = omega arith;
  id_fits = omega arith;
}

abbrev pub Table : Type 0
Table = TableMeta × List Entry

abbrev pub get : Table → List ℕ → Result (Option (List ℕ))
get t key = ok (find t.1 key)

abbrev pub meta_of : Table → TableMeta
meta_of t = t.0

abbrev pub new_meta : TableMeta
new_meta = record {
  filename = 2 ∷ [];
  level = 0;
  smallest = 1 ∷ [];
  largest = 1 ∷ [];
  size_bytes = 40;
  created_at = 2;
}

abbrev pub flush_fn : SortedEntries → Result Table
flush_fn m = ok (new_meta, m.0)

abbrev pub one_entry : List ℕ → SortedEntries
one_entry value = (((1 ∷ []), value) ∷ [], (tt, tt))

abbrev pub older : ImmutableMemtable
older = record { table = 0; wal_paths = (1 ∷ []) ∷ [] }

abbrev pub newer : ImmutableMemtable
newer = record { table = 1; wal_paths = (2 ∷ []) ∷ [] }

abbrev pub store : ManifestStore
store = record { state = record { version = 1; tables = [] }; file = none }

-- Address 0 has the first value of a key, 1 the second, and the others are empty.
abbrev pub heap : ℕ → SortedEntries
heap a = if a == 0 then one_entry (7 ∷ []) else if a == 1 then one_entry (8 ∷ []) else ([], tt)

abbrev pub db_over : {M T : Type 0} → (ℕ → M) → List ImmutableMemtable → Db M T
db_over heap imms = record {
  memtable_max_bytes = 4;
  wal_sync_interval = 0;
  value_threshold = 64;
  async_writes = false;
  write_batch_window = 0;
  memtable = some 2;
  memtable_bytes = 0;
  active_wal = some (create_wal false);
  current_wal_paths = (3 ∷ []) ∷ [];
  immutable = imms;
  sstables = [];
  levels = [];
  table_meta = [];
  manifest = store;
  value_log = some empty_log;
  flush_ch = imms;
  wal_files = (1 ∷ []) ∷ (2 ∷ []) ∷ (3 ∷ []) ∷ [];
  read_state = record {
    is_closed = false;
    memtable = some 2;
    immutable = imms;
    sstables = [];
    levels = [];
  };
  flush_err = none;
  is_closed = false;
  heap = heap;
  allocated = 3;
}

abbrev pub db_with : List ImmutableMemtable → Db SortedEntries Table
db_with imms = db_over heap imms

-- The memtables are skiplists.
abbrev pub lists : Memtable Skiplist
lists = skiplist_memtable (λ i. 0)

pub lists_empty :
    (max_bytes : ℕ) (key : List ℕ)
    → lists.get (lists.new (memtable_arena_size max_bytes)) key ≡ none
lists_empty max_bytes key = get-new_skiplist (λ i. 0) (memtable_arena_size max_bytes) key

abbrev pub empty_db : Db (History Skiplist) Table
empty_db = db_over (λ a. (lists.new 4096, [])) []

pub empty_db-Represents :
    Represents (history lists) get empty_db 2 empty_log first_segment (λ key. none)
unfolding db_get search_memtable search_immutable snapshot_read_state_locked find lookup_tables
    last_value skiplist_get new_skiplist
empty_db-Represents = record {
  ready = record { published = refl; open_db = refl; current = refl; given_out = refl; older = tt };
  has_log = refl;
  opened = empty_log-IsOpen;
  shows = λ key. refl;
}

abbrev pub good_day : Vlog.Outcome
good_day = record { now = 9; syncs = true; creates = true; written = 100; writes = true }

abbrev pub written : Wal.Outcome
written = record { written = 100; kept = 0; writes = true; syncs = true }

abbrev pub env : Env
env = record {
  value_log = λ i. good_day;
  wal = written;
  rounds = [];
  creates_wal = true;
  wal_path = 4 ∷ [];
  last_flush = written;
  closes_wal = true;
}

abbrev pub two_puts : List Entry
two_puts = ((1 ∷ []), (7 ∷ 8 ∷ [])) ∷ ((1 ∷ []), (9 ∷ [])) ∷ []

pub one_byte-Fits : (v : List ℕ) → All (λ b. b < 256) v → length v < 2 ^ 32 → Fits (1 ∷ []) v
one_byte-Fits v h k = record {
  key_bytes = (omega arith, tt);
  value_bytes = h;
  key_length = omega arith;
  value_length = k;
}

pub two_puts-IsPlain : All (IsPlain 64) two_puts
unfolding decode_value_ref
two_puts-IsPlain = (
  record {
    fits = one_byte-Fits (7 ∷ 8 ∷ []) (omega arith, (omega arith, tt)) (omega arith);
    plain = λ h. refl;
  },
  (record { fits = one_byte-Fits (9 ∷ []) (omega arith, tt) (omega arith); plain = λ h. refl }, tt),
)
