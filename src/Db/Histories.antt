-- ===== src/Db/Histories.antt =====
-- db.go: databases over histories: each memtable is the one it began as, with the entries that were
-- put into it since.
use mathlib.Core.Path.{fun_ext}
use seol.Base.{ℕ, ◌≡◌, refl, sym, ap, ◌∙◌, arith}
use seol.Base.{
  Option, none, some, List, [], ◌∷◌, ◌++◌, ◌==◌, if◌then◌else◌, Bool-cases, inl, inr, or_option,
}
use seol.Base.Order.{bytes_equal}
use seol.Base.Result.{Error}
use seol.Db.{Db, store_at, set_flush_err_if_nil}
use seol.Db.Views.{last_value}
use seol.Db.Writing.{Round, put_all}
use seol.Memtable.{Memtable, IsLawful, memtable_arena_size}
use seol.Sstable.Blocks.{Entry}

-- A memtable as it began, and the entries put into it since, in order.
abbrev pub History : Type 0 → Type 0
History M = M × List Entry

last_value-snoc :
    (es : List Entry) (e : Entry) (key : List ℕ)
    → last_value (es ++ e ∷ []) key ≡ (if bytes_equal e.0 key then some e.1 else last_value es key)
unfolding last_value
last_value-snoc [] e key = ground arith
last_value-snoc (x ∷ es) e key = ground (arith, last_value-snoc es e key)

module _ {M : Type 0} (mem : Memtable M) where
  -- A history answers the last value put, and else what the memtable answered as it began.
  abbrev pub history : Memtable (History M)
  history = record {
    new = λ size. (mem.new size, []);
    put = λ h key value. (h.0, h.1 ++ (key, value) ∷ []);
    get = λ h key. or_option (last_value h.1 key) (mem.get h.0 key);
    entries = λ h. mem.entries h.0 ++ h.1;
  }

  pub history-IsLawful :
      ((max_bytes : ℕ) (key : List ℕ)
        → mem.get (mem.new (memtable_arena_size max_bytes)) key ≡ none)
      → IsLawful history
  unfolding last_value
  history-IsLawful empty = record {
    get-new = λ max_bytes key. rw (empty max_bytes key) refl;
    get-put = λ h key value other. ground (arith, last_value-snoc h.1 (key, value) other);
  }

  -- The memtable of a history.
  abbrev pub realized : History M → M
  realized h = put_all mem h.1 h.0

  put_all-snoc :
      (es : List Entry) (e : Entry) (m : M)
      → put_all mem (es ++ e ∷ []) m ≡ mem.put (put_all mem es m) e.0 e.1
  unfolding put_all
  put_all-snoc [] e m = refl
  put_all-snoc (x ∷ es) e m = put_all-snoc es e (mem.put m x.0 x.1)

  pub put_all-realized :
      (es : List Entry) (h : History M)
      → put_all mem es (realized h) ≡ realized (put_all history es h)
  unfolding put_all
  put_all-realized [] h = refl
  put_all-realized (e ∷ es) h =
      ap (put_all mem es) (sym (put_all-snoc h.1 e h.0))
      ∙ put_all-realized es (h.0, h.1 ++ (e.0, e.1) ∷ [])

  pub heap_at :
      (heap : ℕ → History M) (address : ℕ) (h : History M)
      → Path
          (ℕ → M)
          (λ a. if address == a then realized h else realized (heap a))
          (λ a. realized (if address == a then h else heap a))
  heap_at heap address h =
      fun_ext λ a. elim (Bool-cases (address == a)) [
        | inl same ↦ rw same refl
        | inr other ↦ rw other refl
      ]

  module _ {T : Type 0} where
    -- The database whose memtables are those of the histories.
    abbrev pub realized_db : Db (History M) T → Db M T
    realized_db db = record {
      memtable_max_bytes = db.memtable_max_bytes;
      wal_sync_interval = db.wal_sync_interval;
      value_threshold = db.value_threshold;
      async_writes = db.async_writes;
      write_batch_window = db.write_batch_window;
      memtable = db.memtable;
      memtable_bytes = db.memtable_bytes;
      active_wal = db.active_wal;
      current_wal_paths = db.current_wal_paths;
      immutable = db.immutable;
      sstables = db.sstables;
      levels = db.levels;
      table_meta = db.table_meta;
      manifest = db.manifest;
      value_log = db.value_log;
      flush_ch = db.flush_ch;
      wal_files = db.wal_files;
      read_state = db.read_state;
      flush_err = db.flush_err;
      is_closed = db.is_closed;
      heap = λ a. realized (db.heap a);
      allocated = db.allocated;
    }

    abbrev pub realized_round : Round (History M) T → Round M T
    realized_round r = record { answers = r.answers; rest = r.rest; db = realized_db r.db }

    pub store_at-realized :
        (address : ℕ) (h : History M) (db : Db (History M) T)
        → store_at address (realized h) (realized_db db) ≡ realized_db (store_at address h db)
    unfolding store_at
    store_at-realized address h db =
        ap (λ (heap : ℕ → M). record (realized_db db) { heap = heap }) (heap_at db.heap address h)

    pub set_flush_err-realized :
        (e : Error) (db : Db (History M) T)
        → Path
            (Error × Db M T)
            (set_flush_err_if_nil e (realized_db db))
            ((set_flush_err_if_nil e db).0, realized_db (set_flush_err_if_nil e db).1)
    unfolding set_flush_err_if_nil
    set_flush_err-realized e db =
        elim db.flush_err
          as (λ (o : Option Error).
            Path (Error × Db M T)
              (set_flush_err_if_nil e (record (realized_db db) { flush_err = o }))
              (
                (set_flush_err_if_nil e (record db { flush_err = o })).0,
                realized_db (set_flush_err_if_nil e (record db { flush_err = o })).1,
              )) [ none ↦ refl | some x ↦ refl ]
