-- ===== src/Db/Represents.antt =====
-- db.go: the database as a function from keys to values, and what writes to its memtable and the
-- rotation of it make of that function.
use seol.Base.{ℕ, false, ◌≡◌, sym, ap, ◌∙◌, arith}
use seol.Base.{Option, none, some, List, ◌==◌, if◌then◌else◌, inl, inr}
use seol.Base.Result.{Result, Result-cases, ok, ◌>>=◌, >>=-mono}
use seol.Compaction.{read_stored_value}
use seol.Db.{Db, ReadState, snapshot_read_state_locked, db_get}
use seol.Db.Preparing.{Matches, SameLast, last_value-Matches}
use seol.Db.Views.{IsReady, last_value, resolve_found, stored_at, db_get-resolve, stored_at-write}
use seol.Db.Writing.{put_all}
use seol.Memtable.{Memtable, IsLawful}
use seol.Sstable.Blocks.{Entry}
use seol.Stored.{is_tombstone_value, resolve_stored_value}
use seol.Stored.Growth.{resolved_of, resolve_stored_value-Extends}
use seol.Vlog.{Log, Segment}
use seol.Vlog.Extends.{IsOpen, Extends}

-- What a reader sees of a value that was put.
abbrev pub visible : List ℕ → Option (List ℕ)
visible v = if is_tombstone_value v then none else some v

-- The function after the requests of a batch, of which the last with a key counts.
abbrev pub updates : List Entry → (List ℕ → Option (List ℕ)) → List ℕ → Option (List ℕ)
updates batch f key = elim (last_value batch key) [ some v ↦ visible v | none ↦ f key ]

read_stored_value-resolved :
    (l : Log) (stored v : List ℕ)
    → resolve_stored_value (some l) stored ≡ ok (resolved_of v)
    → read_stored_value (some l) stored ≡ ok (visible v)
unfolding read_stored_value
read_stored_value-resolved l stored v e = rw (e, read_stored_value) (ground arith)

pub resolve_found-Extends :
    {l l' : Log} (found r : Option (List ℕ))
    → Extends l l'
    → resolve_found (some l) found ≡ ok r
    → resolve_found (some l') found ≡ ok r
unfolding read_stored_value
resolve_found-Extends none r x e = e
resolve_found-Extends {l} {l'} (some stored) r x e =
    elim (Result-cases (resolve_stored_value (some l) stored)) [
      | inl (found, q) ↦
          rw (resolve_stored_value-Extends stored found x q, read_stored_value)
            (rw (q, read_stored_value) at e)
      | inr (z, q) ↦ absurd (cc (rw (q, read_stored_value) at e))
    ]

pub written_shows :
    (l : Log) (a b : Option (List ℕ)) (r : Result (Option (List ℕ))) (o : Option (List ℕ))
    → SameLast l a b
    → (r >>= resolve_found (some l)) ≡ ok o
    → ((elim a [ some s ↦ ok (some s) | none ↦ r ]) >>= resolve_found (some l))
      ≡ ok (elim b [ some v ↦ visible v | none ↦ o ])
written_shows l none none r o m e = e
written_shows l none (some v) r o m e = absurd m
written_shows l (some s) none r o m e = absurd m
written_shows l (some s) (some v) r o m e = read_stored_value-resolved l s v m

module _ {M T : Type 0} (mem : Memtable M) (get : T → List ℕ → Result (Option (List ℕ))) where
  -- Get answers what the function says, for every key.
  pub record Represents (db : Db M T) (address : ℕ) (l : Log) (seg : Segment)
      (f : List ℕ → Option (List ℕ)) : Type 0 where
    pub ready : IsReady db address
    pub has_log : db.value_log ≡ some l
    pub opened : IsOpen l seg
    pub shows : (key : List ℕ) → db_get mem get db key ≡ ok (f key)

  module _ (laws : IsLawful mem) where
    pub readers_open :
        (db : Db M T) (address : ℕ) → IsReady db address → db.read_state.is_closed ≡ false
    unfolding snapshot_read_state_locked
    readers_open db address ready =
        ap (λ (s : ReadState T). s.is_closed) ready.published ∙ ready.open_db

    -- Where the readers are open, Get is what the stored form resolves to.
    pub show :
        (db : Db M T) (key : List ℕ) (l : Log) (r : Option (List ℕ))
        → db.read_state.is_closed ≡ false
        → db.value_log ≡ some l
        → (stored_at mem get db key >>= resolve_found (some l)) ≡ ok r
        → db_get mem get db key ≡ ok r
    show db key l r is_open log e = db_get-resolve mem get db key ∙ rw (is_open, log) e

    pub shown :
        (db : Db M T) (address : ℕ) (l : Log) (seg : Segment) (f : List ℕ → Option (List ℕ))
        (v : Represents db address l seg f) (key : List ℕ)
        → (stored_at mem get db key >>= resolve_found (some l)) ≡ ok (f key)
    shown db address l seg f v key =
        rw (readers_open db address v.ready, v.has_log) at
          (sym (db_get-resolve mem get db key) ∙ v.shows key)

    -- A database after writes to its memtable and to the value log.
    pub write-Represents :
        (db after : Db M T) (address : ℕ) (l : Log) (seg : Segment) (f : List ℕ → Option (List ℕ))
        (v : Represents db address l seg f) (stored batch : List Entry)
        → IsReady after address
        → after.read_state ≡ db.read_state
        → after.heap
          ≡ (λ a. if address == a then put_all mem stored (db.heap address) else db.heap a)
        → after.value_log ≡ some l
        → Matches l stored batch
        → Represents after address l seg (updates batch f)
    write-Represents db after address l seg f v stored batch ready same written log m = record {
      ready = ready;
      has_log = log;
      opened = v.opened;
      shows = λ key. show after key l (updates batch f key) (readers_open after address ready) log (
          ap (λ r. r >>= resolve_found (some l))
            (stored_at-write mem get laws db after address stored key v.ready same written)
          ∙ written_shows l (last_value stored key) (last_value batch key)
              (stored_at mem get db key) (f key) (last_value-Matches l stored batch key m)
              (shown db address l seg f v key));
    }

    -- A database whose value log has grown, and that readers see as they saw it.
    pub log-Represents :
        (db after : Db M T) (address : ℕ) (l l' : Log) (seg seg' : Segment)
        (f : List ℕ → Option (List ℕ)) (v : Represents db address l seg f)
        → IsReady after address
        → after.read_state ≡ db.read_state
        → after.heap ≡ db.heap
        → after.value_log ≡ some l'
        → Extends l l'
        → IsOpen l' seg'
        → Represents after address l' seg' f
    log-Represents db after address l l' seg seg' f v ready same heap log x opened = record {
      ready = ready;
      has_log = log;
      opened = opened;
      shows = λ key. show after key l' (f key) (readers_open after address ready) log (
          >>=-mono (stored_at mem get after key) (resolve_found (some l)) (resolve_found (some l'))
            (f key) (λ found. resolve_found-Extends found (f key) x)
            (rw (same, heap) (shown db address l seg f v key)));
    }
