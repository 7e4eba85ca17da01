-- ===== src/Db/Rounds.antt =====
-- db.go: a round of processWriteBatch, on every branch.
use seol.Base.{ℕ, zero, suc, ◌+◌, ◌^◌, ◌≤◌, ◌<◌, ◌≡◌, refl, arith}
use seol.Base.{
  Option, none, some, List, [], ◌++◌, length, take, drop, replicate, get_elem?, length-append,
  length-replicate, length-drop, inl, inr, ◌⊎◌,
}
use seol.Base.Result.{Error, Result, ok, err}
use seol.Db.{Db}
use seol.Db.Preparing.{batch_size}
use seol.Db.Represents.{Represents, updates}
use seol.Db.Views.{last_value}
use seol.Db.Writing.{fail_write_requests, finish_round}
use seol.Memtable.{Memtable, IsLawful}
use seol.Sstable.Blocks.{Entry}
use seol.Vlog.{Log, Segment}

abbrev pub Answers : Type 0
Answers = List (Result (Unit {0}))

abbrev pub successes : ℕ → Answers
successes n = replicate n (ok tt)

abbrev pub failures : ℕ → Error → Answers
failures n e = replicate n (err e)

-- The loop ends and has answered every request, or a round has answered its requests, at least one,
-- and leaves the others.
abbrev pub Proceeds : List Entry → ℕ → Answers → List Entry → Type 0
Proceeds batch seen answers rest =
    ((rest ≡ []) × (length answers ≡ length batch))
    ⊎ ((rest ≡ drop seen batch) × (length answers ≡ seen) × (0 < seen) × (seen ≤ length batch))

module _ {M T : Type 0} (mem : Memtable M) (get : T → List ℕ → Result (Option (List ℕ)))
    (laws : IsLawful mem) where
  -- The database shows the first `seen` requests of the batch, and what was acknowledged is among
  -- them; the value log has room for the rest.
  pub record Serves (batch : List Entry) (f : List ℕ → Option (List ℕ)) (threshold : ℕ)
      (answers : Answers) (rest : List Entry) (db : Db M T) : Type 0 where
    pub seen : ℕ
    pub address : ℕ
    pub log : Log
    pub segment : Segment
    pub represents : Represents mem get db address log segment (updates (take seen batch) f)
    pub acknowledged : (i : ℕ) → get_elem? answers i ≡ some (ok tt) → i < seen
    pub proceeds : Proceeds batch seen answers rest
    pub room : segment.size + batch_size rest < 2 ^ 63
    pub threshold_kept : db.value_threshold ≡ threshold

  pub no_success : (n i : ℕ) (e : Error) → get_elem? (failures n e) i ≡ some (ok tt) → ⊥
  no_success zero i e q = cc q
  no_success (suc n) zero e q = cc q
  no_success (suc n) (suc i) e q = no_success n i e q

  pub acknowledged_prefix :
      (n m i : ℕ) (e : Error) → get_elem? (successes n ++ failures m e) i ≡ some (ok tt) → i < n
  acknowledged_prefix zero m i e q = absurd (no_success m i e q)
  acknowledged_prefix (suc n) m zero e q = omega arith
  acknowledged_prefix (suc n) m (suc i) e q = omega (arith, acknowledged_prefix n m i e q)

  acknowledged_all : (n i : ℕ) → get_elem? (successes n) i ≡ some (ok tt) → i < n
  acknowledged_all zero i q = absurd (cc q)
  acknowledged_all (suc n) zero q = omega arith
  acknowledged_all (suc n) (suc i) q = omega (arith, acknowledged_all n i q)

  -- A round that fails all its requests, in a database that shows what it showed.
  pub failed-Serves :
      (batch : List Entry) (f : List ℕ → Option (List ℕ)) (e : Error) (db : Db M T) (address : ℕ)
      (l : Log) (seg : Segment)
      → Represents mem get db address l seg f
      → Serves batch f db.value_threshold (fail_write_requests batch e) [] db
  unfolding fail_write_requests last_value
  failed-Serves batch f e db address l seg v = record {
    seen = 0;
    address = address;
    log = l;
    segment = seg;
    represents = v;
    acknowledged = λ i q. absurd (no_success (length batch) i e q);
    proceeds = inl (refl, length-replicate (length batch) (err e));
    room = omega (arith, v.opened.small);
    threshold_kept = refl;
  }

  module _ (batch : List Entry) (f : List ℕ → Option (List ℕ)) (n address : ℕ) (l : Log)
      (seg : Segment) (within : n ≤ length batch) where
    -- The end of a round whose entries are in the memtable.
    pub finish_round-Serves :
        (prep_err : Option Error) (db : Db M T)
        → (prep_err ≡ none → seg.size + batch_size (drop n batch) < 2 ^ 63)
        → 0 < n
        → Represents mem get db address l seg (updates (take n batch) f)
        → let r = finish_round mem (successes n) (drop n batch) prep_err db in
          Serves batch f db.value_threshold r.answers r.rest r.db
    unfolding finish_round fail_write_requests
    finish_round-Serves none db room some_written v = record {
      seen = n;
      address = address;
      log = l;
      segment = seg;
      represents = v;
      acknowledged = λ i q. acknowledged_all n i q;
      proceeds = inr (refl, length-replicate n (ok tt), some_written, within);
      room = room refl;
      threshold_kept = refl;
    }
    finish_round-Serves (some e) db room some_written v = record {
      seen = n;
      address = address;
      log = l;
      segment = seg;
      represents = v;
      acknowledged = λ i q. acknowledged_prefix n (length (drop n batch)) i e q;
      proceeds = inl (
        refl,
        omega (
          arith,
          length-append {0} {A = Result (Unit {0})} (successes n)
              (failures (length (drop n batch)) e),
          length-replicate {0} {A = Result (Unit {0})} n (ok tt),
          length-replicate {0} {A = Result (Unit {0})} (length (drop n batch)) (err e),
          length-drop n batch,
        ),
      );
      room = omega (arith, v.opened.small);
      threshold_kept = refl;
    }
