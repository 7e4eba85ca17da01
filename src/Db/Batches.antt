-- ===== src/Db/Batches.antt =====
-- db.go: processWriteBatch on an open database, whatever the environment does.
use seol.Base.{ℕ, zero, suc, ◌+◌, ◌^◌, ◌≤◌, ◌<◌, ◌≡◌, refl, sym, ap, ◌∙◌, arith}
use seol.Base.{
  Option, some, List, [], ◌∷◌, ◌++◌, append-nil, length, take, drop, get_elem?, All, length-append,
  length-drop, take-add, inl, inr,
}
use seol.Base.Result.{Result, ok}
use seol.Db.{Db}
use seol.Db.Preparing.{IsPlain, batch_size}
use seol.Db.Represents.{Represents, updates}
use seol.Db.Rounds.{Serves, Answers}
use seol.Base.{or_option}
use seol.Db.Views.{last_value}
use seol.Db.Writing.{Env, process_round, process_loop, process_write_batch}
use seol.Memtable.{Memtable, IsLawful}
use seol.Sstable.Blocks.{Entry}
use seol.Vlog.{Log, Segment}
use seol.Db.Round.{process_round-Serves}

module _ {M T : Type 0} (mem : Memtable M) (get : T → List ℕ → Result (Option (List ℕ)))
    (laws : IsLawful mem) where
  -- What processWriteBatch comes to: the database shows the first `seen` requests of the batch, all
  -- that it acknowledged are among them, and it answers each request.
  pub record Served (batch : List Entry) (f : List ℕ → Option (List ℕ)) (answers : Answers)
      (db : Db M T) : Type 0 where
    pub seen : ℕ
    pub address : ℕ
    pub log : Log
    pub segment : Segment
    pub represents : Represents mem get db address log segment (updates (take seen batch) f)
    pub acknowledged : (i : ℕ) → get_elem? answers i ≡ some (ok tt) → i < seen
    pub answered : length answers ≡ length batch

  last_value-append :
      (xs ys : List Entry) (key : List ℕ)
      → last_value (xs ++ ys) key ≡ or_option (last_value ys key) (last_value xs key)
  unfolding last_value
  last_value-append [] ys key = ground arith
  last_value-append (x ∷ xs) ys key = ground (arith, last_value-append xs ys key)

  updates-append :
      (xs ys : List Entry) (f : List ℕ → Option (List ℕ)) (key : List ℕ)
      → updates ys (updates xs f) key ≡ updates (xs ++ ys) f key
  updates-append xs ys f key = ground (arith, last_value-append xs ys key)

  All-drop : (P : Entry → Type 0) (n : ℕ) (xs : List Entry) → All P xs → All P (drop n xs)
  All-drop P zero xs h = h
  All-drop P (suc n) [] h = tt
  All-drop P (suc n) (x ∷ xs) h = All-drop P n xs h.1

  acknowledged-append :
      (xs ys : Answers) (n m i : ℕ)
      → length xs ≡ n
      → ((i : ℕ) → get_elem? ys i ≡ some (ok tt) → i < m)
      → get_elem? (xs ++ ys) i ≡ some (ok tt)
      → i < n + m
  acknowledged-append [] ys n m i e h q = omega (arith, h i q)
  acknowledged-append (x ∷ xs) ys zero m i e h q = absurd (omega arith)
  acknowledged-append (x ∷ xs) ys (suc n) m zero e h q = omega arith
  acknowledged-append (x ∷ xs) ys (suc n) m (suc i) e h q =
      omega (arith, acknowledged-append xs ys n m i (omega arith) h q)

  nothing-Served :
      (f : List ℕ → Option (List ℕ)) (db : Db M T) (address : ℕ) (l : Log) (seg : Segment)
      → Represents mem get db address l seg f
      → Served [] f [] db
  unfolding last_value
  nothing-Served f db address l seg v = record {
    seen = 0;
    address = address;
    log = l;
    segment = seg;
    represents = v;
    acknowledged = λ i q. absurd (cc q);
    answered = refl;
  }

  process_loop-nil :
      (fuel : ℕ) (envs : ℕ → Env) (i : ℕ) (db : Db M T)
      → process_loop mem fuel envs i [] db ≡ ([], db)
  unfolding process_loop
  process_loop-nil zero envs i db = refl
  process_loop-nil (suc fuel) envs i db = refl

  -- Where the round was the last.
  ended-Served :
      (fuel : ℕ) (envs : ℕ → Env) (i : ℕ) (batch : List Entry) (f : List ℕ → Option (List ℕ))
      (answers : Answers) (rest : List Entry) (db : Db M T)
      → rest ≡ []
      → length answers ≡ length batch
      → (threshold : ℕ) → Serves mem get laws batch f threshold answers rest db
      → let (more, after) = process_loop mem fuel envs i rest db in
        Served batch f (answers ++ more) after
  ended-Served fuel envs i batch f answers rest db e all threshold s =
      rw (e, process_loop-nil fuel envs i db, append-nil answers)
        (record {
          seen = s.seen;
          address = s.address;
          log = s.log;
          segment = s.segment;
          represents = s.represents;
          acknowledged = s.acknowledged;
          answered = all;
        })

  -- Where the loop goes on.
  continued-Served :
      (batch : List Entry) (f : List ℕ → Option (List ℕ)) (answers : Answers) (rest : List Entry)
      (db : Db M T) (threshold : ℕ) (s : Serves mem get laws batch f threshold answers rest db)
      → rest ≡ drop s.seen batch
      → length answers ≡ s.seen
      → s.seen ≤ length batch
      → (more : Answers × Db M T) → Served rest (updates (take s.seen batch) f) more.0 more.1
      → Served batch f (answers ++ more.0) more.1
  continued-Served batch f answers rest db threshold s left count within more ih =
      let first = take s.seen batch in
      record {
        seen = s.seen + ih.seen;
        address = ih.address;
        log = ih.log;
        segment = ih.segment;
        represents = record {
          ready = ih.represents.ready;
          has_log = ih.represents.has_log;
          opened = ih.represents.opened;
          shows = λ key.
              ih.represents.shows key
              ∙ ap ok (
                  updates-append first (take ih.seen rest) f key
                  ∙ ap (λ es. updates es f key)
                      (ap (λ (t : List Entry). first ++ take ih.seen t) left
                        ∙ sym (take-add s.seen ih.seen batch)));
        };
        acknowledged =
            λ i q. acknowledged-append answers more.0 s.seen ih.seen i count ih.acknowledged q;
        answered = omega (
          arith,
          length-append {0} answers more.0,
          ih.answered,
          count,
          ap length left,
          length-drop s.seen batch,
        );
      }

  process_loop-Served :
      (fuel : ℕ) (envs : ℕ → Env) (i : ℕ) (batch : List Entry) (f : List ℕ → Option (List ℕ))
      (db : Db M T) (address : ℕ) (l : Log) (seg : Segment)
      → length batch ≤ fuel
      → Represents mem get db address l seg f
      → All (IsPlain db.value_threshold) batch
      → seg.size + batch_size batch < 2 ^ 63
      → let (answers, after) = process_loop mem fuel envs i batch db in Served batch f answers after
  unfolding process_loop last_value
  process_loop-Served zero envs i [] f db address l seg enough v plain room =
      nothing-Served f db address l seg v
  process_loop-Served zero envs i (req ∷ batch) f db address l seg enough v plain room =
      absurd (omega arith)
  process_loop-Served (suc fuel) envs i [] f db address l seg enough v plain room =
      nothing-Served f db address l seg v
  process_loop-Served (suc fuel) envs i (req ∷ batch) f db address l seg enough v plain room =
      let s =
        process_round-Serves mem get laws (envs i) (req ∷ batch) f db address l seg v plain
          (omega arith) room in
      let r = process_round mem (envs i) (req ∷ batch) db in
      elim s.proceeds [
        | inl (ended, all) ↦
            ended-Served fuel envs (suc i) (req ∷ batch) f r.answers r.rest r.db ended all
              db.value_threshold s
        | inr (left, some_answers, progress, within) ↦
            continued-Served (req ∷ batch) f r.answers r.rest r.db db.value_threshold s left
              some_answers within (process_loop mem fuel envs (suc i) r.rest r.db)
              (process_loop-Served fuel envs (suc i) r.rest (updates (take s.seen (req ∷ batch)) f)
                r.db s.address s.log s.segment
                (omega (arith, ap length left, length-drop s.seen (req ∷ batch))) s.represents
                (rw (s.threshold_kept, left)
                  (All-drop (IsPlain db.value_threshold) s.seen (req ∷ batch) plain))
                s.room)
      ]

  -- Over a lawful memtable.
  pub lawful_batch-Served :
      (envs : ℕ → Env) (batch : List Entry) (f : List ℕ → Option (List ℕ)) (db : Db M T)
      (address : ℕ) (l : Log) (seg : Segment)
      → Represents mem get db address l seg f
      → All (IsPlain db.value_threshold) batch
      → seg.size + batch_size batch < 2 ^ 63
      → let (answers, after) = process_write_batch mem envs batch db in Served batch f answers after
  unfolding process_write_batch
  lawful_batch-Served envs batch f db address l seg v plain room =
      process_loop-Served (length batch) envs 0 batch f db address l seg (omega arith) v plain room
