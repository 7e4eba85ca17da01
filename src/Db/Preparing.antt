-- ===== src/Db/Preparing.antt =====
-- db.go: what the loop that prepares a round has stored for its requests, and left of the value log.
use seol.Base.{ℕ, suc, ◌+◌, ◌^◌, ◌≤◌, ◌<◌, Bool, true, false, ◌≡◌, refl, ap, arith}
use seol.Base.{
  Option, none, some, List, [], ◌∷◌, ◌++◌, leb, if◌then◌else◌, length, drop, All, if_cases, inl,
  inr,
}
use seol.Base.Result.{Result, ok, Result-cases}
use seol.Base.Order.{bytes_equal}
use seol.Record.{encode, Fits}
use seol.Db.Views.{last_value}
use seol.Db.Writing.{Prepared, also_prepared, prepare}
use seol.Sstable.Blocks.{Entry}
use seol.Stored.{decode_value_ref, store_value_for_lsm, memtable_entry_size, resolve_stored_value}
use seol.Stored.Growth.{StoreStep, store_value-Step, resolve_stored_value-Extends, resolved_of}
use seol.Vlog.{Log, Segment, Outcome}
use seol.Vlog.Extends.{IsOpen, Extends, Extends-refl, Extends-trans}

-- Each stored entry has the key of a request, and resolves to its value.
abbrev pub Matches : Log → List Entry → List Entry → Type 0
Matches l [] [] = Unit
Matches l [] (e ∷ es) = ⊥
Matches l (s ∷ ss) [] = ⊥
Matches l (s ∷ ss) (e ∷ es) =
    (s.0 ≡ e.0) × (resolve_stored_value (some l) s.1 ≡ ok (resolved_of e.1)) × Matches l ss es

-- The bytes that the records of the requests would take in the value log.
abbrev pub batch_size : List Entry → ℕ
batch_size [] = 0
batch_size (e ∷ es) = length (encode e.0 e.1) + batch_size es

-- The record formats hold the request, and a short value does not look like a reference.
pub record IsPlain (threshold : ℕ) (e : Entry) : Type 0 where
  pub fits : Fits e.0 e.1
  pub plain : length e.1 ≤ threshold → decode_value_ref e.1 ≡ none

pub record Prepares (l : Log) (seg : Segment) (batch : List Entry) (p : Prepared) : Type 0 where
  pub after : Log
  pub segment : Segment
  pub is_after : p.log ≡ some after
  pub extends : Extends l after
  pub opened : IsOpen after segment
  pub matches : Matches after p.stored p.wal_batch
  pub split : p.wal_batch ++ drop (length p.stored) batch ≡ batch
  pub progress : p.prep_err ≡ none → 0 < length batch → 0 < length p.stored
  pub room :
      p.prep_err ≡ none
      → segment.size + batch_size (drop (length p.stored) batch) ≤ seg.size + batch_size batch

-- A request that crosses the memtable's limit is the last of its round.
crossing-Prepares :
    (l : Log) (seg : Segment) (req : Entry) (batch : List Entry)
    (answer : Result (List ℕ) × Option Log) (step : StoreStep l seg req.0 req.1 answer)
    (stored : List ℕ)
    → answer.0 ≡ ok stored
    → Prepares l seg (req ∷ batch) (record {
      wal_batch = req ∷ [];
      stored = (req.0, stored) ∷ [];
      crossing = true;
      prep_err = none;
      log = some step.after;
    })
crossing-Prepares l seg req batch answer step stored q = record {
  after = step.after;
  segment = step.segment;
  is_after = refl;
  extends = step.extends;
  opened = step.opened;
  matches = (refl, step.resolves stored q, tt);
  split = refl;
  progress = λ e h. omega arith;
  room = λ e. omega (arith, step.room);
}

also_prepared-Prepares :
    (l : Log) (seg : Segment) (req : Entry) (batch : List Entry)
    (answer : Result (List ℕ) × Option Log) (step : StoreStep l seg req.0 req.1 answer)
    (stored : List ℕ) (p : Prepared)
    → answer.0 ≡ ok stored
    → Prepares step.after step.segment batch p
    → Prepares l seg (req ∷ batch) (also_prepared req stored p)
unfolding also_prepared
also_prepared-Prepares l seg req batch answer step stored p q rest = record {
  after = rest.after;
  segment = rest.segment;
  is_after = rest.is_after;
  extends = Extends-trans step.extends rest.extends;
  opened = rest.opened;
  matches = (
    refl,
    resolve_stored_value-Extends stored (resolved_of req.1) rest.extends (step.resolves stored q),
    rest.matches,
  );
  split = ap (λ (t : List Entry). req ∷ t) rest.split;
  progress = λ e h. omega arith;
  room = λ e. omega (arith, step.room, rest.room e);
}

pub prepare-Prepares :
    (outcomes : ℕ → Outcome) (i threshold max_bytes projected : ℕ) (l : Log) (seg : Segment)
    (batch : List Entry)
    → IsOpen l seg
    → All (IsPlain threshold) batch
    → seg.size + batch_size batch < 2 ^ 63
    → Prepares l seg batch (prepare outcomes i threshold max_bytes projected (some l) batch)
unfolding prepare
prepare-Prepares outcomes i threshold max_bytes projected l seg [] opened plain room = record {
  after = l;
  segment = seg;
  is_after = refl;
  extends = Extends-refl l;
  opened = opened;
  matches = tt;
  split = refl;
  progress = λ e h. absurd (omega arith);
  room = λ e. omega arith;
}
prepare-Prepares outcomes i threshold max_bytes projected l seg (req ∷ batch) opened plain room =
    let step =
      store_value-Step l (outcomes i) seg threshold req.0 req.1 opened plain.0.fits (omega arith)
        plain.0.plain in
    let answer = store_value_for_lsm (some l) (outcomes i) threshold req.0 req.1 in
    let projected' = projected + memtable_entry_size req.0 req.1 in
    elim (Result-cases answer.0) [
      | inr (e, q) ↦
          rw (q, prepare)
            (record {
              after = step.after;
              segment = step.segment;
              is_after = step.is_after;
              extends = step.extends;
              opened = step.opened;
              matches = tt;
              split = refl;
              progress = λ never h. absurd (cc never);
              room = λ never. absurd (cc never);
            })
      | inl (stored, q) ↦
          rw (q, step.is_after, prepare)
            (if_cases (Prepares l seg (req ∷ batch)) (leb max_bytes projected')
              (record {
                wal_batch = req ∷ [];
                stored = (req.0, stored) ∷ [];
                crossing = true;
                prep_err = none;
                log = some step.after;
              })
              (also_prepared req stored
                (prepare outcomes (suc i) threshold max_bytes projected' (some step.after) batch))
              (λ c. crossing-Prepares l seg req batch answer step stored q)
              (λ c.
                also_prepared-Prepares l seg req batch answer step stored
                  (prepare outcomes (suc i) threshold max_bytes projected' (some step.after) batch)
                  q
                  (prepare-Prepares outcomes (suc i) threshold max_bytes projected' step.after
                    step.segment batch step.opened plain.1 (omega (arith, step.room)))))
    ]

pub Matches-length : (l : Log) (ss es : List Entry) → Matches l ss es → length ss ≡ length es
Matches-length l [] [] m = refl
Matches-length l [] (e ∷ es) m = absurd m
Matches-length l (s ∷ ss) [] m = absurd m
Matches-length l (s ∷ ss) (e ∷ es) m = ap suc (Matches-length l ss es m.2)

-- What was stored last for a key resolves to what the requests gave it last.
abbrev pub SameLast : Log → Option (List ℕ) → Option (List ℕ) → Type 0
SameLast l none none = Unit
SameLast l none (some v) = ⊥
SameLast l (some s) none = ⊥
SameLast l (some s) (some v) = resolve_stored_value (some l) s ≡ ok (resolved_of v)

if_both :
    (l : Log) (b : Bool) (s v : List ℕ)
    → resolve_stored_value (some l) s ≡ ok (resolved_of v)
    → SameLast l (if b then some s else none) (if b then some v else none)
if_both l true s v h = h
if_both l false s v h = tt

pub last_value-Matches :
    (l : Log) (ss es : List Entry) (key : List ℕ)
    → Matches l ss es
    → SameLast l (last_value ss key) (last_value es key)
unfolding last_value
last_value-Matches l [] [] key m = tt
last_value-Matches l [] (e ∷ es) key m = absurd m
last_value-Matches l (s ∷ ss) [] key m = absurd m
last_value-Matches l (s ∷ ss) (e ∷ es) key m =
    go (last_value ss key) (last_value es key) (last_value-Matches l ss es key m.2)
  where
    go :
        (a b : Option (List ℕ))
        → SameLast l a b
        → SameLast l
            (elim a [ some v ↦ some v | none ↦ if bytes_equal s.0 key then some s.1 else none ])
            (elim b [ some v ↦ some v | none ↦ if bytes_equal e.0 key then some e.1 else none ])
    go (some x) (some y) h = h
    go (some x) none h = absurd h
    go none (some y) h = absurd h
    go none none h = rw m.0 (if_both l (bytes_equal e.0 key) s.1 e.1 m.1)
