-- ===== src/Db/Replays.antt =====
-- db.go: what replayWALs makes of logs that a crash has cut.
use mathlib.Core.Path.{subst}
use seol.Base.{
  ℕ, ◌+◌, ◌^◌, ◌<◌, ◌≡◌, refl, sym, ap, ◌∙◌, arith, ◌⊎◌, inl, inr, Option, some, List, [], ◌∷◌,
  ◌++◌,
}
use seol.Base.{take, All}
use seol.Base.Result.{Error, Result, Result-cases, ok, err, ◌>>=◌}
use seol.Db.Opening.{Replaying, put_replayed, replay_entry, replay_wals}
use seol.Db.Preparing.{Matches, IsPlain, batch_size}
use seol.Db.Writing.{put_all}
use seol.Memtable.{Memtable}
use seol.Record.{encode_all, AllFit}
use seol.Sstable.Blocks.{Entry}
use seol.Stored.{store_value_for_lsm}
use seol.Stored.Growth.{StoreStep, store_value-Step, resolve_stored_value-Extends, resolved_of}
use seol.Vlog.{Log, Segment, Outcome}
use seol.Vlog.Extends.{IsOpen, Extends, Extends-refl, Extends-trans}
use seol.Wal.Recovery.{whole, replay_torn_log}
use seol.Wal.Replay.{apply_all}

-- A log with how much of it a crash left, and the entries that are whole in it.
abbrev pub TornLog : Type 0
TornLog = ℕ × List Entry

abbrev pub file_of_torn : TornLog → List ℕ
file_of_torn (n, entries) = take n (encode_all entries)

abbrev pub files_of : List TornLog → List (List ℕ)
files_of [] = []
files_of (t ∷ torn) = file_of_torn t ∷ files_of torn

abbrev pub recovered : List TornLog → List Entry
recovered [] = []
recovered ((n, entries) ∷ torn) = whole n entries ++ recovered torn

abbrev pub AllTorn : List TornLog → Type 0
AllTorn [] = Unit
AllTorn ((n, entries) ∷ torn) = AllFit entries × AllTorn torn

module _ {M : Type 0} (mem : Memtable M) (outcomes : ℕ → Outcome) (threshold : ℕ) where
  -- An error is that of a write to the value log.
  abbrev pub StoreFailed : Error → Type 0
  StoreFailed e =
      (log : Option Log) × (n : ℕ) × (key : List ℕ) × (v : List ℕ) × ((store_value_for_lsm log
          (outcomes n) threshold key v).0
        ≡ err e)

  -- The entries are put in order, and each stored form resolves to its value.
  pub record Replayed (l : Log) (entries : List Entry) (s after : Replaying M) : Type 0 where
    pub log : Log
    pub segment : Segment
    pub has_log : after.log ≡ some log
    pub extends : Extends l log
    pub opened : IsOpen log segment
    pub stored : List Entry
    pub put : after.memtable ≡ put_all mem stored s.memtable
    pub matches : Matches log stored entries

  abbrev pub Ends : Log → List Entry → Replaying M → Result (Replaying M) → Type 0
  Ends l entries s r =
      ((after : Replaying M) × (r ≡ ok after) × Replayed l entries s after)
      ⊎ ((e : Error) × (r ≡ err e) × StoreFailed e)

  Replayed-more :
      (l : Log) (seg : Segment) (e : Entry) (entries : List Entry) (s after : Replaying M)
      (stored : List ℕ) (log : Option Log) (step : StoreStep l seg e.0 e.1 (ok stored, log))
      → Replayed step.after entries (put_replayed mem e.0 e.1 stored log s) after
      → Replayed l (e ∷ entries) s after
  unfolding put_all
  Replayed-more l seg e entries s after stored log step h = record {
    log = h.log;
    segment = h.segment;
    has_log = h.has_log;
    extends = Extends-trans step.extends h.extends;
    opened = h.opened;
    stored = (e.0, stored) ∷ h.stored;
    put = h.put;
    matches = (
      refl,
      resolve_stored_value-Extends stored (resolved_of e.1) h.extends (step.resolves stored refl),
      h.matches,
    );
  }

  entry_answer :
      (key v : List ℕ) (s : Replaying M) (answer : Result (List ℕ) × Option Log)
      → store_value_for_lsm s.log (outcomes s.count) threshold key v ≡ answer
      → replay_entry mem outcomes threshold key v s ≡ (elim answer.0 [
        | err e ↦ err e
        | ok stored ↦ ok (put_replayed mem key v stored answer.1 s)
      ])
  unfolding replay_entry
  entry_answer key v s answer e =
      ap
        (λ (a : Result (List ℕ) × Option Log). elim a.0 [
          | err x ↦ err x
          | ok stored ↦ ok (put_replayed mem key v stored a.1 s)
        ])
        e

  applied :
      (l : Log) (seg : Segment) (e : Entry) (entries : List Entry) (s : Replaying M)
      (answer : Result (List ℕ) × Option Log)
      → store_value_for_lsm s.log (outcomes s.count) threshold e.0 e.1 ≡ answer
      → StoreStep l seg e.0 e.1 answer
      → seg.size + batch_size (e ∷ entries) < 2 ^ 63
      → ((l' : Log) (seg' : Segment) (s' : Replaying M)
          → s'.log ≡ some l'
          → IsOpen l' seg'
          → seg'.size + batch_size entries < 2 ^ 63
          → Ends l' entries s' (apply_all (replay_entry mem outcomes threshold) entries s'))
      → Ends l (e ∷ entries) s (apply_all (replay_entry mem outcomes threshold) (e ∷ entries) s)
  unfolding apply_all
  applied l seg e entries s (err x, log) q step room next =
      rw (entry_answer e.0 e.1 s (err x, log) q)
        (inr (x, refl, (s.log, s.count, e.0, e.1, ap (λ a. a.0) q)))
  applied l seg e entries s (ok stored, log) q step room next =
      let s' = put_replayed mem e.0 e.1 stored log s in
      rw (entry_answer e.0 e.1 s (ok stored, log) q)
        (elim (next step.after step.segment s' step.is_after step.opened
          (omega (arith, step.room, room))) [
            | inr failed ↦ inr failed
            | inl (after, done, h) ↦
                inl (after, done, Replayed-more l seg e entries s after stored log step h)
          ])

  apply_all-Ends :
      (entries : List Entry) (l : Log) (seg : Segment) (s : Replaying M)
      → s.log ≡ some l
      → IsOpen l seg
      → All (IsPlain threshold) entries
      → seg.size + batch_size entries < 2 ^ 63
      → Ends l entries s (apply_all (replay_entry mem outcomes threshold) entries s)
  unfolding apply_all put_all
  apply_all-Ends [] l seg s has_log opened plain room = inl (
    s,
    refl,
    record {
      log = l;
      segment = seg;
      has_log = has_log;
      extends = Extends-refl l;
      opened = opened;
      stored = [];
      put = refl;
      matches = tt;
    },
  )
  apply_all-Ends ((key, v) ∷ entries) l seg s has_log opened plain room =
      let step0 =
        store_value-Step l (outcomes s.count) seg threshold key v opened plain.0.fits (omega arith)
          plain.0.plain in
      let step =
        subst
          (λ log.
            StoreStep l seg key v (store_value_for_lsm log (outcomes s.count) threshold key v))
          (sym has_log) step0 in
      applied l seg (key, v) entries s
        (store_value_for_lsm s.log (outcomes s.count) threshold key v) refl step (omega arith)
        (λ l' seg' s' a b r. apply_all-Ends entries l' seg' s' a b plain.1 r)

  apply_all-append :
      (xs ys : List Entry) (s : Replaying M)
      → apply_all (replay_entry mem outcomes threshold) (xs ++ ys) s ≡ (
          apply_all (replay_entry mem outcomes threshold) xs s
          >>= apply_all (replay_entry mem outcomes threshold) ys)
  unfolding apply_all
  apply_all-append [] ys s = refl
  apply_all-append ((key, v) ∷ xs) ys s =
      elim (Result-cases (replay_entry mem outcomes threshold key v s)) [
        | inl (s', q) ↦ rw q (apply_all-append xs ys s')
        | inr (e, q) ↦ rw q refl
      ]

  -- The logs are replayed as the entries that are whole in them.
  replay_wals-torn :
      (torn : List TornLog) (s : Replaying M)
      → AllTorn torn
      → replay_wals mem outcomes threshold (files_of torn) s
        ≡ apply_all (replay_entry mem outcomes threshold) (recovered torn) s
  unfolding replay_wals apply_all
  replay_wals-torn [] s fits = refl
  replay_wals-torn ((n, entries) ∷ torn) s fits =
      ap (λ r. r >>= replay_wals mem outcomes threshold (files_of torn))
        (replay_torn_log (replay_entry mem outcomes threshold) entries n s fits.0)
      ∙ (elim (Result-cases (apply_all (replay_entry mem outcomes threshold) (whole n entries) s)) [
        | inl (s', q) ↦ rw q (replay_wals-torn torn s' fits.1)
        | inr (e, q) ↦ rw q refl
      ])
      ∙ sym (apply_all-append (whole n entries) (recovered torn) s)

  pub replay_wals-Ends :
      (torn : List TornLog) (l : Log) (seg : Segment) (s : Replaying M)
      → AllTorn torn
      → s.log ≡ some l
      → IsOpen l seg
      → All (IsPlain threshold) (recovered torn)
      → seg.size + batch_size (recovered torn) < 2 ^ 63
      → Ends l (recovered torn) s (replay_wals mem outcomes threshold (files_of torn) s)
  replay_wals-Ends torn l seg s fits has_log opened plain room =
      rw (replay_wals-torn torn s fits)
        (apply_all-Ends (recovered torn) l seg s has_log opened plain room)
