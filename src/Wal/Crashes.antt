-- ===== src/Wal/Crashes.antt =====
-- wal.go: batches, rounds of the sync loop and close, one after the other, and then a crash.
use seol.Base.{
  ℕ, ◌+◌, ◌^◌, ◌≤◌, ◌<◌, Bool, true, false, not, ◌&&◌, ◌≡◌, refl, arith, none, List, [], ◌∷◌,
}
use seol.Base.{ltb, ltb→lt, length, if_cases, not→false}
use seol.Wal.{Wal, Outcome, is_some, append_batch, sync_round, close_locked}
use seol.Wal.Durable.{Entries, IsDurable, sync_round-IsDurable, no_error}
use seol.Wal.Batches.{tried_after, accepted_after, append_batch-IsDurable}

-- `createWAL`: a new file, with a writer and a sync loop if the interval is positive.
unfoldable pub create_wal : Bool → Wal
create_wal is_buffered = record {
  file = [];
  synced = 0;
  buffered = [];
  bw_failed = false;
  is_buffered = is_buffered;
  pending = 0;
  durable = 0;
  sync_count = 0;
  sync_err = none;
  is_closed = false;
  has_file = true;
}

-- The log, the entries whose records went to its writer, and how many of them were accepted.
pub record State : Type 0 where
  pub wal : Wal
  pub tried : Entries
  pub accepted : ℕ

-- What runs with the log's mutex held.
pub data Action : Type 0 where
  batch : Outcome → Entries → Action
  round : Outcome → Action
  closing : Outcome → Action

unfoldable pub step : State → Action → State
step s (batch o entries) =
    let (result, w) = append_batch s.wal o entries in
    record {
      wal = w;
      tried = tried_after s.wal s.tried entries;
      accepted = accepted_after result s.accepted entries;
    }
step s (round o) = record s { wal = (sync_round s.wal o).1 }
step s (closing o) = record s { wal = close_locked s.wal o }

unfoldable pub run : State → List Action → State
run s [] = s
run s (a ∷ actions) = run (step s a) actions

-- The counters do not overflow, and a bufio.Writer that fails keeps what it held and did not write.
unfoldable pub IsAllowed : State → Action → Type 0
IsAllowed s (batch o entries) =
    (length s.tried + length entries < 2 ^ 64)
    × (o.writes ≡ false → length s.wal.buffered ≤ o.written + o.kept)
IsAllowed s (round o) = Unit
IsAllowed s (closing o) = Unit

unfoldable pub AreAllowed : State → List Action → Type 0
AreAllowed s [] = Unit
AreAllowed s (a ∷ actions) = IsAllowed s a × AreAllowed (step s a) actions

module _ (w : Wal) (tried : Entries) (accepted : ℕ) (v : IsDurable w tried accepted) where
  shut-IsDurable :
      (c h : Bool) → IsDurable (record w { is_closed = c; has_file = h }) tried accepted
  shut-IsDurable c h = record {
    tail = v.tail;
    begins = v.begins;
    synced_le = v.synced_le;
    accepted_le = v.accepted_le;
    held = v.held;
    kept = v.kept;
    healthy = v.healthy;
    unbuffered = v.unbuffered;
  }

  abbrev Shuts : Wal → Type 0
  Shuts w' = IsDurable (record w' { is_closed = true; has_file = false }) tried accepted

  nothing_pending :
      w.is_buffered ≡ false → w.sync_err ≡ none → ltb w.durable w.pending ≡ true → true ≡ false
  nothing_pending u q h =
      let same : w.durable ≡ w.pending = (v.unbuffered u).2 q in
      absurd (omega (arith, ltb→lt w.durable w.pending h, same))

  and_left : (a b : Bool) → (a && b) ≡ true → a ≡ true
  and_left true b h = refl
  and_left false b h = h

  close_locked-IsDurable : (o : Outcome) → IsDurable (close_locked w o) tried accepted
  unfolding close_locked
  close_locked-IsDurable o =
      if_cases (λ w'. IsDurable w' tried accepted) (not w.has_file) _ _ (λ h. v)
        (λ h.
          if_cases (λ w'. IsDurable w' tried accepted) (not w.is_buffered) _ _
            (λ d.
              if_cases Shuts (ltb w.durable w.pending && not (is_some w.sync_err)) _ _
                (λ t. absurd (
                  cc (
                    nothing_pending (not→false _ d)
                      (no_error w.sync_err (ltb w.durable w.pending) t)
                      (and_left (ltb w.durable w.pending) (not (is_some w.sync_err)) t))))
                (λ t. shut-IsDurable true false))
            (λ d. shut-IsDurable true w.has_file))

pub step-IsDurable :
    (s : State) (a : Action)
    → IsAllowed s a
    → IsDurable s.wal s.tried s.accepted
    → IsDurable (step s a).wal (step s a).tried (step s a).accepted
unfolding step IsAllowed
step-IsDurable s (batch o entries) h v =
    append_batch-IsDurable s.wal o s.tried entries s.accepted v h.0 h.1
step-IsDurable s (round o) h v = sync_round-IsDurable s.wal o s.tried s.accepted v
step-IsDurable s (closing o) h v = close_locked-IsDurable s.wal s.tried s.accepted v o

pub run-IsDurable :
    (s : State) (actions : List Action)
    → AreAllowed s actions
    → IsDurable s.wal s.tried s.accepted
    → IsDurable (run s actions).wal (run s actions).tried (run s actions).accepted
unfolding run AreAllowed
run-IsDurable s [] h v = v
run-IsDurable s (a ∷ actions) h v = run-IsDurable (step s a) actions h.1 (step-IsDurable s a h.0 v)

abbrev pub new_state : Bool → State
new_state is_buffered = record { wal = create_wal is_buffered; tried = []; accepted = 0 }

pub create_wal-IsDurable : (is_buffered : Bool) → IsDurable (create_wal is_buffered) [] 0
unfolding create_wal
create_wal-IsDurable is_buffered = record {
  tail = [];
  begins = refl;
  synced_le = omega arith;
  accepted_le = omega arith;
  held = λ q. omega arith;
  kept = omega arith;
  healthy = λ q f. (refl, refl, refl, omega arith);
  unbuffered = λ u. (refl, refl, λ q. refl);
}
