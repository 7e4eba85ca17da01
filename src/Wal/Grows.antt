-- ===== src/Wal/Grows.antt =====
-- wal.go: what was synced stays synced, and the entries that were tried stay the first ones.
use seol.Base.{◌≤◌, ◌≡◌, refl, sym, ap, ◌∙◌, arith, List, [], ◌∷◌, ◌++◌, append_assoc, append-nil}
use seol.Base.{length, length-append, if_cases}
use seol.Base.Result.{Result, ok, err}
use seol.Record.{encode_all}
use seol.Wal.{
  Wal, Outcome, sync_file, flush_and_sync_locked, write_and_sync_record_locked, bw_write,
  set_sync_err, append_batch, sync_round, close_locked,
}
use seol.Wal.Batches.{tried_after, reaches_writer}
use seol.Wal.Crashes.{Action, State, batch, round, closing, step, run, AreAllowed, step-IsDurable}
use seol.Wal.Durable.{Entries, IsDurable}

module _ (w : Wal) (o : Outcome) (le : w.synced ≤ length w.file) where
  flush_grows : w.synced ≤ (flush_and_sync_locked w o).1.synced
  unfolding flush_and_sync_locked sync_file
  flush_grows = ground (arith, le, length-append w.file w.buffered)

synced-set_sync_err : (r : Result (Unit {0}) × Wal) → (set_sync_err r).1.synced ≡ r.1.synced
unfolding set_sync_err
synced-set_sync_err (ok u, w) = refl
synced-set_sync_err (err e, w) = refl

append_grows :
    (w : Wal) (o : Outcome) (entries : Entries)
    → w.synced ≤ length w.file
    → w.synced ≤ (append_batch w o entries).1.synced
unfolding append_batch write_and_sync_record_locked bw_write sync_file set_sync_err
append_grows w o entries le = ground (arith, le, length-append w.file (encode_all entries))

round_grows :
    (w : Wal) (o : Outcome) → w.synced ≤ length w.file → w.synced ≤ (sync_round w o).1.synced
unfolding sync_round
round_grows w o le =
    ground (arith, flush_grows w o le, synced-set_sync_err (flush_and_sync_locked w o))

close_grows :
    (w : Wal) (o : Outcome) → w.synced ≤ length w.file → w.synced ≤ (close_locked w o).synced
unfolding close_locked
close_grows w o le = ground (arith, flush_grows w o le)

step_grows :
    (s : State) (a : Action)
    → s.wal.synced ≤ length s.wal.file
    → s.wal.synced ≤ (step s a).wal.synced
unfolding step
step_grows s (batch o entries) le = append_grows s.wal o entries le
step_grows s (round o) le = round_grows s.wal o le
step_grows s (closing o) le = close_grows s.wal o le

tried_grows : (s : State) (a : Action) → (more : Entries) × ((step s a).tried ≡ s.tried ++ more)
unfolding step tried_after
tried_grows s (batch o entries) =
    if_cases (λ es. (more : Entries) × (es ≡ s.tried ++ more)) (reaches_writer s.wal) _ _
      (λ t. (entries, refl)) (λ f. ([], sym (append-nil s.tried)))
tried_grows s (round o) = ([], sym (append-nil s.tried))
tried_grows s (closing o) = ([], sym (append-nil s.tried))

pub run_grows :
    (s : State) (actions : List Action)
    → AreAllowed s actions
    → IsDurable s.wal s.tried s.accepted
    → (s.wal.synced ≤ (run s actions).wal.synced)
      × (more : Entries) × ((run s actions).tried ≡ s.tried ++ more)
unfolding run AreAllowed
run_grows s [] h v = (omega arith, [], sym (append-nil s.tried))
run_grows s (a ∷ actions) h v =
    let now = step_grows s a v.synced_le in
    let (some_more, e) = tried_grows s a in
    let (later, more, q) = run_grows (step s a) actions h.1 (step-IsDurable s a h.0 v) in
    (
      omega (arith, now, later),
      some_more ++ more,
      q ∙ ap (λ es. es ++ more) e ∙ append_assoc s.tried some_more more,
    )
