-- ===== src/Wal/Examples.antt =====
-- wal.go: two entries, of which a crash cuts the second.
use seol.Base.{ℕ, ◌≤◌, true, false, ◌≡◌, refl, arith, ◌++◌, List, [], ◌∷◌, take}
use seol.Base.Result.{Result, ok}
use seol.Record.{encode, encode_all, AllFit}
use seol.Wal.Replay.{replay, apply_all}
use seol.Wal.{
  Outcome, is_some, sync_file, is_empty, flush_and_sync_locked, bw_write, set_sync_err,
  append_batch, after_wait, sync_round,
}
use seol.Wal.Durable.{Entries}
use seol.Wal.Batches.{reaches_writer, tried_after, accepted_after}
use seol.Wal.Crashes.{
  Action, batch, round, State, step, run, IsAllowed, AreAllowed, create_wal, new_state,
}
use seol.Wal.Survival.{acknowledged-survive}
use seol.Wal.Recovery.{whole, replay_torn_log}

abbrev collect : List ℕ → List ℕ → List (List ℕ × List ℕ) → Result (List (List ℕ × List ℕ))
collect key value s = ok ((key, value) ∷ s)

abbrev two_entries : List (List ℕ × List ℕ)
two_entries = (1 ∷ [], 7 ∷ []) ∷ (2 ∷ [], []) ∷ []

two_entries-AllFit : AllFit two_entries
two_entries-AllFit = (
  record {
    key_bytes = (omega arith, tt);
    value_bytes = (omega arith, tt);
    key_length = omega arith;
    value_length = omega arith;
  },
  (
    record {
      key_bytes = (omega arith, tt);
      value_bytes = tt;
      key_length = omega arith;
      value_length = omega arith;
    },
    tt,
  ),
)

replay_torn_log_example :
    replay collect (take 20 (encode_all two_entries)) []
    ≡ apply_all collect (whole 20 two_entries) []
replay_torn_log_example = replay_torn_log collect two_entries 20 [] two_entries-AllFit

abbrev good_day : Outcome
good_day = record { written = 0; kept = 0; writes = true; syncs = true }

abbrev bad_day : Outcome
bad_day = record { written = 3; kept = 9; writes = false; syncs = true }

-- A batch and a round that makes it durable, and then a batch whose write fails.
abbrev two_actions : List Action
two_actions = batch good_day two_entries ∷ round good_day ∷ []

abbrev failing_action : List Action
failing_action = batch bad_day two_entries ∷ []

abbrev after_two : State
after_two = run (new_state true) two_actions

abbrev after_three : State
after_three = run after_two failing_action

two_actions-AreAllowed : AreAllowed (new_state true) two_actions
unfolding AreAllowed IsAllowed step sync_round flush_and_sync_locked sync_file is_empty set_sync_err
    append_batch bw_write is_some create_wal tried_after reaches_writer encode
two_actions-AreAllowed = ((omega arith, λ e. absurd (cc e)), (tt, tt))

failing_action-IsAllowed : AreAllowed after_two failing_action
unfolding AreAllowed IsAllowed run step sync_round flush_and_sync_locked sync_file is_empty
    set_sync_err append_batch bw_write is_some create_wal tried_after reaches_writer encode
failing_action-IsAllowed = ((omega arith, λ e. omega arith), tt)

after_three-AllFit : AllFit after_three.tried
unfolding run step sync_round flush_and_sync_locked sync_file is_empty set_sync_err append_batch
    bw_write is_some create_wal tried_after reaches_writer encode
after_three-AllFit = (two_entries-AllFit.0, (two_entries-AllFit.1.0, two_entries-AllFit))

two_accepted : 2 ≤ after_two.accepted
unfolding run step sync_round flush_and_sync_locked sync_file is_empty set_sync_err append_batch
    bw_write is_some create_wal accepted_after encode
two_accepted = omega arith

two_acknowledged : after_wait after_two.wal 2 ≡ ok tt
unfolding run step sync_round flush_and_sync_locked sync_file is_empty set_sync_err append_batch
    bw_write is_some create_wal after_wait encode
two_acknowledged = refl

acknowledged-survive_example :
    (more : Entries) × (replay collect (take after_three.wal.synced after_three.wal.file) []
      ≡ apply_all collect (take 2 after_two.tried ++ more) [])
acknowledged-survive_example =
    acknowledged-survive collect true two_actions failing_action 2 after_three.wal.synced []
      two_actions-AreAllowed failing_action-IsAllowed after_three-AllFit two_accepted
      two_acknowledged (omega arith)
