-- ===== src/Wal/Batches.antt =====
-- wal.go: appendBatch keeps the promise of a log.
use mathlib.Core.Path.{subst}
use seol.Base.{
  ℕ, ◌+◌, ◌%◌, ◌^◌, ◌≤◌, ◌<◌, Bool, true, false, not, ◌&&◌, ◌≡◌, refl, sym, ap, arith, none, some,
  [], ◌∷◌, ◌++◌, append-nil,
}
use seol.Base.{◌==◌, ==_iff, if◌then◌else◌, length, if_cases, option_cases, not→true, not→false}
use seol.Base.Result.{Error, Result, ok, err, io_error}
use seol.Record.{encode_all}
use seol.Wal.{
  Wal, Outcome, is_some, sync_file, write_and_sync_record_locked, bw_write, set_sync_err,
  append_batch,
}
use seol.Wal.Durable.{Entries, IsDurable}
use seol.Wal.Writes.{
  rejected-IsDurable, buffered-IsDurable, torn_buffer-IsDurable, direct-IsDurable, broken-IsDurable,
  unsynced_batch-IsDurable,
}

and_false : (b : Bool) → (b && false) ≡ false
and_false true = refl
and_false false = refl

append_empty : (xs ys : Entries) → length ys ≡ 0 → xs ++ ys ≡ xs
append_empty xs [] h = append-nil xs
append_empty xs (y ∷ ys) h = absurd (omega arith)

-- The batch's records go to the writer.
unfoldable pub reaches_writer : Wal → Bool
reaches_writer w = (not w.is_closed && not (is_some w.sync_err)) && not w.bw_failed

unfoldable pub tried_after : Wal → Entries → Entries → Entries
tried_after w tried entries = if reaches_writer w then tried ++ entries else tried

unfoldable pub accepted_after : Result (Unit {0}) → ℕ → Entries → ℕ
accepted_after (ok u) accepted entries = accepted + length entries
accepted_after (err e) accepted entries = accepted

module _ (w : Wal) (o : Outcome) (tried entries : Entries) (accepted : ℕ)
    (v : IsDurable w tried accepted) where
  abbrev Kept : Result (Unit {0}) × Wal → Type 0
  Kept answer =
      IsDurable answer.1 (tried_after w tried entries) (accepted_after answer.0 accepted entries)

  unreached :
      {w' : Wal} {n : ℕ}
      → reaches_writer w ≡ false
      → IsDurable w' tried n
      → IsDurable w' (tried_after w tried entries) n
  unfolding tried_after
  unreached {w'} {n} h d =
      if_cases (λ es. IsDurable w' es n) (reaches_writer w) _ _ (λ t. absurd (cc (h, t))) (λ f. d)

  reached :
      {w' : Wal} {n : ℕ}
      → reaches_writer w ≡ true
      → IsDurable w' (tried ++ entries) n
      → IsDurable w' (tried_after w tried entries) n
  unfolding tried_after
  reached {w'} {n} h d =
      if_cases (λ es. IsDurable w' es n) (reaches_writer w) _ _ (λ t. d) (λ f. absurd (cc (h, f)))

  reaches : w.is_closed ≡ false → w.sync_err ≡ none → w.bw_failed ≡ false → reaches_writer w ≡ true
  unfolding reaches_writer is_some
  reaches c s f = rw (c, s, f) refl

  shut : w.is_closed ≡ true → reaches_writer w ≡ false
  unfolding reaches_writer
  shut c = rw c refl

  erred : (x : Error) → w.sync_err ≡ some x → reaches_writer w ≡ false
  unfolding reaches_writer is_some
  erred x q = rw q (ap (λ b. b && not w.bw_failed) (and_false (not w.is_closed)))

  failed : w.bw_failed ≡ true → reaches_writer w ≡ false
  unfolding reaches_writer
  failed f = rw f (and_false (not w.is_closed && not (is_some w.sync_err)))

  empty_batch :
      length entries ≡ 0 → IsDurable w (tried_after w tried entries) (accepted + length entries)
  unfolding tried_after
  empty_batch e =
      let none_added : accepted + length entries ≡ accepted = omega arith in
      subst (λ n. IsDurable w (if reaches_writer w then tried ++ entries else tried) n)
        (sym none_added)
        (if_cases (λ es. IsDurable w es accepted) (reaches_writer w) _ _
          (λ t. subst (λ es. IsDurable w es accepted) (sym (append_empty tried entries e)) v)
          (λ f. v))

  direct_batch :
      length tried + length entries < 2 ^ 64
      → w.is_closed ≡ false
      → w.sync_err ≡ none
      → w.is_buffered ≡ false
      → Kept (
          set_sync_err (
            write_and_sync_record_locked
              (record w { pending = (w.pending + length entries) % 2 ^ 64 })
              o
              (encode_all entries)))
  unfolding set_sync_err write_and_sync_record_locked sync_file accepted_after
  direct_batch small c q d =
      let r = reaches c q (v.unbuffered d).0 in
      if_cases (λ answer. Kept (set_sync_err answer)) o.writes _ _
        (λ s.
          if_cases (λ answer. Kept (set_sync_err answer)) o.syncs _ _
            (λ t.
              reached r (
                direct-IsDurable w tried entries accepted v q small d
                  ((w.sync_count + 1) % 2 ^ 64)))
            (λ t.
              reached r (unsynced_batch-IsDurable w tried entries accepted v q small d io_error)))
        (λ s. reached r (broken-IsDurable w tried entries accepted v q small d io_error o.written))

  -- A batch keeps the promise, for the entries that it adds to those tried and accepted.
  pub append_batch-IsDurable :
      length tried + length entries < 2 ^ 64
      → (o.writes ≡ false → length w.buffered ≤ o.written + o.kept)
      → Kept (append_batch w o entries)
  unfolding append_batch set_sync_err write_and_sync_record_locked sync_file bw_write accepted_after
  append_batch-IsDurable small room =
      if_cases Kept (length entries == 0) _ _ (λ e. empty_batch ((==_iff (length entries) 0).0 e))
        (λ e.
          if_cases Kept w.is_closed _ _ (λ c. unreached (shut c) v)
            (λ c.
              option_cases Kept w.sync_err _ _ (λ x q. unreached (erred x q) v)
                (λ q.
                  if_cases Kept (not w.is_buffered) _ _
                    (λ d. direct_batch small c q (not→false _ d))
                    (λ d.
                      if_cases Kept w.bw_failed _ _
                        (λ f.
                          unreached (failed f)
                            (rejected-IsDurable w tried entries accepted v q small f))
                        (λ f.
                          if_cases Kept o.writes _ _
                            (λ s. reached (reaches c q f) (
                              buffered-IsDurable w tried entries accepted v q small f o.written
                                (not→true _ d)))
                            (λ s. reached (reaches c q f) (
                              torn_buffer-IsDurable w tried entries accepted v q small f o.written
                                o.kept (not→true _ d) (room s))))))))
