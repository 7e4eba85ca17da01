-- ===== src/Wal/Survival.antt =====
-- wal.go: an acknowledged batch is replayed after a crash.
use native.Mathlib.Decide.{dec_le}
use seol.Base.{
  ℕ, zero, suc, ◌-◌, ◌≤◌, min, Bool, ◌≡◌, refl, sym, ap, ◌∙◌, arith, List, [], ◌∷◌, ◌++◌,
}
use seol.Base.{
  ltb, le→leb, length, take, length-append, take-append_le, take_all, Bool-cases, Option-cases, inl,
  inr,
}
use seol.Base.Result.{Result, ok}
use seol.Record.{encode, encode_all, AllFit}
use seol.Wal.{Wal, after_wait}
use seol.Wal.Replay.{replay, apply_all}
use seol.Wal.Recovery.{whole, replay_torn_log}
use seol.Wal.Durable.{Entries, size_of, size_of_mono}
use seol.Wal.Grows.{run_grows}
use seol.Wal.Crashes.{Action, run, AreAllowed, new_state, run-IsDurable, create_wal-IsDurable}

-- The first entries are whole in a log that is long enough for them.
whole_first :
    (tried : Entries) (t n : ℕ)
    → t ≤ length tried
    → size_of tried t ≤ n
    → (more : Entries) × (whole n tried ≡ take t tried ++ more)
whole_first tried zero n h le = (whole n tried, refl)
whole_first [] (suc t) n h le = absurd (omega arith)
whole_first ((key, value) ∷ tried) (suc t) n h le =
    let split = length-append (encode key value) (encode_all (take t tried)) in
    let (more, e) =
      whole_first tried t (n - length (encode key value)) (omega arith) (omega (arith, split)) in
    (
      more,
      rw (le→leb (length (encode key value)) n (omega (arith, split)))
          (ap (λ (es : Entries). (key, value) ∷ es) e),
    )

take_within : (m : ℕ) (file tail : List ℕ) → take m file ≡ take (min m (length file)) (file ++ tail)
take_within m file tail =
    take_min m file ∙ sym (take-append_le (min m (length file)) file tail (omega arith))
  where
    take_min : (m : ℕ) (file : List ℕ) → take m file ≡ take (min m (length file)) file
    take_min m file = elim (dec_le m (length file)) [
      | yes p ↦ let same : m ≡ min m (length file) = omega arith in ap (λ k. take k file) same
      | no p ↦
          take_all m file (omega arith) ∙ sym (take_all (min m (length file)) file (omega arith))
    ]

acknowledged : (w : Wal) (t : ℕ) → after_wait w t ≡ ok tt → t ≤ w.durable
unfolding after_wait
acknowledged w t e = elim (Option-cases w.sync_err) [
  | inr (x, q) ↦ absurd (cc (rw q at e))
  | inl q ↦ elim (Bool-cases (ltb w.durable t)) [
    | inl h ↦ absurd (cc (rw (q, h) at e))
    | inr h ↦ ground (arith, h)
  ]
]

module _ {ℓ} {S : Type ℓ} (fn : List ℕ → List ℕ → S → Result S) where
  -- Durability. From a new log on, with a sync loop or without, whatever batches, rounds of the loop
  -- and closings follow one another and however their writes and syncs end: if at some point the
  -- wait for the first t of the accepted entries has succeeded, then, whatever follows it and
  -- however that ends, a crash that leaves of the file what was synced by then, or more, leaves a
  -- log whose replay, with any callback, is the callback on these t entries, in order, and on others
  -- after them. The entries fit the record format, the counters do not overflow, and a bufio.Writer
  -- that fails keeps what it held and did not write.
  pub acknowledged-survive :
      (is_buffered : Bool) (actions later : List Action) (t m : ℕ) (st : S)
      → AreAllowed (new_state is_buffered) actions
      → AreAllowed (run (new_state is_buffered) actions) later
      → AllFit (run (run (new_state is_buffered) actions) later).tried
      → t ≤ (run (new_state is_buffered) actions).accepted
      → after_wait (run (new_state is_buffered) actions).wal t ≡ ok tt
      → (run (run (new_state is_buffered) actions) later).wal.synced ≤ m
      → (more : Entries) × (replay fn
            (take m (run (run (new_state is_buffered) actions) later).wal.file)
            st
          ≡ apply_all fn (take t (run (new_state is_buffered) actions).tried ++ more) st)
  acknowledged-survive is_buffered actions later t m st allowed allowed' fits le acked kept =
      let s = run (new_state is_buffered) actions in
      let v =
        run-IsDurable (new_state is_buffered) actions allowed (create_wal-IsDurable is_buffered) in
      let s' = run s later in
      let v' = run-IsDurable s later allowed' v in
      let (grows, others, extended) = run_grows s later allowed' v in
      let n = min m (length s'.wal.file) in
      let early : t ≤ s.wal.durable = acknowledged s.wal t acked in
      let within : t ≤ length s.tried = omega (arith, le, v.accepted_le) in
      let first : take t s'.tried ≡ take t s.tried =
        ap (take t) extended ∙ take-append_le t s.tried others within in
      let room : size_of s'.tried t ≤ n = omega (
        arith,
        v.kept,
        v'.synced_le,
        kept,
        grows,
        ap (λ es. length (encode_all es)) first,
        size_of_mono s.tried t (min s.wal.durable s.accepted) (omega arith),
      ) in
      let (more, e) =
        whole_first s'.tried t n
          (omega (arith, within, ap length extended, length-append s.tried others)) room in
      (
        more,
        ap (λ bytes. replay fn bytes st) (take_within m s'.wal.file v'.tail ∙ ap (take n) v'.begins)
            ∙ replay_torn_log fn s'.tried n st fits
            ∙ ap (λ es. apply_all fn es st) (e ∙ ap (λ es. es ++ more) first),
      )
