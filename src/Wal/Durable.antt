-- ===== src/Wal/Durable.antt =====
-- wal.go: what a log keeps to, over batches, rounds of the sync loop and close.
use seol.Base.{
  ℕ, zero, suc, ◌+◌, ◌%◌, ◌^◌, ◌≤◌, min, Bool, true, false, not, ◌&&◌, ◌≡◌, refl, sym, ap, ◌∙◌,
  arith, Option, none, some, List, [], ◌∷◌, ◌++◌, append_assoc, append-nil, inl, inr,
}
use seol.Base.{
  ltb, length, take, drop, length-append, take-append-drop, take-append_le, take_all, Bool-cases,
  if_cases,
}
use seol.Base.Result.{Error, Result, io_error}
use seol.Record.{encode, encode_all}
use seol.Wal.{
  Wal, Outcome, is_some, sync_file, is_empty, flush_and_sync_locked, set_sync_err, sync_round,
}

abbrev pub Entries : Type 0
Entries = List (List ℕ × List ℕ)

-- How long the records of the first n entries are.
abbrev pub size_of : Entries → ℕ → ℕ
size_of tried n = length (encode_all (take n tried))

pub encode_all-append : (xs ys : Entries) → encode_all (xs ++ ys) ≡ encode_all xs ++ encode_all ys
encode_all-append [] ys = refl
encode_all-append ((key, value) ∷ xs) ys =
    ap (λ bytes. encode key value ++ bytes) (encode_all-append xs ys)
    ∙ sym (append_assoc (encode key value) (encode_all xs) (encode_all ys))

pub size_of_mono : (tried : Entries) (n m : ℕ) → n ≤ m → size_of tried n ≤ size_of tried m
size_of_mono tried zero m h = omega arith
size_of_mono tried (suc n) zero h = absurd (omega arith)
size_of_mono [] (suc n) (suc m) h = omega arith
size_of_mono ((key, value) ∷ tried) (suc n) (suc m) h = omega (
  arith,
  size_of_mono tried n m (omega arith),
  length-append (encode key value) (encode_all (take n tried)),
  length-append (encode key value) (encode_all (take m tried)),
)

pub size_of-append :
    (tried more : Entries) (n : ℕ) → n ≤ length tried → size_of (tried ++ more) n ≡ size_of tried n
size_of-append tried more n h = ap (λ es. length (encode_all es)) (take-append_le n tried more h)

pub size_of_all :
    (tried : Entries) (n : ℕ) → n ≡ length tried → size_of tried n ≡ length (encode_all tried)
size_of_all tried n h = ap (λ es. length (encode_all es)) (take_all n tried (omega arith))

-- `tried` are the entries whose records went to the writer before it failed, and `accepted` says how
-- many of them stand in batches that were accepted.
pub record IsDurable (w : Wal) (tried : Entries) (accepted : ℕ) : Type 0 where
  pub tail : List ℕ
  pub begins : w.file ++ tail ≡ encode_all tried
  pub synced_le : w.synced ≤ length w.file
  pub accepted_le : accepted ≤ length tried
  pub held : w.sync_err ≡ none → size_of tried accepted ≤ length w.file + length w.buffered
  pub kept : size_of tried (min w.durable accepted) ≤ w.synced
  pub healthy :
      w.sync_err ≡ none
      → w.bw_failed ≡ false
      → (w.file ++ w.buffered ≡ encode_all tried)
        × (accepted ≡ length tried)
        × (w.pending ≡ length tried)
        × (w.durable ≤ w.pending)
  pub unbuffered :
      w.is_buffered ≡ false
      → (w.bw_failed ≡ false) × (w.buffered ≡ []) × (w.sync_err ≡ none → w.durable ≡ w.pending)

empty_buffer : (b : List ℕ) → is_empty b ≡ true → b ≡ []
unfolding is_empty
empty_buffer [] e = refl
empty_buffer (x ∷ b) e = absurd (cc e)

full_buffer : (b : List ℕ) → b ≡ [] → is_empty b ≡ false → true ≡ false
unfolding is_empty
full_buffer [] q e = e
full_buffer (x ∷ b) q e = absurd (cc q)

pub split_append :
    (file bytes rest : List ℕ) (n : ℕ) → (file ++ take n bytes) ++ drop n bytes ≡ file ++ bytes
split_append file bytes rest n =
    append_assoc file (take n bytes) (drop n bytes)
    ∙ ap (λ bs. file ++ bs) (take-append-drop n bytes)

module _ (w : Wal) (tried : Entries) (accepted : ℕ) (v : IsDurable w tried accepted)
    (alive : w.sync_err ≡ none) where
  -- A failure that leaves the file as it is.
  failed-IsDurable : (e : Error) → IsDurable (record w { sync_err = some e }) tried accepted
  failed-IsDurable e = record {
    tail = v.tail;
    begins = v.begins;
    synced_le = v.synced_le;
    accepted_le = v.accepted_le;
    held = λ q. absurd (cc q);
    kept = v.kept;
    healthy = λ q f. absurd (cc q);
    unbuffered = λ u. ((v.unbuffered u).0, (v.unbuffered u).1, λ q. absurd (cc q));
  }

  -- A write of the buffer that fails after some bytes.
  torn_flush-IsDurable :
      (e : Error) (n : ℕ)
      → w.bw_failed ≡ false
      → w.is_buffered ≡ true
      → IsDurable
          (record w {
            file = w.file ++ take n w.buffered;
            buffered = drop n w.buffered;
            bw_failed = true;
            sync_err = some e;
          })
          tried
          accepted
  torn_flush-IsDurable e n f mode = record {
    tail = drop n w.buffered;
    begins = split_append w.file w.buffered [] n ∙ (v.healthy alive f).0;
    synced_le = omega (arith, v.synced_le, length-append w.file (take n w.buffered));
    accepted_le = v.accepted_le;
    held = λ q. absurd (cc q);
    kept = v.kept;
    healthy = λ q f. absurd (cc q);
    unbuffered = λ u. absurd (cc (u, mode));
  }

  -- The buffer reaches the file, but the sync fails.
  unsynced-IsDurable :
      (e : Error)
      → w.bw_failed ≡ false
      → IsDurable
          (record w { file = w.file ++ w.buffered; buffered = []; sync_err = some e })
          tried
          accepted
  unsynced-IsDurable e f = record {
    tail = [];
    begins = append-nil (w.file ++ w.buffered) ∙ (v.healthy alive f).0;
    synced_le = omega (arith, v.synced_le, length-append w.file w.buffered);
    accepted_le = v.accepted_le;
    held = λ q. absurd (cc q);
    kept = v.kept;
    healthy = λ q f. absurd (cc q);
    unbuffered = λ u. ((v.unbuffered u).0, refl, λ q. absurd (cc q));
  }

  -- A flush and a sync that succeed.
  synced-IsDurable :
      (count : ℕ)
      → w.bw_failed ≡ false
      → IsDurable
          (record w {
            file = w.file ++ w.buffered;
            buffered = [];
            synced = length (w.file ++ w.buffered);
            sync_count = count;
            durable = w.pending;
          })
          tried
          accepted
  synced-IsDurable count f =
      let (whole, all, pending, le) = v.healthy alive f in
      let room : size_of tried accepted ≡ length (w.file ++ w.buffered) =
        size_of_all tried accepted all ∙ ap length (sym whole) in
      record {
        tail = [];
        begins = append-nil (w.file ++ w.buffered) ∙ whole;
        synced_le = omega arith;
        accepted_le = v.accepted_le;
        held = λ q. omega (arith, room);
        kept =
            omega (arith, room, size_of_mono tried (min w.pending accepted) accepted (omega arith));
        healthy = λ q g. (append-nil (w.file ++ w.buffered) ∙ whole, all, pending, omega arith);
        unbuffered = λ u. ((v.unbuffered u).0, refl, λ q. refl);
      }

  -- A sync with nothing to flush, whether the writer has failed or not.
  flushed-IsDurable :
      (count : ℕ)
      → w.buffered ≡ []
      → IsDurable
          (record w { synced = length w.file; sync_count = count; durable = w.pending })
          tried
          accepted
  flushed-IsDurable count none_left =
      let room : size_of tried accepted ≤ length w.file + length w.buffered = v.held alive in
      let zero_left : length w.buffered ≡ 0 = ap length none_left in
      record {
        tail = v.tail;
        begins = v.begins;
        synced_le = omega arith;
        accepted_le = v.accepted_le;
        held = λ q. room;
        kept = omega (
          arith,
          room,
          zero_left,
          size_of_mono tried (min w.pending accepted) accepted (omega arith),
        );
        healthy = λ q g. let (a, b, c, d) = v.healthy q g in (a, b, c, omega arith);
        unbuffered = λ u. ((v.unbuffered u).0, (v.unbuffered u).1, λ q. refl);
      }

  abbrev Kept : Result (Unit {0}) × Wal → Type 0
  Kept answer = IsDurable (set_sync_err answer).1 tried accepted

  flush-IsDurable :
      (o : Outcome) → IsDurable (set_sync_err (flush_and_sync_locked w o)).1 tried accepted
  unfolding flush_and_sync_locked sync_file set_sync_err
  flush-IsDurable o =
      if_cases Kept (is_empty w.buffered) _ _
        (λ e.
          if_cases Kept o.syncs _ _
            (λ s. flushed-IsDurable ((w.sync_count + 1) % 2 ^ 64) (empty_buffer w.buffered e))
            (λ s. failed-IsDurable io_error))
        (λ e.
          if_cases Kept w.bw_failed _ _ (λ f. failed-IsDurable io_error)
            (λ f.
              if_cases Kept o.writes _ _
                (λ s.
                  if_cases Kept o.syncs _ _ (λ t. synced-IsDurable ((w.sync_count + 1) % 2 ^ 64) f)
                    (λ t. unsynced-IsDurable io_error f))
                (λ s. torn_flush-IsDurable io_error o.written f (mode e))))
    where
      mode : is_empty w.buffered ≡ false → w.is_buffered ≡ true
      mode e = elim (Bool-cases w.is_buffered) [
        | inl b ↦ b
        | inr u ↦ absurd (cc (full_buffer w.buffered (v.unbuffered u).1 e))
      ]

pub no_error : (e : Option Error) (b : Bool) → (b && not (is_some e)) ≡ true → e ≡ none
unfolding is_some
no_error none b h = refl
no_error (some e) true h = absurd (cc h)
no_error (some e) false h = absurd (cc h)

-- A round of the sync loop keeps the promise.
pub sync_round-IsDurable :
    (w : Wal) (o : Outcome) (tried : Entries) (accepted : ℕ)
    → IsDurable w tried accepted
    → IsDurable (sync_round w o).1 tried accepted
unfolding sync_round is_some
sync_round-IsDurable w o tried accepted v =
    if_cases (λ (answer : Bool × Wal). IsDurable answer.1 tried accepted)
      (ltb w.durable w.pending && not (is_some w.sync_err)) _ _
      (λ h. flush-IsDurable w tried accepted v (no_error w.sync_err (ltb w.durable w.pending) h) o)
      (λ h. v)
