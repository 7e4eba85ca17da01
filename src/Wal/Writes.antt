-- ===== src/Wal/Writes.antt =====
-- wal.go: what the writes of a batch leave in a log.
use seol.Base.{
  ℕ, ◌+◌, ◌%◌, ◌^◌, ◌≤◌, ◌<◌, min, true, false, ◌≡◌, refl, sym, ap, ◌∙◌, arith, none, some, List,
  [], ◌++◌, append_assoc, append-nil,
}
use seol.Base.{length, take, drop, length-append, length-take, length-drop}
use seol.Base.Result.{Error}
use seol.Record.{encode_all}
use seol.Wal.{Wal}
use seol.Wal.Durable.{
  Entries, size_of, encode_all-append, size_of_mono, size_of-append, size_of_all, IsDurable,
  split_append,
}

module _ (w : Wal) (tried entries : Entries) (accepted : ℕ) (v : IsDurable w tried accepted)
    (alive : w.sync_err ≡ none) (small : length tried + length entries < 2 ^ 64) where
  abbrev pub records : List ℕ
  records = encode_all entries

  abbrev pub pending : ℕ
  pending = (w.pending + length entries) % 2 ^ 64

  -- The promise of what was kept so far, with more tried.
  pub kept_more : size_of (tried ++ entries) (min w.durable accepted) ≤ w.synced
  kept_more = omega (
    arith,
    v.kept,
    v.accepted_le,
    size_of-append tried entries (min w.durable accepted) (omega (arith, v.accepted_le)),
  )

  pub kept_all :
      w.durable ≤ accepted
      → size_of (tried ++ entries) (min w.durable (accepted + length entries)) ≤ w.synced
  kept_all h =
      let same : min w.durable (accepted + length entries) ≡ min w.durable accepted = omega arith in
      rw same kept_more

  pub extended :
      (file rest : List ℕ)
      → file ++ rest ≡ encode_all tried
      → file ++ (rest ++ records) ≡ encode_all (tried ++ entries)
  extended file rest e =
      sym (append_assoc file rest records)
      ∙ ap (λ bytes. bytes ++ records) e
      ∙ sym (encode_all-append tried entries)

  pub rejected-IsDurable :
      w.bw_failed ≡ true → IsDurable (record w { pending = pending }) tried accepted
  rejected-IsDurable f = record {
    tail = v.tail;
    begins = v.begins;
    synced_le = v.synced_le;
    accepted_le = v.accepted_le;
    held = v.held;
    kept = v.kept;
    healthy = λ q g. absurd (cc (f, g));
    unbuffered = λ u. let (g, b, d) = v.unbuffered u in absurd (cc (f, g));
  }

  module _ (works : w.bw_failed ≡ false) where
    pub whole : w.file ++ w.buffered ≡ encode_all tried
    whole = (v.healthy alive works).0

    pub written_out :
        (n : ℕ)
        → (w.file ++ take n (w.buffered ++ records)) ++ drop n (w.buffered ++ records)
          ≡ encode_all (tried ++ entries)
    written_out n =
        split_append w.file (w.buffered ++ records) [] n ∙ extended w.file w.buffered whole

    pub buffered-IsDurable :
        (n : ℕ)
        → w.is_buffered ≡ true
        → IsDurable
            (record w {
              pending = pending;
              file = w.file ++ take n (w.buffered ++ records);
              buffered = drop n (w.buffered ++ records);
            })
            (tried ++ entries)
            (accepted + length entries)
    buffered-IsDurable n mode =
        let (all, a, p, le) = v.healthy alive works in
        let total : accepted + length entries ≡ length (tried ++ entries) =
          omega (arith, a, length-append tried entries) in
        let split = ap length (written_out n) in
        record {
          tail = drop n (w.buffered ++ records);
          begins = written_out n;
          synced_le =
              omega (arith, v.synced_le, length-append w.file (take n (w.buffered ++ records)));
          accepted_le = omega (arith, total);
          held = λ q. omega (
            arith,
            split,
            size_of_all (tried ++ entries) (accepted + length entries) total,
            length-append (w.file ++ take n (w.buffered ++ records))
                (drop n (w.buffered ++ records)),
          );
          kept = kept_all (omega (arith, a, p, le));
          healthy = λ q f. (
            written_out n,
            total,
            omega (arith, p, length-append tried entries),
            omega (arith, p, le),
          );
          unbuffered = λ u. absurd (cc (u, mode));
        }

    pub torn_buffer-IsDurable :
        (n m : ℕ)
        → w.is_buffered ≡ true
        → length w.buffered ≤ n + m
        → IsDurable
            (record w {
              pending = pending;
              file = w.file ++ take n (w.buffered ++ records);
              buffered = take m (drop n (w.buffered ++ records));
              bw_failed = true;
            })
            (tried ++ entries)
            accepted
    torn_buffer-IsDurable n m mode room =
        let a = (v.healthy alive works).1 in
        let bytes = w.buffered ++ records in
        record {
          tail = drop n bytes;
          begins = written_out n;
          synced_le = omega (arith, v.synced_le, length-append w.file (take n bytes));
          accepted_le = omega (arith, v.accepted_le, length-append tried entries);
          held = λ q. omega (
            arith,
            size_of-append tried entries accepted v.accepted_le,
            size_of_all tried accepted a,
            ap length whole,
            length-append w.file w.buffered,
            length-append w.buffered records,
            length-append w.file (take n bytes),
            length-take n bytes,
            length-drop n bytes,
            length-take m (drop n bytes),
            room,
          );
          kept = kept_more;
          healthy = λ q f. absurd (cc f);
          unbuffered = λ u. absurd (cc (u, mode));
        }

  module _ (direct : w.is_buffered ≡ false) where
    pub works : w.bw_failed ≡ false
    works = (v.unbuffered direct).0

    pub written_whole : w.file ++ records ≡ encode_all (tried ++ entries)
    written_whole =
        let none_left : w.buffered ≡ [] = (v.unbuffered direct).1 in
        extended w.file []
          (ap (λ bytes. w.file ++ bytes) (sym none_left) ∙ (v.healthy alive works).0)

    pub direct-IsDurable :
        (count : ℕ)
        → IsDurable
            (record w {
              pending = pending;
              file = w.file ++ records;
              synced = length (w.file ++ records);
              sync_count = count;
              durable = pending;
            })
            (tried ++ entries)
            (accepted + length entries)
    direct-IsDurable count =
        let (all, a, p, le) = v.healthy alive works in
        let none_left : w.buffered ≡ [] = (v.unbuffered direct).1 in
        let total : accepted + length entries ≡ length (tried ++ entries) =
          omega (arith, a, length-append tried entries) in
        let every = size_of_all (tried ++ entries) (accepted + length entries) total in
        record {
          tail = [];
          begins = append-nil (w.file ++ records) ∙ written_whole;
          synced_le = omega arith;
          accepted_le = omega (arith, total);
          held = λ q. omega (arith, every, ap length written_whole);
          kept = omega (
            arith,
            every,
            ap length written_whole,
            size_of_mono (tried ++ entries) (min pending (accepted + length entries))
                (accepted + length entries) (omega arith),
          );
          healthy = λ q f. (
            ap (λ bytes. (w.file ++ records) ++ bytes) none_left
                ∙ append-nil (w.file ++ records)
                ∙ written_whole,
            total,
            omega (arith, p, length-append tried entries),
            omega arith,
          );
          unbuffered = λ u. (works, none_left, λ q. refl);
        }

    pub broken-IsDurable :
        (e : Error) (n : ℕ)
        → IsDurable
            (record w { pending = pending; file = w.file ++ take n records; sync_err = some e })
            (tried ++ entries)
            accepted
    broken-IsDurable e n = record {
      tail = drop n records;
      begins = split_append w.file records [] n ∙ written_whole;
      synced_le = omega (arith, v.synced_le, length-append w.file (take n records));
      accepted_le = omega (arith, v.accepted_le, length-append tried entries);
      held = λ q. absurd (cc q);
      kept = kept_more;
      healthy = λ q f. absurd (cc q);
      unbuffered = λ u. (works, (v.unbuffered u).1, λ q. absurd (cc q));
    }

    pub unsynced_batch-IsDurable :
        (e : Error)
        → IsDurable
            (record w { pending = pending; file = w.file ++ records; sync_err = some e })
            (tried ++ entries)
            accepted
    unsynced_batch-IsDurable e = record {
      tail = [];
      begins = append-nil (w.file ++ records) ∙ written_whole;
      synced_le = omega (arith, v.synced_le, length-append w.file records);
      accepted_le = omega (arith, v.accepted_le, length-append tried entries);
      held = λ q. absurd (cc q);
      kept = kept_more;
      healthy = λ q f. absurd (cc q);
      unbuffered = λ u. (works, (v.unbuffered u).1, λ q. absurd (cc q));
    }
