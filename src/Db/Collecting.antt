-- ===== src/Db/Collecting.antt =====
-- db.go: collectWriteBatch and drainQueuedWrites, over the queue of the channel. `none` is the nil
-- that stopWrites sends.
use mathlib.Core.Path.{subst}
use seol.Base.{
  ◌⊎◌, ℕ, ◌<◌, ◌≤◌, Bool, true, false, not, ◌&&◌, ◌||◌, ◌≡◌, refl, sym, ap, ◌∙◌, arith, Option,
  none, some, List, [], ◌∷◌, ◌++◌, map, append_assoc, inl, inr,
}
use seol.Base.{ltb, ◌==◌, if◌then◌else◌, length, length-append, Bool-cases}
use seol.Sstable.Blocks.{Entry}

-- The capacity of the batch's slice.
abbrev pub batch_capacity : ℕ
batch_capacity = 256

pub record Collected : Type 0 where
  pub batch : List Entry
  pub closing : Bool
  pub queue : List (Option Entry)

unfoldable pub drain_queued_writes : List (Option Entry) → List Entry → Collected
drain_queued_writes [] batch = record { batch = batch; closing = false; queue = [] }
drain_queued_writes (none ∷ queue) batch =
    if ltb (length batch) batch_capacity
    then record { batch = batch; closing = true; queue = queue }
    else record { batch = batch; closing = false; queue = none ∷ queue }
drain_queued_writes (some req ∷ queue) batch =
    let rest = drain_queued_writes queue (batch ++ req ∷ []) in
    if ltb (length batch) batch_capacity
    then rest
    else record { batch = batch; closing = false; queue = some req ∷ queue }

-- What the wait depends on: the options, whose durations are 0 where they are not positive, and the
-- submitters.
pub record Waiting : Type 0 where
  pub write_batch_window : ℕ
  pub async_writes : Bool
  pub wal_sync_interval : ℕ
  pub submitters : ℕ

unfoldable pub should_wait_for_group_commit : Waiting → List (Option Entry) → Bool
should_wait_for_group_commit w queue =
    if w.write_batch_window == 0
    then false
    else if w.async_writes && ltb 0 w.wal_sync_interval
    then false
    else if ltb 0 (length queue)
    then true
    else ltb 0 w.submitters

-- After the wait the queue also has what arrived.
unfoldable pub drain_more : List (Option Entry) → Collected → Collected
unfolding drain_queued_writes
drain_more arrived c = drain_queued_writes (c.queue ++ arrived) c.batch

unfoldable pub wait_and_drain : Waiting → List (Option Entry) → Collected → Collected
unfolding drain_more should_wait_for_group_commit
wait_and_drain w arrived c =
    if c.closing || length c.batch == batch_capacity || not (should_wait_for_group_commit w c.queue)
    then c
    else drain_more arrived c

unfoldable pub collect_write_batch :
    Waiting → List (Option Entry) → Entry → List (Option Entry) → Collected
unfolding wait_and_drain drain_queued_writes
collect_write_batch w arrived first queue =
    wait_and_drain w arrived (drain_queued_writes queue (first ∷ []))

-- What the channel had, in order: the batch, the nil that ended it, and what is left.
abbrev pub received : Collected → List (Option Entry)
received c = map some c.batch ++ (if c.closing then none ∷ c.queue else c.queue)

map-some-append :
    (batch : List Entry) (req : Entry) (queue : List (Option Entry))
    → map some (batch ++ req ∷ []) ++ queue ≡ map some batch ++ (some req ∷ queue)
map-some-append [] req queue = refl
map-some-append (e ∷ batch) req queue =
    ap (λ (q : List (Option Entry)). some e ∷ q) (map-some-append batch req queue)

-- A drain keeps the order and loses nothing, and the batch stays within the capacity.
pub record Drained (channel : List (Option Entry)) (c : Collected) : Type 0 where
  pub in_order : received c ≡ channel
  pub bounded : length c.batch ≤ batch_capacity
  pub some_request : 0 < length c.batch
  pub is_rest : c.closing ≡ false → length c.batch < batch_capacity → c.queue ≡ []

ltb→le : (n : ℕ) → ltb n batch_capacity ≡ false → batch_capacity ≤ n
ltb→le n e = ground arith

ltb→lt : (n : ℕ) → ltb n batch_capacity ≡ true → n < batch_capacity
ltb→lt n e = ground arith

goes : (a b c : Bool) → (a || b || not c) ≡ false → (a ≡ false) × (c ≡ true)
goes true b c e = absurd (cc e)
goes false true c e = absurd (cc e)
goes false false true e = (refl, refl)
goes false false false e = absurd (cc e)

has_window :
    (w : Waiting) (queue : List (Option Entry))
    → should_wait_for_group_commit w queue ≡ true
    → 0 < w.write_batch_window
unfolding should_wait_for_group_commit
has_window w queue e = ground arith

-- A full batch.
stopped :
    (queue : List (Option Entry)) (batch : List Entry)
    → length batch ≤ batch_capacity
    → 0 < length batch
    → batch_capacity ≤ length batch
    → Drained (map some batch ++ queue) (record { batch = batch; closing = false; queue = queue })
stopped queue batch h k full = record {
  in_order = refl;
  bounded = h;
  some_request = k;
  is_rest = λ e below. absurd (omega (arith, below));
}

drain_queued_writes-Drained :
    (queue : List (Option Entry)) (batch : List Entry)
    → length batch ≤ batch_capacity
    → 0 < length batch
    → Drained (map some batch ++ queue) (drain_queued_writes queue batch)
unfolding drain_queued_writes
drain_queued_writes-Drained [] batch h k = record {
  in_order = refl;
  bounded = h;
  some_request = k;
  is_rest = λ e room. refl;
}
drain_queued_writes-Drained (none ∷ queue) batch h k =
    elim (Bool-cases (ltb (length batch) batch_capacity)) [
      | inl room ↦ rw room (record {
        in_order = refl;
        bounded = h;
        some_request = k;
        is_rest = λ e below. absurd (cc e);
      })
      | inr full ↦ rw full (stopped (none ∷ queue) batch h k (ltb→le (length batch) full))
    ]
drain_queued_writes-Drained (some req ∷ queue) batch h k =
    elim (Bool-cases (ltb (length batch) batch_capacity)) [
      | inl room ↦ rw room (
          subst (λ q. Drained q (drain_queued_writes queue (batch ++ req ∷ [])))
            (map-some-append batch req queue)
            (drain_queued_writes-Drained queue (batch ++ req ∷ [])
              (omega (arith, length-append batch (req ∷ []), ltb→lt (length batch) room))
              (omega (arith, length-append batch (req ∷ [])))))
      | inr full ↦ rw full (stopped (some req ∷ queue) batch h k (ltb→le (length batch) full))
    ]

received_again :
    (c : Collected) (arrived : List (Option Entry))
    → c.closing ≡ false
    → map some c.batch ++ (c.queue ++ arrived) ≡ received c ++ arrived
received_again c arrived e = rw e (sym (append_assoc (map some c.batch) c.queue arrived))

-- A batch of requests is at least the first one and at most 256, and takes the requests from the
-- channel in order: the batch, the nil that ended it and what is left in the channel are what the
-- channel had, and, if there is a window to wait, possibly what arrived meanwhile; a batch that is
-- neither full nor ended by the nil leaves nothing.
pub collect_write_batch-Drained :
    (w : Waiting) (arrived : List (Option Entry)) (first : Entry) (queue : List (Option Entry))
    → let c = collect_write_batch w arrived first queue in
      Drained (some first ∷ queue) c
      ⊎ ((0 < w.write_batch_window) × Drained (some first ∷ (queue ++ arrived)) c)
unfolding collect_write_batch wait_and_drain drain_more
collect_write_batch-Drained w arrived first queue =
    let d = drain_queued_writes-Drained queue (first ∷ []) (omega arith) (omega arith) in
    waited (drain_queued_writes queue (first ∷ [])) d
  where
    waited :
        (c : Collected)
        → Drained (some first ∷ queue) c
        → Drained (some first ∷ queue) (wait_and_drain w arrived c)
          ⊎ ((0 < w.write_batch_window)
              × Drained (some first ∷ (queue ++ arrived)) (wait_and_drain w arrived c))
    waited c d =
        elim (Bool-cases (
          c.closing
          || length c.batch == batch_capacity
          || not (should_wait_for_group_commit w c.queue))) [
            | inl done ↦ rw done (inl d)
            | inr goes_on ↦
                let (open_queue, waits) = goes c.closing _ _ goes_on in
                let channel =
                  received_again c arrived open_queue ∙ ap (λ q. q ++ arrived) d.in_order in
                rw goes_on (
                  inr (
                    has_window w c.queue waits,
                    subst (λ q. Drained q (drain_queued_writes (c.queue ++ arrived) c.batch))
                        channel
                        (drain_queued_writes-Drained (c.queue ++ arrived) c.batch d.bounded
                          d.some_request),
                  ))
          ]
