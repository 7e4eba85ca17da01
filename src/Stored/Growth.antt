-- ===== src/Stored/Growth.antt =====
-- value_ref.go: what is stored resolves alike while the value log grows, and what is stored next
-- resolves to the value that was given.
use native.Mathlib.Decide.{dec_le}
use seol.Base.{ℕ, ◌+◌, ◌^◌, ◌≤◌, ◌<◌, ◌≡◌, refl, ap, ◌∙◌, arith, inl, inr}
use seol.Base.{
  Option, none, some, List, le→leb, lt→leb, if◌then◌else◌, length, Bool-cases, Option-cases,
}
use seol.Base.Result.{Result, ok, err, bind_both}
use seol.Record.{encode, Fits}
use seol.Vlog.{Log, Segment, Outcome, append}
use seol.Vlog.Ref.{ValueRef}
use seol.Vlog.Read.{read_value}
use seol.Vlog.Extends.{IsOpen, Extends, Extends-refl}
use seol.Vlog.Growth.{read_value-Extends}
use seol.Vlog.Promises.{append-Promise}
use seol.Stored.{
  decode_value_ref, is_tombstone_value, tombstone_value, wrap_append, append_value,
  store_value_for_lsm, Resolved, value, deleted, resolve_stored_value,
}
use seol.Stored.RoundTrip.{resolve-store}

-- What resolves in a log resolves alike in every extension.
pub resolve_stored_value-Extends :
    {l l' : Log} (stored : List ℕ) (r : Resolved)
    → Extends l l'
    → resolve_stored_value (some l) stored ≡ ok r
    → resolve_stored_value (some l') stored ≡ ok r
unfolding resolve_stored_value
resolve_stored_value-Extends {l} {l'} stored r x e = elim (Bool-cases (is_tombstone_value stored)) [
  | inl t ↦ rw t (rw t at e)
  | inr t ↦ elim (Option-cases (decode_value_ref stored)) [
    | inl d ↦ rw (t, d) (rw (t, d) at e)
    | inr (ref, d) ↦
        rw (t, d)
          (bind_both (read_value l ref) (read_value l' ref) (λ v. ok (value v)) (λ v. ok (value v))
            r (λ v. read_value-Extends ref v x) (λ v q. q) (rw (t, d) at e))
  ]
]

-- What a value resolves to.
abbrev pub resolved_of : List ℕ → Resolved
resolved_of v = if is_tombstone_value v then deleted else value v

-- What a call of storeValueForLSM promises, whatever the environment does.
pub record StoreStep (l : Log) (seg : Segment) (key v : List ℕ)
    (answer : Result (List ℕ) × Option Log) : Type 0 where
  pub after : Log
  pub segment : Segment
  pub is_after : answer.1 ≡ some after
  pub extends : Extends l after
  pub opened : IsOpen after segment
  pub room : segment.size ≤ seg.size + length (encode key v)
  pub resolves :
      (stored : List ℕ)
      → answer.0 ≡ ok stored
      → resolve_stored_value (some after) stored ≡ ok (resolved_of v)

module _ (l : Log) (o : Outcome) (seg : Segment) (threshold : ℕ) (key v : List ℕ)
    (opened : IsOpen l seg) (f : Fits key v) (room : seg.size + length (encode key v) < 2 ^ 63)
    (plain : length v ≤ threshold → decode_value_ref v ≡ none) where
  -- Where the value log stays as it is.
  unchanged-Step :
      (r : Result (List ℕ))
      → store_value_for_lsm (some l) o threshold key v ≡ (r, some l)
      → StoreStep l seg key v (store_value_for_lsm (some l) o threshold key v)
  unchanged-Step r e = record {
    after = l;
    segment = seg;
    is_after = ap (λ a. a.1) e;
    extends = Extends-refl l;
    opened = opened;
    room = omega arith;
    resolves = λ stored q.
        resolve-store l o seg threshold key v stored (some l) opened f room plain (cc (e, q));
  }

  wrapped : (answer : Result ValueRef × Log) → (wrap_append answer).1 ≡ some answer.1
  unfolding wrap_append
  wrapped (ok ref, l') = refl
  wrapped (err x, l') = refl

  appended-Step :
      store_value_for_lsm (some l) o threshold key v ≡ wrap_append (append l o key v)
      → StoreStep l seg key v (store_value_for_lsm (some l) o threshold key v)
  appended-Step e =
      let (now, (seg', opened', le)) = append-Promise l o seg key v opened f room in
      let last = ap (λ a. a.1) e ∙ wrapped (append l o key v) in
      record {
        after = (append l o key v).1;
        segment = seg';
        is_after = last;
        extends = now.extends;
        opened = opened';
        room = le;
        resolves = λ stored q.
            resolve-store l o seg threshold key v stored (some (append l o key v).1) opened f room
              plain (cc (last, q));
      }

  pub store_value-Step : StoreStep l seg key v (store_value_for_lsm (some l) o threshold key v)
  store_value-Step = elim (Bool-cases (is_tombstone_value v)) [
    | inl t ↦ unchanged-Step (ok tombstone_value) (unfold store_value_for_lsm in rw t refl)
    | inr t ↦ elim (dec_le (length v) threshold) [
      | yes p ↦
          unchanged-Step (ok v)
            (unfold store_value_for_lsm in rw (t, le→leb (length v) threshold p) refl)
      | no p ↦ appended-Step (
          unfold store_value_for_lsm append_value in
          rw (t, lt→leb (length v) threshold (omega arith)) refl)
    ]
  ]
