-- ===== src/Stored/RoundTrip.antt =====
-- value_ref.go: references read back, and values resolve to what was stored.
use native.Mathlib.Decide.{dec_le}
use seol.Base.{ℕ, ◌+◌, ◌^◌, ◌≤◌, ◌<◌, false, ◌≡◌, refl, ◌∙◌, arith, ◌⊎◌, inl, inr}
use seol.Base.{
  Option, none, some, List, [], ◌++◌, le→leb, lt→leb, if◌then◌else◌, length, drop, Bool-cases,
}
use seol.Base.Result.{Result, ok, err}
use seol.Base.Bytes.{put_uint, get_uint, get_uint-put_uint}
use seol.Base.Order.{bytes_equal}
use seol.Record.{encode, Fits}
use seol.Vlog.{Log, Segment, Outcome, append}
use seol.Vlog.Ref.{ValueRef, InRange, encoded_value_ref_size}
use seol.Vlog.Extends.{IsOpen}
use seol.Vlog.Writes.{ReadsBack}
use seol.Vlog.Appends.{append-reads}
use seol.Stored.{
  value_ref_prefix, tombstone_value, compact_encoded_value_ref_size, max_compact_value_ref_offset,
  encode_value_ref, decode_payload, decode_value_ref, is_tombstone_value, wrap_append, append_value,
  store_value_for_lsm, value, deleted, resolve_stored_value,
}

decode_prefixed :
    (payload : List ℕ)
    → (length payload ≡ compact_encoded_value_ref_size) ⊎ (length payload ≡ encoded_value_ref_size)
    → decode_value_ref (value_ref_prefix ++ payload) ≡ decode_payload payload
unfolding decode_value_ref bytes_equal
decode_prefixed payload h = ground arith

decode_compact :
    (payload : List ℕ) (ref : ValueRef)
    → length payload ≡ compact_encoded_value_ref_size
    → get_uint 8 payload ≡ ref.segment_id
    → get_uint 4 (drop 8 payload) ≡ ref.offset
    → get_uint 4 (drop 12 payload) ≡ ref.value_len
    → get_uint 4 (drop 16 payload) ≡ ref.checksum
    → decode_payload payload ≡ some ref
unfolding decode_payload
decode_compact payload ref e a b c d = ground arith

decode_full :
    (payload : List ℕ) (ref : ValueRef)
    → length payload ≡ encoded_value_ref_size
    → get_uint 8 payload ≡ ref.segment_id
    → get_uint 8 (drop 8 payload) ≡ ref.offset
    → get_uint 4 (drop 16 payload) ≡ ref.value_len
    → get_uint 4 (drop 20 payload) ≡ ref.checksum
    → decode_payload payload ≡ some ref
unfolding decode_payload
decode_full payload ref e a b c d = ground arith

-- Every reference whose fields hold what their Go types hold is decoded to what was encoded, in the
-- short format and in the long one.
pub decode_value_ref-encode_value_ref :
    (ref : ValueRef) → InRange ref → decode_value_ref (encode_value_ref ref) ≡ some ref
unfolding encode_value_ref
decode_value_ref-encode_value_ref ref r = elim (dec_le ref.offset max_compact_value_ref_offset) [
  | yes h ↦
      let sums = put_uint 4 ref.value_len ++ put_uint 4 ref.checksum in
      let payload = put_uint 8 ref.segment_id ++ (put_uint 4 ref.offset ++ sums) in
      rw (le→leb ref.offset max_compact_value_ref_offset h) (
        decode_prefixed payload (inl refl)
        ∙ decode_compact payload ref refl
            (get_uint-put_uint 8 ref.segment_id (put_uint 4 ref.offset ++ sums) r.segment_fits)
            (get_uint-put_uint 4 ref.offset sums (omega arith))
            (get_uint-put_uint 4 ref.value_len (put_uint 4 ref.checksum) r.value_len_fits)
            (get_uint-put_uint 4 ref.checksum [] r.checksum_fits))
  | no h ↦
      let sums = put_uint 4 ref.value_len ++ put_uint 4 ref.checksum in
      let payload = put_uint 8 ref.segment_id ++ (put_uint 8 ref.offset ++ sums) in
      rw (lt→leb ref.offset max_compact_value_ref_offset (omega arith)) (
        decode_prefixed payload (inr refl)
        ∙ decode_full payload ref refl
            (get_uint-put_uint 8 ref.segment_id (put_uint 8 ref.offset ++ sums) r.segment_fits)
            (get_uint-put_uint 8 ref.offset sums r.offset_fits)
            (get_uint-put_uint 4 ref.value_len (put_uint 4 ref.checksum) r.value_len_fits)
            (get_uint-put_uint 4 ref.checksum [] r.checksum_fits))
]

encode_value_ref-not_tombstone :
    (ref : ValueRef) → is_tombstone_value (encode_value_ref ref) ≡ false
unfolding encode_value_ref is_tombstone_value bytes_equal
encode_value_ref-not_tombstone ref = ground arith

resolve_encoded :
    (l : Log) (ref : ValueRef) (key v : List ℕ)
    → ReadsBack l ref key v
    → resolve_stored_value (some l) (encode_value_ref ref) ≡ ok (value v)
unfolding resolve_stored_value
resolve_encoded l ref key v r =
    rw
      (
        encode_value_ref-not_tombstone,
        decode_value_ref-encode_value_ref ref r.in_range,
        r.value_read,
      )
      refl

resolves_wrapped :
    (answer : Result ValueRef × Log) (key v stored : List ℕ) (after : Option Log)
    → ((ref : ValueRef) → answer.0 ≡ ok ref → ReadsBack answer.1 ref key v)
    → wrap_append answer ≡ (ok stored, after)
    → resolve_stored_value after stored ≡ ok (value v)
unfolding wrap_append
resolves_wrapped (ok ref, l) key v stored after h e =
    let p : stored ≡ encode_value_ref ref = cc e in
    let q : after ≡ some l = cc e in rw (p, q) (resolve_encoded l ref key v (h ref refl))
resolves_wrapped (err x, l) key v stored after h e = absurd (cc e)

resolve_tombstone : (log : Option Log) → resolve_stored_value log tombstone_value ≡ ok deleted
unfolding resolve_stored_value is_tombstone_value bytes_equal
resolve_tombstone log = refl

resolve_plain :
    (log : Option Log) (v : List ℕ)
    → is_tombstone_value v ≡ false
    → decode_value_ref v ≡ none
    → resolve_stored_value log v ≡ ok (value v)
unfolding resolve_stored_value
resolve_plain log v t d = rw (t, d) refl

-- What a value resolves to, from what `Put` of it stores: a tombstone is a deletion, and any other
-- value is itself, unless it is short and has the form of a reference. The log is open and has room
-- for the record, and the key and the value fit its format.
pub resolve-store :
    (l : Log) (o : Outcome) (seg : Segment) (threshold : ℕ) (key v stored : List ℕ)
    (after : Option Log)
    → IsOpen l seg
    → Fits key v
    → seg.size + length (encode key v) < 2 ^ 63
    → (length v ≤ threshold → decode_value_ref v ≡ none)
    → store_value_for_lsm (some l) o threshold key v ≡ (ok stored, after)
    → resolve_stored_value after stored ≡ ok (if is_tombstone_value v then deleted else value v)
unfolding store_value_for_lsm append_value
resolve-store l o seg threshold key v stored after opened f room plain e =
    elim (Bool-cases (is_tombstone_value v)) [
      | inl t ↦
          let q : stored ≡ tombstone_value = cc (rw t at e) in rw (q, t) (resolve_tombstone after)
      | inr t ↦ elim (dec_le (length v) threshold) [
        | yes p ↦
            let q : stored ≡ v = cc (rw (t, le→leb (length v) threshold p) at e) in
            rw (q, t) (resolve_plain after v t (plain p))
        | no p ↦ rw t (
            resolves_wrapped (append l o key v) key v stored after
              (λ ref. append-reads l o seg key v ref opened f room)
              (rw (t, lt→leb (length v) threshold (omega arith)) at e))
      ]
    ]
