-- ===== src/Vlog/Extends.antt =====
-- vlog/vlog.go: reading what Append wrote, in a log whose files grow at their ends.
use seol.Base.{ℕ, ◌+◌, ◌%◌, ◌^◌, ◌<◌, Bool, true, false, not, ◌≡◌, refl, sym, ap, ◌∙◌, arith}
use seol.Base.{
  some, List, [], ◌++◌, append_assoc, append-nil, ==_iff, ==_refl, length, drop, take-append,
  drop-append, inl, inr,
}
use seol.Base.Result.{Result, ok, ◌>>=◌, ◌>>◌, >>=-mono, require, closed, unknown_segment}
use seol.Base.Bytes.{get_uint}
use seol.Base.Crc.{update, checksum}
use seol.Base.Files.{read_at, read_at-append_cases}
use seol.Record.{record_header_size, encode, header, Fits, header_fields}
use seol.Record.Reading.{header_checksum, read_header, read_payload}
use seol.Vlog.{Segment, Log, file_of, has_file}
use seol.Vlog.Ref.{ValueRef}
use seol.Vlog.Read.{Record, read_record, record_behind}

-- An open log: the active segment has a handle, and its size is that of its file.
pub record IsOpen (l : Log) (seg : Segment) : Type 0 where
  pub open_log : l.is_closed ≡ false
  pub is_active : l.active ≡ some seg
  pub open_segment : seg.is_open ≡ true
  pub handle : has_file l seg.id ≡ true
  pub size : seg.size ≡ length (file_of l seg.id)
  pub small : seg.size < 2 ^ 63
  pub id_fits : seg.id < 2 ^ 64

-- ReadRecord on a file whose header and payload are known.
pub read_record_fields :
    (l : Log) (ref : ValueRef) (head key value : List ℕ)
    → l.is_closed ≡ false
    → has_file l ref.segment_id ≡ true
    → read_at (file_of l ref.segment_id) ref.offset record_header_size ≡ ok head
    → get_uint 4 (drop 4 head) ≡ length key
    → get_uint 4 (drop 8 head) ≡ length value
    → ref.value_len ≡ length value
    → read_at
        (file_of l ref.segment_id)
        (ref.offset + record_header_size)
        (length key + length value)
      ≡ ok (key ++ value)
    → update (update 0 (drop 4 head)) (key ++ value) ≡ get_uint 4 head
    → ref.checksum ≡ checksum value
    → read_record l ref ≡ ok (record { key = key; value = value })
unfolding read_record record_behind
read_record_fields l ref head key value e1 e2 e3 e4 e5 e6 e7 e8 e9 =
    rw (e2, e3)
      (rw (e4, e5, e7)
        (rw
          (
            (==_iff _ _).1 e8,
            take-append (length key) key value refl,
            drop-append (length key) key value refl,
          )
          (simp (e1, e6, e9, ==_refl))))

-- What `append` wrote can be read where its reference says, as long as the file grows at its end.
module _ (l : Log) (id : ℕ) (before key value after : List ℕ) (f : Fits key value) (offset : ℕ)
    (at_end : offset ≡ length before) where
  abbrev pub ref_of : ValueRef
  ref_of = record {
    segment_id = id;
    offset = offset;
    value_len = length value % 2 ^ 32;
    checksum = checksum value;
  }

  pub read_record-encode :
      l.is_closed ≡ false
      → has_file l id ≡ true
      → file_of l id ≡ before ++ (encode key value ++ after)
      → length (file_of l id) < 2 ^ 63
      → read_record l ref_of ≡ ok (record { key = key; value = value })
  read_record-encode e1 e2 e small =
      let (_, e4, e5) = header_fields key value f in
      let small' : length (before ++ (encode key value ++ after)) < 2 ^ 63 = rw e at small in
      read_record_fields l ref_of (header key value) key value e1 e2
        (rw (e, at_end) (read_header before key value after small')) e4 e5
        (omega (arith, f.value_length))
        (rw (e, at_end) (read_payload before key value after small')) (header_checksum key value f)
        refl

-- `l'` has every handle of `l`, and its files have grown at their ends at most.
pub record Extends (l l' : Log) : Type 0 where
  pub closed_alike : l'.is_closed ≡ l.is_closed
  pub handles : (id : ℕ) → has_file l id ≡ true → has_file l' id ≡ true
  pub grows : (id : ℕ) → (more : List ℕ) × (file_of l' id ≡ file_of l id ++ more)

pub Extends-refl : (l : Log) → Extends l l
Extends-refl l = record {
  closed_alike = refl;
  handles = λ id h. h;
  grows = λ id. ([], sym (append-nil _));
}

pub Extends-trans : {l m n : Log} → Extends l m → Extends m n → Extends l n
Extends-trans {l} {m} {n} p q = record {
  closed_alike = q.closed_alike ∙ p.closed_alike;
  handles = λ id h. q.handles id (p.handles id h);
  grows = λ id.
      let (xs, e) = p.grows id in
      let (ys, d) = q.grows id in
      (xs ++ ys, d ∙ ap (λ (file : List ℕ). file ++ ys) e ∙ append_assoc (file_of l id) xs ys);
}

pub record_behind-append :
    (file more : List ℕ) (ref : ValueRef) (head : List ℕ) (r : Record)
    → record_behind file ref head ≡ ok r
    → record_behind (file ++ more) ref head ≡ ok r
unfolding record_behind
record_behind-append file more ref head r e =
    elim (read_at-append_cases file more (ref.offset + record_header_size)
      (get_uint 4 (drop 4 head) + get_uint 4 (drop 8 head))) [
        | inl past ↦ absurd (ground (arith, past))
        | inr same ↦ rw same e
      ]

pub from_header-append :
    (file more : List ℕ) (ref : ValueRef) (r : Record)
    → (read_at file ref.offset record_header_size >>= record_behind file ref) ≡ ok r
    → (read_at (file ++ more) ref.offset record_header_size >>= record_behind (file ++ more) ref)
      ≡ ok r
from_header-append file more ref r e =
    elim (read_at-append_cases file more ref.offset record_header_size) [
      | inl past ↦ absurd (cc (rw past at e))
      | inr same ↦ rw same (
          >>=-mono (read_at file ref.offset record_header_size) (record_behind file ref)
            (record_behind (file ++ more) ref) r (λ head. record_behind-append file more ref head r)
            e)
    ]

pub guarded : Bool → Bool → Result Record → Result Record
guarded is_closed found rest = do
  require (not is_closed) closed
  require found unknown_segment
  rest

pub guarded_mono :
    (b b' c c' : Bool) (m m' : Result Record) (r : Record)
    → b' ≡ b
    → (c ≡ true → c' ≡ true)
    → (m ≡ ok r → m' ≡ ok r)
    → guarded b c m ≡ ok r
    → guarded b' c' m' ≡ ok r
unfolding guarded
guarded_mono true b' c c' m m' r q h k e = absurd (cc e)
guarded_mono false b' true c' m m' r q h k e = rw (q, h refl) (k e)
guarded_mono false b' false c' m m' r q h k e = absurd (cc e)

-- A record that can be read can be read from every extension.
pub read_record-Extends :
    {l l' : Log} (ref : ValueRef) (r : Record)
    → Extends l l'
    → read_record l ref ≡ ok r
    → read_record l' ref ≡ ok r
unfolding read_record guarded
read_record-Extends {l} {l'} ref r x e =
    let (more, grown) = x.grows ref.segment_id in
    rw grown (
      guarded_mono l.is_closed l'.is_closed (has_file l ref.segment_id) (has_file l' ref.segment_id)
        (read_at (file_of l ref.segment_id) ref.offset record_header_size
          >>= record_behind (file_of l ref.segment_id) ref)
        (read_at (file_of l ref.segment_id ++ more) ref.offset record_header_size
          >>= record_behind (file_of l ref.segment_id ++ more) ref)
        r x.closed_alike (x.handles ref.segment_id)
        (from_header-append (file_of l ref.segment_id) more ref r) e)
