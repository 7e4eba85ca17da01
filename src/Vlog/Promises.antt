-- ===== src/Vlog/Promises.antt =====
-- vlog/vlog.go: Append, with its rotation, in an open log.
use seol.Base.{ℕ, ◌+◌, ◌%◌, ◌^◌, ◌≤◌, ◌<◌, true, false, ◌&&◌, ◌≡◌, refl, sym, arith}
use seol.Base.{
  List, [], ◌++◌, append-nil, ◌==◌, ==_iff, ==_refl, ltb, if◌then◌else◌, length, Bool-cases, inl,
  inr,
}
use seol.Base.Result.{Error, Result, ok, err}
use seol.Record.{record_header_size, encode, Fits}
use seol.Vlog.{
  Segment, Log, Outcome, file_of, is_on_disk, next_segment_id, rotate_segment_locked, write_record,
  start_segment, write_to_active, after_rotation, append_to, append,
}
use seol.Vlog.Ref.{ValueRef}
use seol.Vlog.Extends.{IsOpen, Extends, Extends-refl, Extends-trans}
use seol.Vlog.Writes.{
  file_of-insert, has_file-insert, Appended, write_record-Appended, write_record-IsOpen,
}

-- Rotation: the new segment's file is new, so nothing that can be read is overwritten.
module _ (l : Log) (o : Outcome) (last_id : ℕ) (l' : Log) (open_log : l.is_closed ≡ false)
    (e : rotate_segment_locked l o last_id ≡ ok l') where
  pub rotated :
      (is_on_disk l (next_segment_id o.now last_id) ≡ false)
      × (l' ≡ start_segment l (next_segment_id o.now last_id))
  unfolding rotate_segment_locked
  rotated = ground arith

  pub not_on_disk : (id : ℕ) → is_on_disk l id ≡ false → file_of l id ≡ []
  unfolding is_on_disk file_of
  not_on_disk id h = ground arith

  abbrev pub new_segment : Segment
  new_segment = record { id = next_segment_id o.now last_id; is_open = true; size = 0 }

  pub start_segment-IsOpen : IsOpen (start_segment l (next_segment_id o.now last_id)) new_segment
  start_segment-IsOpen =
      let id = next_segment_id o.now last_id in
      record {
        open_log = unfold start_segment in open_log;
        is_active = unfold start_segment in refl;
        open_segment = refl;
        handle = unfold start_segment in rw (has_file-insert, ==_refl) refl;
        size = unfold start_segment in rw (file_of-insert, ==_refl) refl;
        small = omega arith;
        id_fits = unfold next_segment_id in ground arith;
      }

  pub new_file :
      (j : ℕ) → (if next_segment_id o.now last_id == j then [] else file_of l j) ≡ file_of l j ++ []
  new_file j = elim (Bool-cases (next_segment_id o.now last_id == j)) [
    | inl q ↦ rw (q, ← (==_iff _ j).0 q) (rw (not_on_disk _ rotated.0) refl)
    | inr q ↦ rw q (sym (append-nil _))
  ]

  pub start_segment-Extends : Extends l (start_segment l (next_segment_id o.now last_id))
  start_segment-Extends =
      let id = next_segment_id o.now last_id in
      record {
        closed_alike = unfold start_segment in refl;
        handles = λ j h. unfold start_segment in rw has_file-insert (ground (arith, h));
        grows = λ j. unfold start_segment in ([], rw file_of-insert (new_file j));
      }

pub append_open :
    (l : Log) (o : Outcome) (seg : Segment) (key value : List ℕ)
    → IsOpen l seg
    → append l o key value ≡ (
        if ltb 0 seg.size
          && ltb l.segment_max_bytes
              ((seg.size + (record_header_size + length key + length value)) % 2 ^ 64)
        then after_rotation l o key value (rotate_segment_locked l o seg.id)
        else write_record l o seg key value)
unfolding append append_to
append_open l o seg key value v = ground (arith, v.is_active, v.open_log, v.open_segment)

-- What a call promises, whatever the environment does: what could be read still can be, a reference
-- that it returns can be read, and the log is open, its active segment longer by a record at most.
abbrev pub Promise : Log → Segment → List ℕ → List ℕ → Result ValueRef × Log → Type 0
Promise l seg key value answer =
    Appended l key value answer.0 answer.1
    × ((seg' : Segment) × IsOpen answer.1 seg' × (seg'.size ≤ seg.size + length (encode key value)))

pub failed-Promise :
    (l : Log) (seg : Segment) (key value : List ℕ) (e : Error)
    → IsOpen l seg
    → Promise l seg key value (err e, l)
failed-Promise l seg key value e v =
    (record { extends = Extends-refl l; reads = λ ref q. absurd (cc q) }, (seg, v, omega arith))

pub after_rotation-Promise :
    (l : Log) (o : Outcome) (seg : Segment) (key value : List ℕ) (r : Result Log)
    → IsOpen l seg
    → Fits key value
    → length (encode key value) < 2 ^ 63
    → rotate_segment_locked l o seg.id ≡ r
    → Promise l seg key value (after_rotation l o key value r)
unfolding after_rotation
after_rotation-Promise l o seg key value (err e) v f room q = failed-Promise l seg key value e v
after_rotation-Promise l o seg key value (ok l') v f room q =
    let id = next_segment_id o.now seg.id in
    let fresh = new_segment l o seg.id l' v.open_log q in
    let v' = start_segment-IsOpen l o seg.id l' v.open_log q in
    let fits : fresh.size + length (encode key value) < 2 ^ 63 = omega arith in
    let w = write_record-Appended (start_segment l id) o fresh key value v' f fits in
    let (seg', open', le) = write_record-IsOpen (start_segment l id) o fresh key value v' f fits in
    rw (rotated l o seg.id l' v.open_log q).1 (
      unfold start_segment write_to_active in
      (
        record {
          extends = Extends-trans (start_segment-Extends l o seg.id l' v.open_log q) w.extends;
          reads = w.reads;
        },
        (seg', open', omega arith),
      ))

pub append-Promise :
    (l : Log) (o : Outcome) (seg : Segment) (key value : List ℕ)
    → IsOpen l seg
    → Fits key value
    → seg.size + length (encode key value) < 2 ^ 63
    → Promise l seg key value (append l o key value)
append-Promise l o seg key value v f room =
    rw (append_open l o seg key value v)
      (elim (Bool-cases (
        ltb 0 seg.size
        && ltb l.segment_max_bytes
            ((seg.size + (record_header_size + length key + length value)) % 2 ^ 64))) [
              | inl full ↦ rw full (
                  after_rotation-Promise l o seg key value (rotate_segment_locked l o seg.id) v f
                    (omega arith) refl)
              | inr fits ↦ rw fits (
                write_record-Appended l o seg key value v f room,
                write_record-IsOpen l o seg key value v f room,
              )
            ])
