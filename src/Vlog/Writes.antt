-- ===== src/Vlog/Writes.antt =====
-- vlog/vlog.go: what a write to the active segment leaves in an open log.
use seol.Base.{ℕ, ◌+◌, ◌%◌, ◌^◌, ◌≤◌, ◌<◌, min, Bool, ◌≡◌, refl, sym, ap, ◌∙◌, arith}
use seol.Base.{
  Option, some, List, [], ◌++◌, append-nil, ◌==◌, ==_iff, ==_refl, if◌then◌else◌, length, take,
  length-append, take_all, length-take, Bool-cases, inl, inr,
}
use seol.Base.Result.{Result, ok, map_result}
use seol.Base.Crc.{checksum, checksum-lt}
use seol.Base.Files.{write_at, write_at_end, insert, lookup-insert}
use seol.Record.{encode, Fits}
use seol.Vlog.{Segment, Log, Outcome, file_of, has_file, write_record, write_bytes}
use seol.Vlog.Ref.{ValueRef, InRange}
use seol.Vlog.Values.{read_value-read_record}
use seol.Vlog.Read.{read_value, read_record}
use seol.Vlog.Extends.{IsOpen, read_record-encode, Extends}

pub file_of-insert :
    (l : Log) (id : ℕ) (active : Option Segment) (files : List (ℕ × Bool)) (file : List ℕ) (j : ℕ)
    → file_of (record l { active = active; files = files; disk = insert id file l.disk }) j
      ≡ (if id == j then file else file_of l j)
unfolding file_of
file_of-insert l id active files file j = ground (arith, lookup-insert id j file l.disk)

pub has_file-insert :
    (l : Log) (id : ℕ) (active : Option Segment) (handle : Bool) (disk : List (ℕ × List ℕ)) (j : ℕ)
    → has_file (record l { active = active; files = insert id handle l.files; disk = disk }) j
      ≡ (if id == j then handle else has_file l j)
unfolding has_file
has_file-insert l id active handle disk j = ground (arith, lookup-insert id j handle l.files)

-- A file that grows by what is written at its end.
pub grown_file :
    (l : Log) (id : ℕ) (bytes : List ℕ) (j : ℕ)
    → (more : List ℕ) × ((if id == j then file_of l id ++ bytes else file_of l j)
        ≡ file_of l j ++ more)
grown_file l id bytes j = elim (Bool-cases (id == j)) [
  | inl e ↦ (bytes, rw e (rw ((==_iff id j).0 e) refl))
  | inr e ↦ ([], rw e (sym (append-nil (file_of l j))))
]

module _ (l : Log) (seg : Segment) (bytes : List ℕ) (n : ℕ) (v : IsOpen l seg) where
  -- The segment after the write.
  abbrev pub longer : Segment
  longer = record seg { size = (seg.size + n) % 2 ^ 64 }

  pub file_of-write_bytes :
      (j : ℕ)
      → file_of (write_bytes l seg bytes n) j
        ≡ (if seg.id == j then file_of l seg.id ++ take n bytes else file_of l j)
  unfolding write_bytes
  file_of-write_bytes j =
      file_of-insert l seg.id (some longer) l.files
        (write_at (file_of l seg.id) seg.size (take n bytes)) j
      ∙ rw (write_at_end (file_of l seg.id) seg.size (take n bytes) v.size) refl

  pub write_bytes-Extends : Extends l (write_bytes l seg bytes n)
  write_bytes-Extends = record {
    closed_alike = unfold write_bytes in refl;
    handles = λ id h. unfold write_bytes has_file in (unfold has_file in h);
    grows = λ id.
        let (more, e) = grown_file l seg.id (take n bytes) id in (more, file_of-write_bytes id ∙ e);
  }

  pub write_bytes-IsOpen :
      n ≤ length bytes → seg.size + n < 2 ^ 63 → IsOpen (write_bytes l seg bytes n) longer
  write_bytes-IsOpen le room = record {
    open_log = unfold write_bytes in v.open_log;
    is_active = unfold write_bytes in refl;
    open_segment = v.open_segment;
    handle = write_bytes-Extends.handles seg.id v.handle;
    size =
        rw (file_of-write_bytes, ==_refl)
          (omega
            (arith, v.size, length-append (file_of l seg.id) (take n bytes), length-take n bytes));
    small = omega arith;
    id_fits = v.id_fits;
  }

module _ (l : Log) (o : Outcome) (seg : Segment) (key value : List ℕ) (v : IsOpen l seg) where
  pub write_record-log :
      (write_record l o seg key value).1
      ≡ write_bytes l seg (encode key value) (min o.written (length (encode key value)))
  unfolding write_record
  write_record-log = ground arith

  -- A write that succeeds has written all bytes, and its reference is that of the old end.
  pub write_record-ref :
      (ref : ValueRef)
      → (write_record l o seg key value).0 ≡ ok ref
      → (min o.written (length (encode key value)) ≡ length (encode key value))
        × (ref ≡ record {
          segment_id = seg.id;
          offset = seg.size;
          value_len = length value % 2 ^ 32;
          checksum = checksum value;
        })
  unfolding write_record
  write_record-ref ref e = ground arith

-- The reference reads the key and the value, and encodes to what decodes to it.
pub record ReadsBack (l : Log) (ref : ValueRef) (key value : List ℕ) : Type 0 where
  pub record_read : read_record l ref ≡ ok (record { key = key; value = value })
  pub value_read : read_value l ref ≡ ok value
  pub in_range : InRange ref

-- What a call of `append` that starts in `l` leaves behind.
pub record Appended (l : Log) (key value : List ℕ) (result : Result ValueRef) (l' : Log)
    : Type 0 where
  pub extends : Extends l l'
  pub reads : (ref : ValueRef) → result ≡ ok ref → ReadsBack l' ref key value

module _ (l : Log) (o : Outcome) (seg : Segment) (key value : List ℕ) (v : IsOpen l seg)
    (f : Fits key value) (room : seg.size + length (encode key value) < 2 ^ 63) where
  pub write_record-reads :
      (ref : ValueRef)
      → (write_record l o seg key value).0 ≡ ok ref
      → ReadsBack (write_record l o seg key value).1 ref key value
  write_record-reads ref e =
      let (whole, is_ref) = write_record-ref l o seg key value v ref e in
      let n = min o.written (length (encode key value)) in
      let l' = write_bytes l seg (encode key value) n in
      let v' : IsOpen l' (longer l seg (encode key value) n v) =
        write_bytes-IsOpen l seg (encode key value) n v (omega arith) (omega arith) in
      let file : file_of l' seg.id ≡ file_of l seg.id ++ (encode key value ++ []) =
        file_of-write_bytes l seg (encode key value) n v seg.id
        ∙ rw (==_refl, take_all n (encode key value) (omega (arith, whole)), append-nil) refl in
      let fits : length (file_of l' seg.id) < 2 ^ 63 = omega (arith, v'.size, v'.small) in
      let reads =
        read_record-encode l' seg.id (file_of l seg.id) key value [] f seg.size v.size v'.open_log
          v'.handle file fits in
      rw (write_record-log, is_ref)
        (record {
          record_read = reads;
          value_read = read_value-read_record l' _ fits ∙ ap (map_result (λ r. r.value)) reads;
          in_range = record {
            segment_fits = v.id_fits;
            offset_fits = omega (arith, v.small);
            value_len_fits = omega arith;
            checksum_fits = checksum-lt value f.value_bytes;
          };
        })

  pub write_record-Appended :
      Appended l key value (write_record l o seg key value).0 (write_record l o seg key value).1
  write_record-Appended = record {
    extends = rw write_record-log (
        write_bytes-Extends l seg (encode key value) (min o.written (length (encode key value))) v);
    reads = write_record-reads;
  }

  pub write_record-IsOpen :
      (seg' : Segment) × IsOpen (write_record l o seg key value).1 seg'
      × (seg'.size ≤ seg.size + length (encode key value))
  write_record-IsOpen =
      let n = min o.written (length (encode key value)) in
      (
        longer l seg (encode key value) n v,
        rw write_record-log
            (write_bytes-IsOpen l seg (encode key value) n v (omega arith) (omega arith)),
        omega arith,
      )
