-- ===== src/Vlog/Values.antt =====
-- vlog/vlog.go: ReadValue answers what ReadRecord does, less the key.
use native.Mathlib.Nat.{add_assoc, add-zero}
use seol.Base.{le→leb, ℕ, zero, suc, ◌+◌, ◌-◌, ◌^◌, ◌≤◌, ◌<◌, ◌≡◌, refl, sym, ap, ◌∙◌, arith}
use seol.Base.{List, ltb, if◌then◌else◌, length, drop, take-append, drop-append, inl, inr}
use seol.Base.Result.{Result, ok, ◌>>=◌, map_result, Result-cases}
use seol.Base.Bytes.{get_uint}
use seol.Base.Crc.{update, update-update, update-nil}
use seol.Base.Files.{read_at, read_at-add, length-read_at, read_at_plain, read_at_fits}
use seol.Record.{record_header_size}
use seol.Vlog.{Log, file_of}
use seol.Vlog.Ref.{ValueRef}
use seol.Vlog.Read.{read_key, value_behind, read_value, record_behind, read_record}

-- A chunk, and what reads the rest.
chunk :
    (file : List ℕ) (offset c m crc : ℕ) (next : List ℕ → Result (ℕ × ℕ))
    → 0 < c
    → offset ≤ length file
    → length file < 2 ^ 63
    → ((xs : List ℕ)
        → offset + c ≤ length file
        → next xs
          ≡ (read_at file (offset + c) m >>= λ ys. ok (update (update crc xs) ys, offset + c + m)))
    → (read_at file offset c >>= next)
      ≡ (read_at file offset (c + m) >>= λ bytes. ok (update crc bytes, offset + (c + m)))
chunk file offset c m crc next some p small h =
    rw (read_at-add file offset c m p small) (elim (Result-cases (read_at file offset c)) [
      | inr (x, q) ↦ rw q refl
      | inl (xs, q) ↦ rw q (
          h xs (read_at_fits file offset c xs some q)
          ∙ (elim (Result-cases (read_at file (offset + c) m)) [
            | inr (x, d) ↦ rw d refl
            | inl (ys, d) ↦ rw d (rw (update-update, add_assoc) refl)
          ]))
    ])

-- The chunks of `read_key` come to one read of the whole key.
read_key-read_at :
    (fuel n : ℕ) (file : List ℕ) (offset crc : ℕ)
    → n ≤ fuel
    → offset ≤ length file
    → length file < 2 ^ 63
    → read_key fuel n file offset crc
      ≡ (read_at file offset n >>= λ bytes. ok (update crc bytes, offset + n))
unfolding read_key
read_key-read_at fuel zero file offset crc h p small =
    rw
      (
        read_at_plain file offset 0 p small,
        le→leb (offset + 0) (length file) (omega arith),
        update-nil,
        add-zero,
      )
      refl
read_key-read_at zero (suc r) file offset crc h p small = absurd (omega arith)
read_key-read_at (suc fuel) (suc r) file offset crc h p small =
    let c = if ltb (suc r) 256 then suc r else 256 in
    let whole : suc r ≡ c + (suc r - c) = ground arith in
    let some : 0 < c = ground arith in
    chunk file offset c (suc r - c) crc
      (λ xs. read_key fuel (suc r - c) file (offset + c) (update crc xs)) some p small
      (λ xs q.
        read_key-read_at fuel (suc r - c) file (offset + c) (update crc xs) (ground arith) q small)
    ∙ ap (λ (k : ℕ). read_at file offset k >>= λ bytes. ok (update crc bytes, offset + k))
        (sym whole)

value_behind-record_behind :
    (file : List ℕ) (ref : ValueRef) (head : List ℕ)
    → ref.offset + record_header_size ≤ length file
    → length file < 2 ^ 63
    → value_behind file ref head ≡ map_result (λ r. r.value) (record_behind file ref head)
unfolding value_behind record_behind
value_behind-record_behind file ref head p small =
    let o = ref.offset + record_header_size in
    let n = get_uint 4 (drop 4 head) in
    let m = get_uint 4 (drop 8 head) in
    let c = update 0 (drop 4 head) in
    rw (read_key-read_at n n file o c (omega arith) p small, read_at-add file o n m p small)
      (elim (Result-cases (read_at file o n)) [
        | inr (x, q) ↦ rw q (ground arith)
        | inl (xs, q) ↦ rw q (elim (Result-cases (read_at file (o + n) m)) [
          | inr (x, d) ↦ rw d (ground arith)
          | inl (ys, d) ↦ rw d (
              let len = length-read_at file o n xs p q in
              rw (update-update, take-append n xs ys len, drop-append n xs ys len) (ground arith))
        ])
      ])

-- ReadValue and ReadRecord agree on every reference, in the value and in the error, for a file below
-- 2^63 bytes.
pub read_value-read_record :
    (l : Log) (ref : ValueRef)
    → length (file_of l ref.segment_id) < 2 ^ 63
    → read_value l ref ≡ map_result (λ r. r.value) (read_record l ref)
unfolding read_value read_record
read_value-read_record l ref small =
    elim (Result-cases (read_at (file_of l ref.segment_id) ref.offset record_header_size)) [
      | inr (x, q) ↦ rw q (ground arith)
      | inl (head, q) ↦ rw q (
          rw
            (value_behind-record_behind (file_of l ref.segment_id) ref head
              (read_at_fits (file_of l ref.segment_id) ref.offset record_header_size head
                (omega arith) q)
              small)
            (ground arith))
    ]
