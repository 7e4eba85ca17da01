-- ===== src/Vlog/Appends.antt =====
-- vlog/vlog.go: Append, and what Read and ReadRecord answer after any calls of it.
use seol.Base.{ℕ, ◌+◌, ◌^◌, ◌<◌, ◌≡◌, arith}
use seol.Base.{All, List, [], ◌∷◌, length}
use seol.Base.Result.{Result, ok}
use seol.Record.{encode, Fits}
use seol.Vlog.{Segment, Log, Outcome, append}
use seol.Vlog.Ref.{ValueRef}
use seol.Vlog.Read.{Record, read_record}
use seol.Vlog.Extends.{IsOpen, Extends, Extends-refl, Extends-trans, read_record-Extends}
use seol.Vlog.Writes.{ReadsBack}
use seol.Vlog.Promises.{append-Promise}

-- A successful `Append` can be read back, and its reference has the value's length and checksum.
pub append-reads :
    (l : Log) (o : Outcome) (seg : Segment) (key value : List ℕ) (ref : ValueRef)
    → IsOpen l seg
    → Fits key value
    → seg.size + length (encode key value) < 2 ^ 63
    → (append l o key value).0 ≡ ok ref
    → ReadsBack (append l o key value).1 ref key value
append-reads l o seg key value ref v f room e =
    (append-Promise l o seg key value v f room).0.reads ref e

-- A client's calls of `Append`, each with its environment.
pub record Call : Type 0 where
  pub outcome : Outcome
  pub key : List ℕ
  pub value : List ℕ

pub append_all : Log → List Call → List (Result ValueRef) × Log
append_all l [] = ([], l)
append_all l (c ∷ calls) =
    let (result, l') = append l c.outcome c.key c.value in
    let (results, l'') = append_all l' calls in (result ∷ results, l'')

-- Each call that returned a reference can be read, with its key and value, from `l`.
abbrev pub AllRead : Log → List Call → List (Result ValueRef) → Type 0
AllRead l [] results = Unit
AllRead l (c ∷ calls) [] = Unit
AllRead l (c ∷ calls) (result ∷ results) =
    ((ref : ValueRef)
      → result ≡ ok ref
      → read_record l ref ≡ ok (record { key = c.key; value = c.value }))
    × AllRead l calls results

abbrev pub AllFit : List Call → Type 0
AllFit = All (λ c. Fits c.key c.value)

abbrev pub total_size : List Call → ℕ
total_size [] = 0
total_size (c ∷ calls) = length (encode c.key c.value) + total_size calls

append_all-Promise :
    (l : Log) (seg : Segment) (calls : List Call)
    → IsOpen l seg
    → AllFit calls
    → seg.size + total_size calls < 2 ^ 63
    → Extends l (append_all l calls).1 × AllRead (append_all l calls).1 calls (append_all l calls).0
unfolding append_all
append_all-Promise l seg [] v f room = (Extends-refl l, tt)
append_all-Promise l seg (c ∷ calls) v f room =
    let l' = (append l c.outcome c.key c.value).1 in
    let (now, (seg', v', le)) = append-Promise l c.outcome seg c.key c.value v f.0 (omega arith) in
    let (later, reads) = append_all-Promise l' seg' calls v' f.1 (omega arith) in
    (
      Extends-trans now.extends later,
      (λ ref q. read_record-Extends ref _ later (now.reads ref q).record_read, reads),
    )

-- Nothing that Append acknowledged is lost. In an open log, whatever calls of `Append` follow one
-- another and however the writes, syncs and rotations of each end, every reference that one of them
-- returned reads, after all of them, the key and the value that it was given, and every record that
-- could be read before them can still be read. The keys and values fit the record format, and the
-- active segment and all records together stay below 2^63 bytes.
pub append_all-reads :
    (l : Log) (seg : Segment) (calls : List Call)
    → IsOpen l seg
    → AllFit calls
    → seg.size + total_size calls < 2 ^ 63
    → AllRead (append_all l calls).1 calls (append_all l calls).0
      × ((ref : ValueRef) (r : Record)
          → read_record l ref ≡ ok r
          → read_record (append_all l calls).1 ref ≡ ok r)
append_all-reads l seg calls v f room =
    let (extends, reads) = append_all-Promise l seg calls v f room in
    (reads, λ ref r e. read_record-Extends ref r extends e)
