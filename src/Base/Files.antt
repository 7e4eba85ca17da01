-- ===== src/Base/Files.antt =====
-- os.File as a list of bytes, and association lists for Go's maps with integer keys.
use Prim.Native.Nat.{ℕ, zero, suc, ◌+◌, ◌-◌, ◌^◌, ◌≤◌, ◌<◌}
use mathlib.Core.Path.{◌∙◌, sym, ap, ◌≡◌, refl}
use mathlib.Core.Logic.{◌⊎◌, inr}
use mathlib.Core.Bool.{not, ◌||◌}
use mathlib.Core.Option.{Option, none, some}
use mathlib.Core.List.{List, [], ◌∷◌, ◌++◌, append-nil}
use native.Mathlib.Omega.{arith}
use native.Mathlib.Decide.{dec_le}
use seol.Base.Tests.{le→leb, lt→leb, ltb, leb, ◌==◌, if◌then◌else◌}
use seol.Base.Lists.{
  length, take, drop, replicate, take-drop-append, length-take, length-drop, take-add, drop-drop,
  take_all, drop_all, take-append, drop-append, length-append,
}
use seol.Base.Result.{Result, ◌>>=◌, ok, err, eof, io_error}

-- ReadAt with a buffer of `n` bytes. An offset that is negative as an int64 is refused; an empty
-- buffer is filled anywhere; and a read that the end of the file cuts short is an io.EOF.
unfoldable pub read_at : List ℕ → ℕ → ℕ → Result (List ℕ)
read_at file offset n =
    if not (ltb offset (2 ^ 63))
    then err io_error
    else if n == 0 || leb (offset + n) (length file)
    then ok (take n (drop offset file))
    else err eof

-- WriteAt: a gap behind the end of the file is filled with zeros.
unfoldable pub write_at : List ℕ → ℕ → List ℕ → List ℕ
write_at file offset bytes =
    take offset file
    ++ (replicate (offset - length file) 0 ++ (bytes ++ drop (offset + length bytes) file))

pub write_at_end :
    (file : List ℕ) (offset : ℕ) (bytes : List ℕ)
    → offset ≡ length file
    → write_at file offset bytes ≡ file ++ bytes
unfolding write_at
write_at_end file offset bytes e =
    let none_left : offset - length file ≡ 0 = omega arith in
    rw
      (
        take_all offset file (omega arith),
        none_left,
        drop_all (offset + length bytes) file (omega arith),
        append-nil,
      )
      refl

pub read_at-append :
    (file more : List ℕ) (offset n : ℕ) (bytes : List ℕ)
    → read_at file offset n ≡ ok bytes
    → read_at (file ++ more) offset n ≡ ok bytes
unfolding read_at
read_at-append file more offset zero bytes e = ground arith
read_at-append file more offset (suc n) bytes e =
    ground (arith, length-append file more, take-drop-append (suc n) offset file more)

-- Growing the file changes the answer of no read but those past its end.
pub read_at-append_cases :
    (file more : List ℕ) (offset n : ℕ)
    → (read_at file offset n ≡ err eof) ⊎ (read_at (file ++ more) offset n ≡ read_at file offset n)
unfolding read_at
read_at-append_cases file more offset zero = inr (ground arith)
read_at-append_cases file more offset (suc n) =
    ground (arith, length-append file more, take-drop-append (suc n) offset file more)

pub read_at_inside :
    (file : List ℕ) (offset n : ℕ)
    → offset + n ≤ length file
    → length file < 2 ^ 63
    → read_at file offset n ≡ ok (take n (drop offset file))
unfolding read_at
read_at_inside file offset n h small = ground arith

-- A read inside the file's bounds is what it is without regard to the sign of the offset.
pub read_at_plain :
    (file : List ℕ) (offset n : ℕ)
    → offset ≤ length file
    → length file < 2 ^ 63
    → read_at file offset n
      ≡ (if leb (offset + n) (length file) then ok (take n (drop offset file)) else err eof)
unfolding read_at
read_at_plain file offset zero h small = ground arith
read_at_plain file offset (suc n) h small = ground arith

-- One read is two reads in turn.
pub read_at-add :
    (file : List ℕ) (offset n m : ℕ)
    → offset ≤ length file
    → length file < 2 ^ 63
    → read_at file offset (n + m)
      ≡ (read_at file offset n >>= λ xs. read_at file (offset + n) m >>= λ ys. ok (xs ++ ys))
read_at-add file offset n m h small = elim (dec_le (offset + n) (length file)) [
  | yes p ↦
      rw
        (
          read_at_plain file offset (n + m) h small,
          read_at_plain file offset n h small,
          read_at_plain file (offset + n) m p small,
        )
        (rw
          (
            le→leb (offset + n) (length file) p,
            take-add n m (drop offset file),
            drop-drop n offset file,
          )
          (ground arith))
  | no p ↦
      rw (read_at_plain file offset (n + m) h small, read_at_plain file offset n h small)
        (rw
          (
            lt→leb (offset + n) (length file) (omega arith),
            lt→leb (offset + (n + m)) (length file) (omega arith),
          )
          refl)
]

pub length-read_at :
    (file : List ℕ) (offset n : ℕ) (bytes : List ℕ)
    → offset ≤ length file
    → read_at file offset n ≡ ok bytes
    → length bytes ≡ n
unfolding read_at
length-read_at file offset zero bytes h e = ground arith
length-read_at file offset (suc n) bytes h e =
    ground (arith, length-take (suc n) (drop offset file), length-drop offset file)

pub read_at_fits :
    (file : List ℕ) (offset n : ℕ) (bytes : List ℕ)
    → 0 < n
    → read_at file offset n ≡ ok bytes
    → offset + n ≤ length file
unfolding read_at
read_at_fits file offset zero bytes h e = elim h [ ]
read_at_fits file offset (suc n) bytes h e = ground arith

-- A read of what stands behind `before`.
pub read_at_middle :
    (before bytes after : List ℕ) (offset n : ℕ)
    → offset ≡ length before
    → n ≡ length bytes
    → length (before ++ (bytes ++ after)) < 2 ^ 63
    → read_at (before ++ (bytes ++ after)) offset n ≡ ok bytes
read_at_middle before bytes after offset n e q small =
    read_at_inside (before ++ (bytes ++ after)) offset n
      (omega (arith, length-append before (bytes ++ after), length-append bytes after)) small
    ∙ ap (λ (rest : List ℕ). ok (take n rest)) (drop-append offset before (bytes ++ after) (sym e))
    ∙ ap ok (take-append n bytes after (sym q))

module _ {ℓ} {V : Type ℓ} where
  -- m[k]
  unfoldable pub lookup : ℕ → List (ℕ × V) → Option V
  lookup k [] = none
  lookup k ((j, v) ∷ m) = if j == k then some v else lookup k m

  -- m[k] = v
  unfoldable pub insert : ℕ → V → List (ℕ × V) → List (ℕ × V)
  insert k v [] = (k, v) ∷ []
  insert k v ((j, held) ∷ entries) =
      let others = insert k v entries in if j == k then (j, v) ∷ entries else (j, held) ∷ others

  pub lookup-insert :
      (k j : ℕ) (v : V) (m : List (ℕ × V))
      → lookup j (insert k v m) ≡ (if k == j then some v else lookup j m)
  unfolding lookup insert
  lookup-insert k j v [] = ground arith
  lookup-insert k j v ((i, w) ∷ m) = ground (arith, lookup-insert k j v m)
