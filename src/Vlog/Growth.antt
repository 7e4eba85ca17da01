-- ===== src/Vlog/Growth.antt =====
-- vlog/vlog.go: what ReadValue answers from a log whose files have grown at their ends.
use seol.Base.{ℕ, zero, suc, ◌+◌, ◌-◌, Bool, true, false, not, ◌≡◌, refl}
use seol.Base.{List, ◌++◌, ◌==◌, ltb, if◌then◌else◌, drop, inl, inr}
use seol.Base.Result.{
  Result, ok, ◌>>=◌, ◌>>◌, >>=-mono, bind_both, require, closed, unknown_segment, err,
  checksum_mismatch, length_mismatch, value_checksum_mismatch,
}
use seol.Base.Bytes.{get_uint}
use seol.Base.Crc.{update, checksum}
use seol.Base.Files.{read_at, read_at-append_cases}
use seol.Record.{record_header_size}
use seol.Vlog.{Log, file_of, has_file}
use seol.Vlog.Ref.{ValueRef}
use seol.Vlog.Read.{read_key, value_behind, read_value}
use seol.Vlog.Extends.{Extends}

-- What a file answers, its extension answers.
bind_read-append {ℓ} :
    {A : Type ℓ} (file more : List ℕ) (offset n : ℕ) (f g : List ℕ → Result A) (r : A)
    → ((bytes : List ℕ) → f bytes ≡ ok r → g bytes ≡ ok r)
    → (read_at file offset n >>= f) ≡ ok r
    → (read_at (file ++ more) offset n >>= g) ≡ ok r
bind_read-append file more offset n f g r h e = elim (read_at-append_cases file more offset n) [
  | inl past ↦ absurd (cc (rw past at e))
  | inr same ↦ rw same (>>=-mono (read_at file offset n) f g r h e)
]

read_key-append :
    (fuel left : ℕ) (file more : List ℕ) (offset crc : ℕ) (r : ℕ × ℕ)
    → read_key fuel left file offset crc ≡ ok r
    → read_key fuel left (file ++ more) offset crc ≡ ok r
unfolding read_key
read_key-append fuel zero file more offset crc r e = e
read_key-append zero (suc left) file more offset crc r e = absurd (cc e)
read_key-append (suc fuel) (suc left) file more offset crc r e =
    let chunk = if ltb (suc left) 256 then suc left else 256 in
    bind_read-append file more offset chunk
      (λ scratch. read_key fuel (suc left - chunk) file (offset + chunk) (update crc scratch))
      (λ scratch.
        read_key fuel (suc left - chunk) (file ++ more) (offset + chunk) (update crc scratch))
      r
      (λ scratch.
        read_key-append fuel (suc left - chunk) file more (offset + chunk) (update crc scratch) r)
      e

then_mono {ℓ} :
    {A : Type ℓ} (u : Result (Unit {0})) (m m' : Result A) (a : A)
    → (m ≡ ok a → m' ≡ ok a)
    → (u >> m) ≡ ok a
    → (u >> m') ≡ ok a
then_mono (ok u) m m' a h e = h e
then_mono (err x) m m' a h e = absurd (cc e)

value_behind-append :
    (file more : List ℕ) (ref : ValueRef) (header v : List ℕ)
    → value_behind file ref header ≡ ok v
    → value_behind (file ++ more) ref header ≡ ok v
unfolding value_behind
value_behind-append file more ref header v e =
    let key_len = get_uint 4 (drop 4 header) in
    let value_len = get_uint 4 (drop 8 header) in
    let start = ref.offset + record_header_size in
    let crc = update 0 (drop 4 header) in
    let checked = λ (x : ℕ × ℕ) (value : List ℕ).
      require (update x.0 value == get_uint 4 header) checksum_mismatch
      >> (require (checksum value == ref.checksum) value_checksum_mismatch >> ok value) in
    then_mono (require (value_len == ref.value_len) length_mismatch)
      (read_key key_len key_len file start crc >>= λ x. read_at file x.1 value_len >>= checked x)
      (read_key key_len key_len (file ++ more) start crc >>= λ x.
        read_at (file ++ more) x.1 value_len >>= checked x)
      v
      (bind_both (read_key key_len key_len file start crc)
        (read_key key_len key_len (file ++ more) start crc)
        (λ x. read_at file x.1 value_len >>= checked x)
        (λ x. read_at (file ++ more) x.1 value_len >>= checked x) v
        (λ x. read_key-append key_len key_len file more start crc x)
        (λ x. bind_read-append file more x.1 value_len (checked x) (checked x) v (λ bytes q. q)))
      e

guards_mono {ℓ} :
    {A : Type ℓ} (b b' c c' : Bool) (m m' : Result A) (r : A)
    → b' ≡ b
    → (c ≡ true → c' ≡ true)
    → (m ≡ ok r → m' ≡ ok r)
    → (require (not b) closed >> (require c unknown_segment >> m)) ≡ ok r
    → (require (not b') closed >> (require c' unknown_segment >> m')) ≡ ok r
guards_mono true b' c c' m m' r q h k e = absurd (cc e)
guards_mono false b' true c' m m' r q h k e = rw (q, h refl) (k e)
guards_mono false b' false c' m m' r q h k e = absurd (cc e)

-- A value that can be read can be read from every extension.
pub read_value-Extends :
    {l l' : Log} (ref : ValueRef) (v : List ℕ)
    → Extends l l'
    → read_value l ref ≡ ok v
    → read_value l' ref ≡ ok v
unfolding read_value
read_value-Extends {l} {l'} ref v x e =
    let file = file_of l ref.segment_id in
    let (more, grown) = x.grows ref.segment_id in
    rw grown (
      guards_mono l.is_closed l'.is_closed (has_file l ref.segment_id) (has_file l' ref.segment_id)
        (read_at file ref.offset record_header_size >>= value_behind file ref)
        (read_at (file ++ more) ref.offset record_header_size >>= value_behind (file ++ more) ref) v
        x.closed_alike (x.handles ref.segment_id)
        (bind_read-append file more ref.offset record_header_size (value_behind file ref)
          (value_behind (file ++ more) ref) v
          (λ header. value_behind-append file more ref header v))
        e)
