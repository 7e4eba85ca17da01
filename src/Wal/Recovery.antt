-- ===== src/Wal/Recovery.antt =====
-- wal.go: what replayWAL makes of a log that a crash has cut short.
use native.Mathlib.Decide.{dec_lt}
use seol.Base.{ℕ, zero, suc, ◌+◌, ◌-◌, ◌≤◌, ◌<◌, ◌≡◌, refl, ap, ◌∙◌, arith}
use seol.Base.{
  List, [], ◌∷◌, ◌++◌, ==_refl, leb, lt→ltb, le→ltb, le→leb, lt→leb, if◌then◌else◌, length, take,
  drop, length-append, length-take, length-drop, take-append, drop-append, take-append_le,
  take-append_ge,
}
use seol.Base.Result.{Result, ok, ◌>>=◌, >>=-same}
use seol.Base.Bytes.{get_uint}
use seol.Base.Crc.{checksum}
use seol.Record.{
  record_header_size, body, encode, Fits, header, encode-eq-header, length-header, length-encode,
  header_lengths, encode_fields, encode_all, AllFit,
}
use seol.Wal.Replay.{replay_loop, replay, apply_all}

-- The entries whose record lies wholly in the first n bytes of the log.
abbrev pub whole : ℕ → List (List ℕ × List ℕ) → List (List ℕ × List ℕ)
whole n [] = []
whole n ((key, value) ∷ entries) =
    if leb (length (encode key value)) n
    then (key, value) ∷ whole (n - length (encode key value)) entries
    else []

module _ {ℓ} {S : Type ℓ} (fn : List ℕ → List ℕ → S → Result S) where
  replay_step :
      (fuel : ℕ) (bytes key value after : List ℕ) (s : S)
      → record_header_size ≤ length bytes
      → get_uint 4 bytes ≡ checksum (body key value)
      → get_uint 4 (drop 4 bytes) ≡ length key
      → get_uint 4 (drop 8 bytes) ≡ length value
      → drop record_header_size bytes ≡ (key ++ value) ++ after
      → replay_loop fn (suc fuel) bytes s ≡ (fn key value s >>= λ s'. replay_loop fn fuel after s')
  unfolding replay_loop
  replay_step fuel bytes key value after s h e0 e1 e2 e3 =
      rw (le→ltb (length bytes) record_header_size h, e1, e2, e3, e0)
        (rw
          (
            take-append (length key + length value) (key ++ value) after (length-append key value),
            drop-append (length key + length value) (key ++ value) after (length-append key value),
            take-append (length key) key value refl,
            drop-append (length key) key value refl,
            le→ltb (length ((key ++ value) ++ after)) (length key + length value)
                (omega (arith, length-append (key ++ value) after, length-append key value)),
          )
          (unfold body in rw ==_refl refl))

  replay_encoded :
      (fuel : ℕ) (key value after : List ℕ) (s : S)
      → Fits key value
      → replay_loop fn (suc fuel) (encode key value ++ after) s
        ≡ (fn key value s >>= λ s'. replay_loop fn fuel after s')
  replay_encoded fuel key value after s f =
      let (e0, e1, e2, e3) = encode_fields key value f after in
      replay_step fuel (encode key value ++ after) key value after s
        (omega (arith, length-append (encode key value) after, length-encode key value)) e0 e1 e2 e3

  -- A record that is cut short ends the replay without an error.
  replay_torn_step :
      (fuel : ℕ) (bytes : List ℕ) (key_len value_len : ℕ) (s : S)
      → get_uint 4 (drop 4 bytes) ≡ key_len
      → get_uint 4 (drop 8 bytes) ≡ value_len
      → length bytes < record_header_size + key_len + value_len
      → replay_loop fn (suc fuel) bytes s ≡ ok s
  unfolding replay_loop
  replay_torn_step fuel bytes key_len value_len s e1 e2 h =
      elim (dec_lt (length bytes) record_header_size) [
        | yes p ↦ rw (lt→ltb (length bytes) record_header_size p) refl
        | no p ↦
            rw (le→ltb (length bytes) record_header_size (omega arith), e1, e2)
              (rw
                (lt→ltb (length (drop record_header_size bytes)) (key_len + value_len)
                  (omega (arith, length-drop record_header_size bytes)))
                refl)
      ]

  replay_short :
      (fuel : ℕ) (bytes : List ℕ) (s : S)
      → length bytes < record_header_size
      → replay_loop fn (suc fuel) bytes s ≡ ok s
  unfolding replay_loop
  replay_short fuel bytes s h = rw (lt→ltb (length bytes) record_header_size h) refl

  replay_torn :
      (fuel : ℕ) (key value : List ℕ) (k : ℕ) (s : S)
      → Fits key value
      → k < length (encode key value)
      → replay_loop fn (suc fuel) (take k (encode key value)) s ≡ ok s
  replay_torn fuel key value k s f cut = elim (dec_lt k record_header_size) [
    | yes p ↦
        replay_short fuel (take k (encode key value)) s
          (omega (arith, length-take k (encode key value)))
    | no p ↦
        let parts : take k (encode key value)
            ≡ header key value ++ take (k - record_header_size) (key ++ value) =
          rw encode-eq-header (
            take-append_ge k (header key value) (key ++ value)
              (omega (arith, length-header key value))
            ∙ rw (length-header key value) refl) in
        let (e1, e2) = header_lengths key value f (take (k - record_header_size) (key ++ value)) in
        replay_torn_step fuel (take k (encode key value)) (length key) (length value) s
          (ap (λ bytes. get_uint 4 (drop 4 bytes)) parts ∙ e1)
          (ap (λ bytes. get_uint 4 (drop 8 bytes)) parts ∙ e2)
          (omega (arith, length-take k (encode key value), length-encode key value))
  ]

  -- A round of fuel for each record that is whole, and one to see the end.
  replay_cut :
      (fuel n : ℕ) (entries : List (List ℕ × List ℕ)) (s : S)
      → AllFit entries
      → length (take n (encode_all entries)) < fuel
      → replay_loop fn fuel (take n (encode_all entries)) s ≡ apply_all fn (whole n entries) s
  unfolding apply_all
  replay_cut zero n entries s fits h = absurd (omega arith)
  replay_cut (suc fuel) n [] s fits h =
      let none_left : List ℕ = [] in
      replay_short fuel (take n none_left) s (omega (arith, length-take n none_left))
  replay_cut (suc fuel) n ((key, value) ∷ entries) s fits h =
      elim (dec_lt n (length (encode key value))) [
        | yes p ↦ rw (lt→leb (length (encode key value)) n p) (
            ap (λ bytes. replay_loop fn (suc fuel) bytes s)
              (take-append_le n (encode key value) (encode_all entries) (omega arith))
            ∙ replay_torn fuel key value n s fits.0 p)
        | no p ↦
            let rest = take (n - length (encode key value)) (encode_all entries) in
            let e = take-append_ge n (encode key value) (encode_all entries) (omega arith) in
            rw (le→leb (length (encode key value)) n (omega arith)) (
              ap (λ bytes. replay_loop fn (suc fuel) bytes s) e
              ∙ replay_encoded fuel key value rest s fits.0
              ∙ >>=-same (fn key value s) (λ s'. replay_loop fn fuel rest s')
                  (λ s'. apply_all fn (whole (n - length (encode key value)) entries) s')
                  (λ s'. replay_cut fuel (n - length (encode key value)) entries s' fits.1 (
                    omega (
                      arith,
                      ap length e,
                      length-append (encode key value) rest,
                      length-encode key value,
                    ))))
      ]

  -- A log of records that fit, cut anywhere by a crash, replays as the records that are whole in it,
  -- in order, and without an error of its own: the end of the file is no corruption.
  pub replay_torn_log :
      (entries : List (List ℕ × List ℕ)) (n : ℕ) (s : S)
      → AllFit entries
      → replay fn (take n (encode_all entries)) s ≡ apply_all fn (whole n entries) s
  unfolding replay
  replay_torn_log entries n s fits =
      replay_cut (suc (length (take n (encode_all entries)))) n entries s fits (omega arith)
