-- ===== src/Base/Result.antt =====
-- Go's (value, error) pairs.
use mathlib.Core.Path.{◌≡◌, refl}
use mathlib.Core.Logic.{◌⊎◌, inl, inr}
use mathlib.Core.Bool.{Bool, true, false}

-- The errors that the program makes, by their messages, and those that it passes on from `io`.
pub data Error : Type 0 where
  closed missing_active unknown_segment record_too_large : Error
  eof short_write not_exist : Error
  length_mismatch checksum_mismatch value_checksum_mismatch invalid_tail : Error
  data_too_short invalid_magic unsupported_version invalid_bit_count : Error
  invalid_hash_count invalid_data_length invalid_index_offset : Error
  truncated_header truncated_body entry_too_large : Error
  value_log_nil missing_table io_error : Error
  -- No Go value: a loop of the model had no rounds left.
  out_of_fuel invalid_record_size not_durable : Error
  -- A runtime panic of a slice expression.
  out_of_range : Error

pub data Result {ℓ} (A : Type ℓ) : Type ℓ where
  ok : A → Result A
  err : Error → Result A

infixl 5 ◌>>=◌ ◌>>◌
abbrev pub ◌>>=◌ {ℓ κ} : {A : Type ℓ} {B : Type κ} → Result A → (A → Result B) → Result B
err e >>= next = err e
ok a >>= next = next a

abbrev pub ◌>>◌ {ℓ} : {B : Type ℓ} → Result (Unit {0}) → Result B → Result B
err e >> rest = err e
ok u >> rest = rest

-- `if !test { return err }`
abbrev pub require : Bool → Error → Result (Unit {0})
require true e = ok tt
require false e = err e

abbrev pub map_result {ℓ κ} : {A : Type ℓ} {B : Type κ} → (A → B) → Result A → Result B
map_result f (ok a) = ok (f a)
map_result f (err e) = err e

pub Result-cases {ℓ} :
    {A : Type ℓ} (r : Result A) → ((a : A) × (r ≡ ok a)) ⊎ ((e : Error) × (r ≡ err e))
Result-cases (ok a) = inl (a, refl)
Result-cases (err e) = inr (e, refl)

-- A bind whose continuation answers `ok b` more often.
pub >>=-mono {ℓ κ} :
    {A : Type ℓ} {B : Type κ} (m : Result A) (f g : A → Result B) (b : B)
    → ((a : A) → f a ≡ ok b → g a ≡ ok b)
    → (m >>= f) ≡ ok b
    → (m >>= g) ≡ ok b
>>=-mono (ok a) f g b h e = h a e
>>=-mono (err x) f g b h e = absurd (cc e)

pub >>=-same {ℓ κ} :
    {A : Type ℓ} {B : Type κ} (m : Result A) (f g : A → Result B)
    → ((a : A) → f a ≡ g a)
    → (m >>= f) ≡ (m >>= g)
>>=-same (ok a) f g h = h a
>>=-same (err x) f g h = refl

-- A bind of a call that answers alike.
pub bind_both {ℓ κ} :
    {A : Type ℓ} {B : Type κ} (m m' : Result A) (f g : A → Result B) (b : B)
    → ((a : A) → m ≡ ok a → m' ≡ ok a)
    → ((a : A) → f a ≡ ok b → g a ≡ ok b)
    → (m >>= f) ≡ ok b
    → (m' >>= g) ≡ ok b
bind_both (ok a) m' f g b h k e = rw (h a refl) (k a e)
bind_both (err x) m' f g b h k e = absurd (cc e)
