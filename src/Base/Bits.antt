-- ===== src/Base/Bits.antt =====
-- `&`, `|` and `^` of Go by their binary digits, at variables.
use Prim.Native.Nat.{
  bit_and, bit_or, bit_xor, digits, bit_and-bitwise, bit_or-bitwise, bit_xor-bitwise, differ,
}
use Prim.Native.Nat.{ℕ, zero, suc, ◌+◌, ◌*◌, ◌/◌, ◌%◌, ◌^◌, ◌≤◌, ◌<◌, min, max}
use mathlib.Core.Logic.{◌≢◌}
use mathlib.Core.Path.{◌≡◌, refl, sym, ap, ap₂, ◌∙◌}
use native.Mathlib.Omega.{arith}
use native.Mathlib.Nat.{pow-suc, pow-succ', div-div-eq-div-mul}

-- One digit of x bitwise operation whose left end is `rest` and whose digits meet by `f`.
module _ (rest : ℕ → ℕ) (f : ℕ → ℕ → ℕ) where
  abbrev by_digits : ℕ → ℕ → ℕ → ℕ
  by_digits fuel x y = digits rest f fuel x y

  by_digits_fuel :
      (fuel more x y : ℕ) → x ≤ fuel → x ≤ more → by_digits fuel x y ≡ by_digits more x y
  by_digits_fuel (suc fuel) (suc more) (suc x) y p q =
      omega (arith, by_digits_fuel fuel more (suc x / 2) (y / 2) (omega arith) (omega arith))
  by_digits_fuel zero (suc more) (suc x) y p q = absurd (omega arith)
  by_digits_fuel zero (suc more) zero y p q = refl
  by_digits_fuel (suc fuel) zero (suc x) y p q = absurd (omega arith)
  by_digits_fuel (suc fuel) (suc more) zero y p q = refl
  by_digits_fuel (suc fuel) zero zero y p q = refl
  by_digits_fuel zero zero x y p q = refl

zero-bit_and : (y : ℕ) → bit_and 0 y ≡ 0
zero-bit_and y = bit_and-bitwise 0 y

zero-bit_or : (y : ℕ) → bit_or 0 y ≡ y
zero-bit_or y = bit_or-bitwise 0 y

pub zero-bit_xor : (y : ℕ) → bit_xor 0 y ≡ y
zero-bit_xor y = bit_xor-bitwise 0 y

pub bit_and_step : (x y : ℕ) → bit_and x y ≡ bit_and (x / 2) (y / 2) * 2 + min (x % 2) (y % 2)
bit_and_step zero y = omega (arith, zero-bit_and y, zero-bit_and (y / 2))
bit_and_step (suc x) y = omega (
  arith,
  bit_and-bitwise (suc x) y,
  bit_and-bitwise (suc x / 2) (y / 2),
  by_digits_fuel (λ y. zero) min x (suc x / 2) (suc x / 2) (y / 2) (omega arith) (omega arith),
)

pub bit_or_step : (x y : ℕ) → bit_or x y ≡ bit_or (x / 2) (y / 2) * 2 + max (x % 2) (y % 2)
bit_or_step zero y = omega (arith, zero-bit_or y, zero-bit_or (y / 2))
bit_or_step (suc x) y = omega (
  arith,
  bit_or-bitwise (suc x) y,
  bit_or-bitwise (suc x / 2) (y / 2),
  by_digits_fuel (λ y. y) max x (suc x / 2) (suc x / 2) (y / 2) (omega arith) (omega arith),
)

pub bit_xor_step : (x y : ℕ) → bit_xor x y ≡ bit_xor (x / 2) (y / 2) * 2 + differ (x % 2) (y % 2)
bit_xor_step zero y = omega (arith, zero-bit_xor y, zero-bit_xor (y / 2))
bit_xor_step (suc x) y = omega (
  arith,
  bit_xor-bitwise (suc x) y,
  bit_xor-bitwise (suc x / 2) (y / 2),
  by_digits_fuel (λ y. y) differ x (suc x / 2) (suc x / 2) (y / 2) (omega arith) (omega arith),
)

half_pow : (k : ℕ) → 2 ^ suc k / 2 ≡ 2 ^ k
half_pow k = omega (arith, pow-suc 2 k)

-- Digit `k` of a number.
abbrev pub digit : ℕ → ℕ → ℕ
digit n k = n / 2 ^ k % 2

digit-suc : (n k : ℕ) → digit n (suc k) ≡ digit (n / 2) k
digit-suc n k =
    ap (λ (m : ℕ). m % 2)
      (ap (λ (m : ℕ). n / m) (pow-succ' 2 k) ∙ sym (div-div-eq-div-mul n 2 (2 ^ k)))

pub digit-bit_or : (k a b : ℕ) → digit (bit_or a b) k ≡ max (digit a k) (digit b k)
digit-bit_or zero a b = omega (arith, bit_or_step a b)
digit-bit_or (suc k) a b =
    digit-suc (bit_or a b) k
    ∙ ap (λ (n : ℕ). digit n k) half
    ∙ digit-bit_or k (a / 2) (b / 2)
    ∙ sym (ap₂ max (digit-suc a k) (digit-suc b k))
  where
    half : bit_or a b / 2 ≡ bit_or (a / 2) (b / 2)
    half = omega (arith, bit_or_step a b)

pub digit-lt : (n k : ℕ) → digit n k < 2
digit-lt n k = omega arith

pub digit-zero : (k : ℕ) → digit 0 k ≡ 0
digit-zero zero = refl
digit-zero (suc k) = digit-suc 0 k ∙ digit-zero k

-- The digits of a power of two.
pub digit-two-pow_self : (k : ℕ) → digit (2 ^ k) k ≡ 1
digit-two-pow_self zero = refl
digit-two-pow_self (suc k) =
    digit-suc (2 ^ suc k) k ∙ ap (λ (n : ℕ). digit n k) (half_pow k) ∙ digit-two-pow_self k

pub digit-two-pow_ne : (k m : ℕ) → k ≢ m → digit (2 ^ k) m ≡ 0
digit-two-pow_ne zero zero h = absurd (h refl)
digit-two-pow_ne zero (suc m) h = digit-suc 1 m ∙ digit-zero m
digit-two-pow_ne (suc k) zero h = omega (arith, pow-suc 2 k)
digit-two-pow_ne (suc k) (suc m) h =
    digit-suc (2 ^ suc k) m
    ∙ ap (λ (n : ℕ). digit n m) (half_pow k)
    ∙ digit-two-pow_ne k m (λ e. h (ap suc e))

bit_and-zero_fuel : (fuel x : ℕ) → x ≤ fuel → bit_and x 0 ≡ 0
bit_and-zero_fuel fuel zero h = zero-bit_and 0
bit_and-zero_fuel zero (suc x) h = absurd (omega arith)
bit_and-zero_fuel (suc fuel) (suc x) h =
    omega (arith, bit_and_step (suc x) 0, bit_and-zero_fuel fuel (suc x / 2) (omega arith))

pub bit_and-zero : (x : ℕ) → bit_and x 0 ≡ 0
bit_and-zero x = bit_and-zero_fuel x x (omega arith)

-- `a & (1 << k)` is digit `k` of `a`, in its place.
pub bit_and-two-pow : (k a : ℕ) → bit_and a (2 ^ k) ≡ digit a k * 2 ^ k
bit_and-two-pow zero a = omega (arith, bit_and_step a 1, bit_and-zero (a / 2))
bit_and-two-pow (suc k) a = ground (
  arith,
  bit_and_step a (2 ^ suc k),
  pow-suc 2 k,
  half_pow k,
  digit-suc a k,
  bit_and-two-pow k (a / 2),
  ap (λ (t : ℕ). digit (a / 2) k * t) (pow-suc 2 k),
)

differ-lt_two : (x y : ℕ) → x < 2 → y < 2 → differ x y < 2
differ-lt_two zero y p q = q
differ-lt_two (suc x) zero p q = p
differ-lt_two (suc x) (suc y) p q = differ-lt_two x y (omega arith) (omega arith)

differ-differ : (x y : ℕ) → x < 2 → y < 2 → differ x (differ x y) ≡ y
differ-differ zero y p q = refl
differ-differ (suc zero) zero p q = refl
differ-differ (suc zero) (suc zero) p q = refl
differ-differ (suc zero) (suc (suc y)) p q = absurd (omega arith)
differ-differ (suc (suc x)) y p q = absurd (omega arith)

differ-lt : (a b : ℕ) → differ (a % 2) (b % 2) < 2
differ-lt a b = differ-lt_two (a % 2) (b % 2) (omega arith) (omega arith)

differ_twice : (a b : ℕ) → differ (a % 2) (differ (a % 2) (b % 2)) ≡ b % 2
differ_twice a b = differ-differ (a % 2) (b % 2) (omega arith) (omega arith)

pub bit_xor-lt : (k a b : ℕ) → a < 2 ^ k → b < 2 ^ k → bit_xor a b < 2 ^ k
bit_xor-lt zero zero b p q = rw zero-bit_xor q
bit_xor-lt zero (suc a) b p q = absurd (omega arith)
bit_xor-lt (suc k) a b p q = omega (
  arith,
  bit_xor_step a b,
  differ-lt a b,
  pow-suc 2 k,
  bit_xor-lt k (a / 2) (b / 2) (omega (arith, pow-suc 2 k)) (omega (arith, pow-suc 2 k)),
)

bit_xor_twice_fuel : (n a b : ℕ) → a ≤ n → bit_xor a (bit_xor a b) ≡ b
bit_xor_twice_fuel n zero b h = zero-bit_xor (bit_xor 0 b) ∙ zero-bit_xor b
bit_xor_twice_fuel zero (suc a) b h = absurd (omega arith)
bit_xor_twice_fuel (suc n) (suc a) b h =
    bit_xor_step (suc a) (bit_xor (suc a) b)
    ∙ ap₂ (λ (x y : ℕ). bit_xor (suc a / 2) x * 2 + differ (suc a % 2) y) whole odd
    ∙ omega (arith, differ_twice (suc a) b, bit_xor_twice_fuel n (suc a / 2) (b / 2) (omega arith))
  where
    whole : bit_xor (suc a) b / 2 ≡ bit_xor (suc a / 2) (b / 2)
    whole = omega (arith, bit_xor_step (suc a) b, differ-lt (suc a) b)

    odd : bit_xor (suc a) b % 2 ≡ differ (suc a % 2) (b % 2)
    odd = omega (arith, bit_xor_step (suc a) b, differ-lt (suc a) b)

-- `a ^ (a ^ b)` is `b`.
pub bit_xor_twice : (a b : ℕ) → bit_xor a (bit_xor a b) ≡ b
bit_xor_twice a b = bit_xor_twice_fuel a a b (omega arith)
