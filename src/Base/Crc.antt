-- ===== src/Base/Crc.antt =====
-- hash/crc32 of Go's standard library with the IEEE table: the byte-wise algorithm that
-- `ChecksumIEEE`, `Update` and the hash of `NewIEEE` compute.
use Prim.Native.Nat.{ℕ, zero, suc, ◌/◌, ◌%◌, ◌^◌, ◌<◌, bit_xor}
use mathlib.Core.Path.{◌≡◌, refl, sym, ap, ◌∙◌}
use mathlib.Core.List.{List, [], ◌∷◌, ◌++◌}
use native.Mathlib.Omega.{arith}
use seol.Base.Tests.{◌==◌, if◌then◌else◌}
use seol.Base.Lists.{All}
use seol.Base.Bits.{bit_xor-lt, bit_xor_twice}
use seol.Base.Bytes.{IsByte}

-- One bit of a table entry, for the reversed polynomial.
shift_bit : ℕ → ℕ
shift_bit n = if n % 2 == 1 then bit_xor (n / 2) 0xedb88320 else n / 2

shift_bits : ℕ → ℕ → ℕ
unfolding shift_bit
shift_bits zero n = n
shift_bits (suc k) n = shift_bits k (shift_bit n)

-- `tab[byte(crc)^v] ^ (crc >> 8)`
add_byte : ℕ → ℕ → ℕ
unfolding shift_bits
add_byte crc v = bit_xor (shift_bits 8 (bit_xor (crc % 256) v)) (crc / 256)

add_bytes : ℕ → List ℕ → ℕ
unfolding add_byte
add_bytes crc [] = crc
add_bytes crc (v ∷ vs) = add_bytes (add_byte crc v) vs

-- crc32.Update
unfoldable pub update : ℕ → List ℕ → ℕ
unfolding add_bytes
update crc bs = bit_xor 0xffff_ffff (add_bytes (bit_xor 0xffff_ffff crc) bs)

-- crc32.ChecksumIEEE
unfoldable pub checksum : List ℕ → ℕ
unfolding update
checksum bs = update 0 bs

add_bytes-append :
    (crc : ℕ) (xs ys : List ℕ) → add_bytes crc (xs ++ ys) ≡ add_bytes (add_bytes crc xs) ys
unfolding add_bytes
add_bytes-append crc [] ys = refl
add_bytes-append crc (x ∷ xs) ys = add_bytes-append (add_byte crc x) xs ys

-- A checksum that is carried on over a second slice is that of the two slices together.
pub update-update : (crc : ℕ) (xs ys : List ℕ) → update (update crc xs) ys ≡ update crc (xs ++ ys)
unfolding update
update-update crc xs ys = ap (bit_xor 0xffff_ffff) (
    ap (λ (c : ℕ). add_bytes c ys) (bit_xor_twice 0xffff_ffff _)
    ∙ sym (add_bytes-append (bit_xor 0xffff_ffff crc) xs ys))

pub update-nil : (crc : ℕ) → update crc [] ≡ crc
unfolding update
update-nil crc = bit_xor_twice 0xffff_ffff crc

-- The checksum of two slices that a running hash is given one after the other.
pub checksum-append : (xs ys : List ℕ) → update (update 0 xs) ys ≡ checksum (xs ++ ys)
unfolding checksum
checksum-append xs ys = update-update 0 xs ys

shift_bit-lt : (n : ℕ) → n < 2 ^ 32 → shift_bit n < 2 ^ 32
unfolding shift_bit
shift_bit-lt n h = ground (arith, bit_xor-lt 32 (n / 2) 0xedb88320 (omega arith) (omega arith))

shift_bits-lt : (k n : ℕ) → n < 2 ^ 32 → shift_bits k n < 2 ^ 32
unfolding shift_bits
shift_bits-lt zero n h = h
shift_bits-lt (suc k) n h = shift_bits-lt k (shift_bit n) (shift_bit-lt n h)

add_byte-lt : (crc v : ℕ) → crc < 2 ^ 32 → IsByte v → add_byte crc v < 2 ^ 32
unfolding add_byte
add_byte-lt crc v h b =
    bit_xor-lt 32 _ _
      (shift_bits-lt 8 _ (
        let small : bit_xor (crc % 256) v < 2 ^ 8 = bit_xor-lt 8 _ _ (omega arith) b in
        omega arith))
      (omega arith)

add_bytes-lt : (crc : ℕ) (bs : List ℕ) → crc < 2 ^ 32 → All IsByte bs → add_bytes crc bs < 2 ^ 32
unfolding add_bytes
add_bytes-lt crc [] h b = h
add_bytes-lt crc (v ∷ vs) h b = add_bytes-lt (add_byte crc v) vs (add_byte-lt crc v h b.0) b.1

pub checksum-lt : (bs : List ℕ) → All IsByte bs → checksum bs < 2 ^ 32
unfolding checksum update
checksum-lt bs b =
    bit_xor-lt 32 0xffff_ffff _ (omega arith)
      (add_bytes-lt _ bs (bit_xor-lt 32 0xffff_ffff 0 (omega arith) (omega arith)) b)

-- The check value of the algorithm: the checksum of "123456789".
check_value :
    checksum (0x31 ∷ 0x32 ∷ 0x33 ∷ 0x34 ∷ 0x35 ∷ 0x36 ∷ 0x37 ∷ 0x38 ∷ 0x39 ∷ []) ≡ 0xcbf43926
unfolding checksum
check_value = refl
