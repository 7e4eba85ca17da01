-- ===== src/Base/Bytes.antt =====
-- encoding/binary: little-endian integers in byte slices.
use Prim.Native.Nat.{ℕ, zero, suc, ◌+◌, ◌*◌, ◌/◌, ◌%◌, ◌^◌, ◌<◌}
use mathlib.Core.Path.{◌≡◌, refl, ap, ap₂, ◌∙◌}
use mathlib.Core.List.{List, [], ◌∷◌, ◌++◌}
use native.Mathlib.Omega.{arith}
use native.Mathlib.Nat.{pow-suc, one-le-pow}
use seol.Base.Lists.{length, All}

abbrev pub IsByte : ℕ → Type 0
IsByte b = b < 256

-- PutUint16, PutUint32 and PutUint64 at widths 2, 4 and 8: the bytes that they store. A number
-- that does not fit loses its high bytes, as the conversion before the call does.
abbrev pub put_uint : ℕ → ℕ → List ℕ
put_uint zero n = []
put_uint (suc w) n = n % 256 ∷ put_uint w (n / 256)

-- Uint16, Uint32 and Uint64 at widths 2, 4 and 8, on a slice that holds so many bytes.
abbrev pub get_uint : ℕ → List ℕ → ℕ
get_uint zero bs = 0
get_uint (suc w) [] = 0
get_uint (suc w) (b ∷ bs) = b + get_uint w bs * 256

pub length-put_uint : (w n : ℕ) → length (put_uint w n) ≡ w
length-put_uint zero n = refl
length-put_uint (suc w) n = ap suc (length-put_uint w (n / 256))

pub put_uint-IsByte : (w n : ℕ) → All IsByte (put_uint w n)
put_uint-IsByte zero n = tt
put_uint-IsByte (suc w) n = (omega arith, put_uint-IsByte w (n / 256))

pub get_uint-put_uint :
    (w n : ℕ) (rest : List ℕ) → n < 256 ^ w → get_uint w (put_uint w n ++ rest) ≡ n
get_uint-put_uint zero n rest h = omega arith
get_uint-put_uint (suc w) n rest h =
    omega (arith, get_uint-put_uint w (n / 256) rest (omega (arith, pow-suc 256 w)))

pub get_uint-lt : (w : ℕ) (bs : List ℕ) → All IsByte bs → get_uint w bs < 256 ^ w
get_uint-lt zero bs h = omega arith
get_uint-lt (suc w) [] h = one-le-pow (suc w) 256 (omega arith)
get_uint-lt (suc w) (b ∷ bs) h = omega (arith, pow-suc 256 w, get_uint-lt w bs h.1)

pub put_uint-get_uint :
    (w : ℕ) (bs : List ℕ) → length bs ≡ w → All IsByte bs → put_uint w (get_uint w bs) ≡ bs
put_uint-get_uint zero [] e h = refl
put_uint-get_uint zero (b ∷ bs) e h = absurd (omega arith)
put_uint-get_uint (suc w) [] e h = absurd (omega arith)
put_uint-get_uint (suc w) (b ∷ bs) (e) h =
    let low : (b + get_uint w bs * 256) % 256 ≡ b = omega arith in
    let high : (b + get_uint w bs * 256) / 256 ≡ get_uint w bs = omega arith in
    ap₂ ◌∷◌ low (ap (put_uint w) high ∙ put_uint-get_uint w bs (omega arith) h.1)
