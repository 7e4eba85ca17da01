-- ===== src/Base/Order.antt =====
-- bytes.Equal and bytes.Compare.
use Prim.Native.Nat.{ℕ, compare, Ordering}
use mathlib.Core.Path.{◌≡◌, refl}
use mathlib.Core.Bool.{Bool, true, false, ◌&&◌}
use mathlib.Core.List.{List, [], ◌∷◌}
use native.Mathlib.Omega.{arith}
use seol.Base.Tests.{◌==◌}

unfoldable pub bytes_equal : List ℕ → List ℕ → Bool
bytes_equal [] [] = true
bytes_equal [] (b ∷ bs) = false
bytes_equal (a ∷ as') [] = false
bytes_equal (a ∷ as') (b ∷ bs) = a == b && bytes_equal as' bs

then_compare : Ordering → Ordering → Ordering
then_compare Ordering.eq o = o
then_compare o _ = o

unfoldable pub bytes_compare : List ℕ → List ℕ → Ordering
unfolding then_compare
bytes_compare [] [] = Ordering.eq
bytes_compare [] (b ∷ bs) = Ordering.lt
bytes_compare (a ∷ as') [] = Ordering.gt
bytes_compare (a ∷ as') (b ∷ bs) = then_compare (compare a b) (bytes_compare as' bs)

-- `bytes.Compare(a, b) < 0`, `<= 0`
abbrev pub bytes_lt : List ℕ → List ℕ → Bool
bytes_lt a b = elim (bytes_compare a b) [ Ordering.lt ↦ true | _ ↦ false ]

abbrev pub bytes_le : List ℕ → List ℕ → Bool
bytes_le a b = elim (bytes_compare a b) [ Ordering.gt ↦ false | _ ↦ true ]

pub bytes_equal_refl : (a : List ℕ) → bytes_equal a a ≡ true
unfolding bytes_equal
bytes_equal_refl [] = refl
bytes_equal_refl (a ∷ as') = ground (arith, bytes_equal_refl as')

pub bytes_equal→eq : (a b : List ℕ) → bytes_equal a b ≡ true → a ≡ b
unfolding bytes_equal
bytes_equal→eq [] [] e = refl
bytes_equal→eq [] (b ∷ bs) e = cc
bytes_equal→eq (a ∷ as') [] e = cc
bytes_equal→eq (a ∷ as') (b ∷ bs) e = ground (arith, bytes_equal→eq as' bs)

pub bytes_compare→eq : (a b : List ℕ) → bytes_compare a b ≡ Ordering.eq → a ≡ b
unfolding bytes_compare
bytes_compare→eq [] [] e = refl
bytes_compare→eq [] (b ∷ bs) e = cc
bytes_compare→eq (a ∷ as') [] e = cc
bytes_compare→eq (a ∷ as') (b ∷ bs) e = ground (arith, bytes_compare→eq as' bs)

pub bytes_compare_refl : (a : List ℕ) → bytes_compare a a ≡ Ordering.eq
unfolding bytes_compare
bytes_compare_refl [] = refl
bytes_compare_refl (a ∷ as') = ground (arith, bytes_compare_refl as')

abbrev pub opposite : Ordering → Ordering
opposite Ordering.lt = Ordering.gt
opposite Ordering.eq = Ordering.eq
opposite Ordering.gt = Ordering.lt

pub bytes_compare_swap : (a b : List ℕ) → bytes_compare b a ≡ opposite (bytes_compare a b)
unfolding bytes_compare
bytes_compare_swap [] [] = refl
bytes_compare_swap [] (b ∷ bs) = refl
bytes_compare_swap (a ∷ as') [] = refl
bytes_compare_swap (a ∷ as') (b ∷ bs) = ground (arith, bytes_compare_swap as' bs)

pub bytes_lt_trans :
    (a b c : List ℕ) → bytes_lt a b ≡ true → bytes_lt b c ≡ true → bytes_lt a c ≡ true
unfolding bytes_compare
bytes_lt_trans [] [] c p q = cc
bytes_lt_trans [] (b ∷ bs) [] p q = cc
bytes_lt_trans [] (b ∷ bs) (c ∷ cs) p q = refl
bytes_lt_trans (a ∷ as') [] c p q = cc
bytes_lt_trans (a ∷ as') (b ∷ bs) [] p q = cc
bytes_lt_trans (a ∷ as') (b ∷ bs) (c ∷ cs) p q = ground (arith, bytes_lt_trans as' bs cs)

pub bytes_lt_irrefl : (a : List ℕ) → bytes_lt a a ≡ false
unfolding bytes_compare
bytes_lt_irrefl [] = refl
bytes_lt_irrefl (a ∷ as') = ground (arith, bytes_lt_irrefl as')

pub bytes_lt_differs : (a b : List ℕ) → bytes_lt a b ≡ true → bytes_equal a b ≡ false
unfolding bytes_compare bytes_equal
bytes_lt_differs [] [] h = cc
bytes_lt_differs [] (b ∷ bs) h = refl
bytes_lt_differs (a ∷ as') [] h = cc
bytes_lt_differs (a ∷ as') (b ∷ bs) h = ground (arith, bytes_lt_differs as' bs)

pub bytes_gt_differs : (a b : List ℕ) → bytes_lt b a ≡ true → bytes_equal a b ≡ false
unfolding bytes_compare bytes_equal
bytes_gt_differs [] [] h = cc
bytes_gt_differs [] (b ∷ bs) h = cc
bytes_gt_differs (a ∷ as') [] h = refl
bytes_gt_differs (a ∷ as') (b ∷ bs) h = ground (arith, bytes_gt_differs as' bs)

pub bytes_lt_total :
    (a b : List ℕ) → bytes_lt a b ≡ false → bytes_equal a b ≡ false → bytes_lt b a ≡ true
unfolding bytes_compare bytes_equal
bytes_lt_total [] [] h d = cc
bytes_lt_total [] (b ∷ bs) h d = cc
bytes_lt_total (a ∷ as') [] h d = refl
bytes_lt_total (a ∷ as') (b ∷ bs) h d = ground (arith, bytes_lt_total as' bs)

pub bytes_lt_le_trans :
    (a b c : List ℕ) → bytes_lt a b ≡ true → bytes_lt c b ≡ false → bytes_lt a c ≡ true
bytes_lt_le_trans a b c p q = go (bytes_equal c b) refl
  where
    go : (same : Bool) → bytes_equal c b ≡ same → bytes_lt a c ≡ true
    go true e = let d : c ≡ b = bytes_equal→eq c b e in rw d p
    go false e = bytes_lt_trans a b c p (bytes_lt_total c b q e)
