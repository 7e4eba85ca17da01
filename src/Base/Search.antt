-- ===== src/Base/Search.antt =====
-- sort.Search of Go's standard library.
use Prim.Native.Nat.{ℕ, zero, suc, ◌+◌, ◌/◌, ◌≤◌, ◌<◌}
use mathlib.Core.Path.{◌≡◌}
use mathlib.Core.Logic.{inl, inr}
use mathlib.Core.Bool.{Bool, true, false}
use native.Mathlib.Omega.{arith}
use seol.Base.Tests.{ltb, if◌then◌else◌, Bool-cases}

module _ (test : ℕ → Bool) where
  -- `for i < j { h := (i + j) / 2; if !f(h) { i = h + 1 } else { j = h } }`
  unfoldable pub search_loop : ℕ → ℕ → ℕ → ℕ
  search_loop zero i j = i
  search_loop (suc fuel) i j =
      let h = (i + j) / 2 in
      let left = search_loop fuel i h in
      let right = search_loop fuel (h + 1) j in
      if ltb i j then (if test h then left else right) else i

  -- A round shortens the interval, so `n` rounds are enough.
  unfoldable pub search : ℕ → ℕ
  unfolding search_loop
  search n = search_loop n 0 n

  -- What the caller relies on: the test fails just before the answer and holds at it.
  pub record Found (n r : ℕ) : Type 0 where
    pub inside : r ≤ n
    pub holds_at : r < n → test r ≡ true
    pub fails_before : (k : ℕ) → r ≡ suc k → test k ≡ false

  search_loop-Found :
      (fuel n i j : ℕ)
      → i ≤ j
      → j ≤ n
      → j ≤ fuel + i
      → (j < n → test j ≡ true)
      → ((k : ℕ) → i ≡ suc k → test k ≡ false)
      → Found n (search_loop fuel i j)
  unfolding search_loop
  search_loop-Found zero n i j a b c t f = record {
    inside = omega arith;
    holds_at = λ lt. let same : j ≡ i = omega arith in rw (← same) (t (omega arith));
    fails_before = f;
  }
  search_loop-Found (suc fuel) n i j a b c t f =
      let h = (i + j) / 2 in
      elim (Bool-cases (ltb i j)) [
        | inl lt ↦ rw lt (elim (Bool-cases (test h)) [
          | inl q ↦
              rw q (
                search_loop-Found fuel n i h (ground arith) (ground arith) (ground arith) (λ _. q)
                  f)
          | inr q ↦ rw q (
              search_loop-Found fuel n (h + 1) j (ground arith) (ground arith) (ground arith) t
                (λ k e. let same : h ≡ k = omega arith in rw (← same) q))
        ])
        | inr ge ↦ rw ge (record {
          inside = omega arith;
          holds_at = λ lt. let same : j ≡ i = ground arith in rw (← same) (t (omega arith));
          fails_before = f;
        })
      ]

  pub search_lem : (n : ℕ) → Found n (search n)
  unfolding search
  search_lem n =
      search_loop-Found n n 0 n (omega arith) (omega arith) (omega arith)
        (λ lt. absurd (omega arith)) (λ k e. absurd (omega arith))
