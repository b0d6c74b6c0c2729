-- ===== src/Executor/Budget/Shares.antt =====
-- The shares of the parallel branches add up to what is left of the run's budget.
use fetech.Prelude.{
  ℕ, zero, suc, ◌+◌, ◌-◌, ◌*◌, ◌/◌, ◌%◌, ◌<◌, ◌≤◌, ◌≡◌, refl, min, ltb, if◌then◌else◌, arith,
}
use native.Mathlib.Nat.{mod-lt, div-add-mod}
use fetech.Executor.Budget.{share, float_share}

abbrev pub sum_below : ℕ → (ℕ → ℕ) → ℕ
sum_below zero f = 0
sum_below (suc n) f = sum_below n f + f n

-- What branch `i` may use beyond what was consumed before.
abbrev pub extra : ℕ → ℕ → ℕ → ℕ → ℕ
extra ceiling consumed count i = share ceiling consumed count i - consumed

sum_below-share : (n q r : ℕ) → sum_below n (λ i. q + (if ltb i r then 1 else 0)) ≡ n * q + min n r
sum_below-share zero q r = ground arith
sum_below-share (suc n) q r = ground (arith, sum_below-share n q r)

sum_below-cong : (n : ℕ) (f g : ℕ → ℕ) → ((i : ℕ) → f i ≡ g i) → sum_below n f ≡ sum_below n g
sum_below-cong zero f g h = refl
sum_below-cong (suc n) f g h = omega (arith, sum_below-cong n f g h, h n)

extra_lem :
    (ceiling consumed count i : ℕ)
    → extra ceiling consumed count i
      ≡ (ceiling - consumed) / count + (if ltb i ((ceiling - consumed) % count) then 1 else 0)
unfolding share
extra_lem ceiling consumed count i = ground arith

-- What the branches may use together, beyond what was consumed before them, is exactly what was
-- left of the ceiling: nothing is lost and nothing is handed out twice.
pub shares_add_up :
    (ceiling consumed count : ℕ)
    → 0 < count
    → sum_below count (extra ceiling consumed count) ≡ ceiling - consumed
shares_add_up ceiling consumed count pos =
    let left = ceiling - consumed in
    omega (
      arith,
      sum_below-cong count (extra ceiling consumed count)
          (λ i. left / count + (if ltb i (left % count) then 1 else 0))
          (extra_lem ceiling consumed count),
      sum_below-share count (left / count) (left % count),
      mod-lt left pos,
      div-add-mod left count,
    )

sum_below-le : (n q : ℕ) → sum_below n (λ i. q) ≡ n * q
sum_below-le zero q = omega arith
sum_below-le (suc n) q = omega (arith, sum_below-le n q)

-- The equal parts of a float budget never add up to more than was left.
float_shares_within :
    (ceiling consumed count : ℕ)
    → 0 < count
    → sum_below count (λ i. float_share ceiling consumed count - consumed) ≤ ceiling - consumed
unfolding float_share
float_shares_within ceiling consumed count pos =
    let left = ceiling - consumed in
    omega (
      arith,
      sum_below-cong count (λ i. consumed + left / count - consumed) (λ i. left / count)
          (λ i. omega arith),
      sum_below-le count (left / count),
      div-add-mod left count,
    )
