-- ===== src/Economics/Activity.antt =====
-- The discount on a quiet network, and the treasury's margin under it.
use mlx_mesh.Base.{ℕ, suc, ◌+◌, ◌*◌, ◌/◌, ◌≤◌, ◌<◌, ◌≡◌, String, arith}
use native.Mathlib.Nat.{div-lt_iff_lt-mul, mul_comm}
use mlx_mesh.Base.Int.{ℤ}
use mlx_mesh.Economics.{
  Lane, Ratio, round_div, consumer_cost, provider_reward, activity_discount,
  activity_ceiling_backpressure_pct, paid_quarters, consumer_cost_with_activity_discount,
}
use mlx_mesh.Economics.Spread.{provider_reward-le}

-- The discount is a multiplier between three quarters and one.
pub activity_discount_bounds :
    (pct : Ratio)
    → 0 < pct.den
    → let d = activity_discount pct in (0 < d.den) × (d.num ≤ d.den) × (3 * d.den ≤ 4 * d.num)
unfolding activity_discount
activity_discount_bounds pct h = ground arith

-- A whole price times a multiplier of at most one rounds to at most the price.
round_div-le : (c n d : ℕ) → 0 < d → n ≤ d → round_div (c * n) d ≤ c
unfolding round_div
round_div-le c n d h k =
    let scaled : c * n ≤ c * d = grind arith in
    let below : (2 * (c * n) + d) / (2 * d) < suc c =
      (div-lt_iff_lt-mul (omega arith)).1 (omega (arith, scaled)) in
    omega arith

-- Whatever the backpressure, the discounted price lies between what the provider is paid and the
-- undiscounted price: the discount is paid out of the margin alone.
pub discounted_bounds :
    (lane : Lane) (s : String) (tokens : ℤ) (pct : Ratio)
    → 0 < pct.den
    → let price = consumer_cost_with_activity_discount lane s tokens pct in
      (provider_reward lane s tokens ≤ price) × (price ≤ consumer_cost lane s tokens)
unfolding consumer_cost_with_activity_discount
discounted_bounds lane s tokens pct h =
    let (den, below, _) = activity_discount_bounds pct h in
    let d = activity_discount pct in
    (
      omega arith,
      omega (
        arith,
        round_div-le (consumer_cost lane s tokens) d.num d.den den below,
        provider_reward-le lane s tokens,
      ),
    )

discount_idle :
    (pct : Ratio)
    → 0 < pct.den
    → pct.num ≡ 0
    → activity_discount pct ≡ record { num = paid_quarters; den = 4 }
unfolding activity_discount
discount_idle pct h z = ground arith

discount_busy :
    (pct : Ratio)
    → activity_ceiling_backpressure_pct * pct.den ≤ pct.num
    → activity_discount pct ≡ record { num = 1; den = 1 }
unfolding activity_discount
discount_busy pct z = ground arith

-- On an idle network the consumer is charged exactly what the provider is paid: the margin is zero
-- and never less.
pub discounted_idle :
    (lane : Lane) (s : String) (tokens : ℤ) (pct : Ratio)
    → 0 < pct.den
    → pct.num ≡ 0
    → consumer_cost_with_activity_discount lane s tokens pct ≡ provider_reward lane s tokens
unfolding consumer_cost_with_activity_discount provider_reward
discounted_idle lane s tokens pct h z =
    rw (discount_idle pct h z, mul_comm (consumer_cost lane s tokens) 3) (omega arith)

-- From the ceiling of the backpressure on the price is the undiscounted one.
pub discounted_busy :
    (lane : Lane) (s : String) (tokens : ℤ) (pct : Ratio)
    → activity_ceiling_backpressure_pct * pct.den ≤ pct.num
    → consumer_cost_with_activity_discount lane s tokens pct ≡ consumer_cost lane s tokens
unfolding consumer_cost_with_activity_discount round_div
discounted_busy lane s tokens pct z =
    rw (discount_busy pct z) (omega (arith, provider_reward-le lane s tokens))
