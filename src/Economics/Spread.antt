-- ===== src/Economics/Spread.antt =====
-- The house edge: a provider is paid less than the consumer is charged.
use mlx_mesh.Base.{ℕ, suc, ◌*◌, ◌≤◌, ◌<◌, ◌≡◌, false, String, arith, ◌==◌}
use mlx_mesh.Base.Int.{ℤ, pos, ◌+ℤ◌, ◌≤ℤ◌, int_laws}
use mlx_mesh.Economics.{
  Lane, fast, background, other, base_cost_per_k_token, round_div, lane_multiplier,
  sensitivity_multiplier, consumer_cost, provider_reward, network_margin,
}

pub lane_multiplier_pos : (lane : Lane) → 1 ≤ lane_multiplier lane
unfolding lane_multiplier
lane_multiplier_pos fast = omega arith
lane_multiplier_pos background = omega arith
lane_multiplier_pos (other _) = omega arith

pub sensitivity_multiplier_pos : (s : String) → 1 ≤ sensitivity_multiplier s
unfolding sensitivity_multiplier
sensitivity_multiplier_pos s = ground arith

product_pos : (a b : ℕ) → 1 ≤ a → 1 ≤ b → 1 ≤ a * b
product_pos a b h k = grind arith

rate_pos :
    (lane : Lane) (s : String)
    → 1 ≤ base_cost_per_k_token * lane_multiplier lane * sensitivity_multiplier s
rate_pos lane s =
    omega (arith, product_pos _ _ (lane_multiplier_pos lane) (sensitivity_multiplier_pos s))

round_div_ten : (n p : ℕ) → 1 ≤ p → 3 ≤ round_div (suc n * 10 * p) 4
unfolding round_div
round_div_ten n p h = omega (arith, product_pos (suc n) p (omega arith) h)

-- The smallest price of work that produced a token: 0.0003 credits.
pub consumer_cost_min :
    (lane : Lane) (s : String) (tokens : ℕ) → 3 ≤ consumer_cost lane s (pos (suc tokens))
unfolding consumer_cost
consumer_cost_min lane s tokens =
    let test : (suc tokens == 0) ≡ false = ground arith in
    rw test (round_div_ten tokens _ (rate_pos lane s))

-- A provider is paid strictly less than the consumer is charged for the same work, whenever any
-- output token was produced, in every lane and at every sensitivity.
pub provider_reward-lt :
    (lane : Lane) (s : String) (tokens : ℕ)
    → provider_reward lane s (pos (suc tokens)) < consumer_cost lane s (pos (suc tokens))
unfolding provider_reward round_div
provider_reward-lt lane s tokens = omega (arith, consumer_cost_min lane s tokens)

pub provider_reward-le :
    (lane : Lane) (s : String) (tokens : ℤ)
    → provider_reward lane s tokens ≤ consumer_cost lane s tokens
unfolding provider_reward round_div
provider_reward-le lane s tokens = omega arith

-- The margin is what is left of the price, it is never negative, and it is at least a credit of the
-- smallest unit on any work that produced a token.
pub network_margin_bounds :
    (lane : Lane) (s : String) (tokens : ℕ)
    → let t = pos (suc tokens) in
      (pos 1 ≤ℤ network_margin lane s t)
      × (network_margin lane s t +ℤ pos (provider_reward lane s t) ≡ pos (consumer_cost lane s t))
unfolding network_margin
network_margin_bounds lane s tokens =
    let lt = provider_reward-lt lane s tokens in (omega int_laws, omega int_laws)

scale_mono : (m n p : ℕ) → m ≤ n → round_div (m * 10 * p) 4 ≤ round_div (n * 10 * p) 4
unfolding round_div
scale_mono m n p h = let scaled : m * p ≤ n * p = grind arith in omega (arith, scaled)

-- More tokens never cost less.
pub consumer_cost_mono :
    (lane : Lane) (s : String) (m n : ℕ)
    → m ≤ n
    → consumer_cost lane s (pos m) ≤ consumer_cost lane s (pos n)
unfolding consumer_cost
consumer_cost_mono lane s m n h = ground (
  arith,
  scale_mono m n (base_cost_per_k_token * lane_multiplier lane * sensitivity_multiplier s) h,
)
