-- ===== src/Economics.antt =====
-- internal/economics/pricing.go. Prices are whole ten-thousandths of a credit, which is what `round4`
-- leaves: the rounding is that of the exact quotient, half up, where the source rounds a float64.
pub mod Spread
pub mod Activity
mod Tests
use mlx_mesh.Base.{
  ℕ, zero, suc, ◌+◌, ◌*◌, ◌/◌, max, Bool, true, false, String, str_eq, leb, ◌==◌, if◌then◌else◌,
}
use mlx_mesh.Base.Int.{ℤ, pos, negsuc, ◌-ℤ◌}

pub data Lane : Type 0 where
  fast background : Lane
  other : String → Lane

-- `math.Round` of num / den.
unfoldable pub round_div : ℕ → ℕ → ℕ
round_div num den = (2 * num + den) / (2 * den)

-- The multipliers, in halves.
unfoldable pub lane_multiplier : Lane → ℕ
lane_multiplier background = 1
lane_multiplier fast = 2
lane_multiplier (other _) = 2

unfoldable pub sensitivity_multiplier : String → ℕ
sensitivity_multiplier s =
    if str_eq s "low" then 1 else if str_eq s "high_requires_attestation" then 6 else 2

-- BaseCostPerKToken, HouseEdge (in quarters), CoordinationRewardPerPointer (in ten-thousandths), and
-- the ceiling of the activity discount (in percent).
abbrev pub base_cost_per_k_token : ℕ
base_cost_per_k_token = 1

abbrev pub paid_quarters : ℕ
paid_quarters = 3

abbrev pub coordination_reward_per_pointer : ℕ
coordination_reward_per_pointer = 200

abbrev pub activity_ceiling_backpressure_pct : ℕ
activity_ceiling_backpressure_pct = 40

-- `tokens / 1000 * perK`, where four times `perK` is the product of the multipliers.
unfoldable pub consumer_cost : Lane → String → ℤ → ℕ
consumer_cost lane sensitivity (negsuc _) = 0
consumer_cost lane sensitivity (pos tokens) =
    if tokens == 0
    then 0
    else round_div
        (tokens
          * 10
          * (base_cost_per_k_token * lane_multiplier lane * sensitivity_multiplier sensitivity))
        4

unfoldable pub provider_reward : Lane → String → ℤ → ℕ
provider_reward lane sensitivity tokens =
    round_div (paid_quarters * consumer_cost lane sensitivity tokens) 4

unfoldable pub network_margin : Lane → String → ℤ → ℤ
network_margin lane sensitivity tokens =
    pos (consumer_cost lane sensitivity tokens) -ℤ pos (provider_reward lane sensitivity tokens)

-- A fraction, such as a backpressure in percent. None of the program's is negative.
pub record Ratio : Type 0 where
  pub num : ℕ
  pub den : ℕ

-- 1, or 3/4, or 3/4 + (pct / 40) * 1/4.
unfoldable pub activity_discount : Ratio → Ratio
activity_discount pct =
    if leb (activity_ceiling_backpressure_pct * pct.den) pct.num
    then record { num = 1; den = 1 }
    else if leb pct.num 0
    then record { num = paid_quarters; den = 4 }
    else record {
      num = paid_quarters * activity_ceiling_backpressure_pct * pct.den + pct.num;
      den = 4 * activity_ceiling_backpressure_pct * pct.den;
    }

unfoldable pub consumer_cost_with_activity_discount : Lane → String → ℤ → Ratio → ℕ
consumer_cost_with_activity_discount lane sensitivity tokens pct =
    let d = activity_discount pct in
    max (round_div (consumer_cost lane sensitivity tokens * d.num) d.den)
      (provider_reward lane sensitivity tokens)

unfoldable pub coordination_reward : ℤ → ℕ
coordination_reward (negsuc _) = 0
coordination_reward (pos n) = n * coordination_reward_per_pointer
