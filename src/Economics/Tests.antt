-- ===== src/Economics/Tests.antt =====
-- The theorems about prices at concrete work.
use mlx_mesh.Base.{◌≡◌, refl}
use mlx_mesh.Base.Int.{pos}
use mlx_mesh.Economics.{
  fast, Ratio, consumer_cost, provider_reward, round_div, lane_multiplier, sensitivity_multiplier,
}

abbrev ten_percent : Ratio
ten_percent = record { num = 10; den = 1 }

-- 300 tokens in the fast lane cost 0.3 credits, of which 0.225 are the provider's.
cost_300 : (consumer_cost fast "low" (pos 300) ≡ 1500) × (provider_reward fast "" (pos 300) ≡ 2250)
unfolding consumer_cost provider_reward round_div lane_multiplier sensitivity_multiplier
cost_300 = (refl, refl)
