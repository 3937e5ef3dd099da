-- ===== src/Coordinator/Hints/Tests.antt =====
-- A hint of an unknown client, and of one with a good record.
use mlx_mesh.Base.{◌≤◌, ◌<◌, ◌≡◌, ◌⊎◌, refl, true, none, some, [], ◌∷◌, String}
use mlx_mesh.Coordinator.Hints.{
  RouterHint, HintAccuracyStore, compute_hint_weight, history_factor, version_factor, trailing_int,
  scan_digits, tier_rank, resolve_routing,
}
use mlx_mesh.Coordinator.Hints.Escalation.{resolve_routing-tier}

abbrev hint : RouterHint
hint = record {
  job_type = "chat";
  sensitivity_tier = "moderate";
  confidence = 900000;
  router_version = 118 ∷ 49 ∷ [];
  is_from_ml_model = true;
}

abbrev good : HintAccuracyStore
good id = some 1000000

abbrev new : HintAccuracyStore
new id = none

good_weight : compute_hint_weight "c" (some hint) (some good) ≡ 8325000000000000
unfolding compute_hint_weight history_factor version_factor trailing_int scan_digits
good_weight = refl

resolve_routing-tier_example :
    let r = resolve_routing "c" (some hint) "" "low" (some good) in
    (tier_rank "low" ≤ tier_rank r.effective)
    × ((r.effective ≡ "low")
        ⊎ (r.effective ≡ "")
        ⊎ ((r.effective ≡ "moderate") × (7000000000000000 < r.weight) × (◌≡◌ {A = String} "" "")))
    × (r.weight ≤ 9500000000000000)
resolve_routing-tier_example = resolve_routing-tier "c" (some hint) "" "low" (some good)
