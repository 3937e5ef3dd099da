-- ===== src/Settlement/Startup/Decay.antt =====
-- The grants shrink as verified capacity grows, in steps.
use mlx_mesh.Base.{
  ℕ, ◌≤◌, ◌<◌, ◌≡◌, ◌∙◌, refl, true, false, List, [], ◌∷◌, ◌++◌, arith, All, leb, if◌then◌else◌,
}
use mlx_mesh.Settlement.Startup.{
  CapacityThreshold, default_decay_steps, multiplier_from, current_grant_multiplier,
}

multiplier_from-append :
    (score m : ℕ) (xs ys : List CapacityThreshold)
    → multiplier_from score m (xs ++ ys) ≡ multiplier_from score (multiplier_from score m xs) ys
unfolding multiplier_from
multiplier_from-append score m [] ys = refl
multiplier_from-append score m (x ∷ xs) ys =
    multiplier_from-append score
      (if leb x.min_verified_capacity_score score then x.grant_multiplier else m) xs ys

multiplier_from-unmet :
    (score m : ℕ) (ys : List CapacityThreshold)
    → All (λ s. score < s.min_verified_capacity_score) ys
    → multiplier_from score m ys ≡ m
unfolding multiplier_from
multiplier_from-unmet score m [] h = refl
multiplier_from-unmet score m (y ∷ ys) h =
    let unmet : leb y.min_verified_capacity_score score ≡ false = ground arith in
    rw unmet (multiplier_from-unmet score m ys h.1)

multiplier_from-met :
    (score m : ℕ) (met : CapacityThreshold) (above : List CapacityThreshold)
    → met.min_verified_capacity_score ≤ score
    → All (λ s. score < s.min_verified_capacity_score) above
    → multiplier_from score m (met ∷ above) ≡ met.grant_multiplier
unfolding multiplier_from
multiplier_from-met score m met above h k =
    let reached : leb met.min_verified_capacity_score score ≡ true = ground arith in
    rw reached (multiplier_from-unmet score met.grant_multiplier above k)

-- With the steps in ascending order, the multiplier is that of the highest threshold that the score
-- has met.
pub current_grant_multiplier-highest :
    (score : ℕ) (below above : List CapacityThreshold) (met : CapacityThreshold)
    → met.min_verified_capacity_score ≤ score
    → All (λ s. score < s.min_verified_capacity_score) above
    → current_grant_multiplier score (below ++ met ∷ above) ≡ met.grant_multiplier
unfolding current_grant_multiplier
current_grant_multiplier-highest score below above met h k =
    multiplier_from-append score 0 below (met ∷ above) ∙ last_met
  where
    last_met :
        multiplier_from score (multiplier_from score 0 below) (met ∷ above) ≡ met.grant_multiplier
    last_met = multiplier_from-met score (multiplier_from score 0 below) met above h k

-- Under the default steps more verified capacity never means a larger grant.
pub default_decay_antitone :
    (score higher : ℕ)
    → score ≤ higher
    → current_grant_multiplier higher default_decay_steps
      ≤ current_grant_multiplier score default_decay_steps
unfolding current_grant_multiplier multiplier_from
default_decay_antitone score higher h = ground arith
