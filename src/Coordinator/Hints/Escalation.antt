-- ===== src/Coordinator/Hints/Escalation.antt =====
-- A client's hint can only raise the sensitivity of its job.
use mlx_mesh.Base.{
  ℕ, ◌≤◌, ◌<◌, ◌*◌, ◌≡◌, ◌⊎◌, refl, inl, inr, Bool, true, false, Option, none, some, String, ltb,
  if◌then◌else◌, Option-cases, arith, eq_iff,
}
use mlx_mesh.Coordinator.Hints.{
  RouterHint, HintAccuracyStore, history_factor, version_factor, compute_hint_weight, tier_rank,
  max_tier, validate_sensitivity, should_reclassify, resolve_routing,
}

compute_hint_weight-le :
    (id : String) (hint : Option RouterHint) (store : Option HintAccuracyStore)
    → compute_hint_weight id hint store ≤ 9500000000000000
unfolding compute_hint_weight
compute_hint_weight-le id none store = omega arith
compute_hint_weight-le id (some hint) none = omega arith
compute_hint_weight-le id (some hint) (some store) = elim (Option-cases (store id)) [
  | inl new ↦ rw (new, compute_hint_weight) (omega arith)
  | inr (acc, known) ↦
      rw (known, compute_hint_weight)
        (capped hint.confidence (
          history_factor acc
          * version_factor hint.router_version
          * (if ltb 1000000 hint.confidence then 1000000 else hint.confidence)
          * (if hint.is_from_ml_model then 10 else 7)))
]
  where
    capped :
        (c w : ℕ)
        → (if ltb c 500000 then 0 else if ltb 9500000000000000 w then 9500000000000000 else w)
          ≤ 9500000000000000
    capped c w = ground arith

-- The tier that counts is never below the coordinator's own.
validate_sensitivity-le :
    (hinted coordinator override : String) (w : ℕ)
    → (tier_rank coordinator ≤ tier_rank (validate_sensitivity hinted coordinator override w))
      × ((validate_sensitivity hinted coordinator override w ≡ coordinator)
          ⊎ (validate_sensitivity hinted coordinator override w ≡ override)
          ⊎ ((validate_sensitivity hinted coordinator override w ≡ hinted)
              × (7000000000000000 < w)
              × (override ≡ "")))
unfolding validate_sensitivity max_tier
validate_sensitivity-le hinted coordinator override w = ground (arith, eq_iff override "")

abbrev hinted_tier : Option RouterHint → String
hinted_tier none = ""
hinted_tier (some h) = h.sensitivity_tier

-- For every hint, override and store of accuracies: the sensitivity that counts ranks no lower than the
-- coordinator's own; it is the coordinator's, the client's override, or, without an override and with a
-- weight above 0.7, the hinted one; and the weight is at most 0.95.
pub resolve_routing-tier :
    (id : String) (hint : Option RouterHint) (override coordinator : String)
    (store : Option HintAccuracyStore)
    → let r = resolve_routing id hint override coordinator store in
      (tier_rank coordinator ≤ tier_rank r.effective)
      × ((r.effective ≡ coordinator)
          ⊎ (r.effective ≡ override)
          ⊎ ((r.effective ≡ hinted_tier hint) × (7000000000000000 < r.weight) × (override ≡ "")))
      × (r.weight ≤ 9500000000000000)
unfolding resolve_routing
resolve_routing-tier id none override coordinator store =
    let (up, which) =
      validate_sensitivity-le "" coordinator override (compute_hint_weight id none store) in
    (up, which, compute_hint_weight-le id none store)
resolve_routing-tier id (some h) override coordinator store =
    let (up, which) =
      validate_sensitivity-le h.sensitivity_tier coordinator override
        (compute_hint_weight id (some h) store) in
    (up, which, compute_hint_weight-le id (some h) store)

validate_sensitivity_zero :
    (hinted coordinator : String) → validate_sensitivity hinted coordinator "" 0 ≡ coordinator
unfolding validate_sensitivity
validate_sensitivity_zero hinted coordinator = ground arith

should_reclassify_zero :
    (present : Bool) (hinted job_type : String) → should_reclassify present 0 hinted job_type ≡ true
unfolding should_reclassify
should_reclassify_zero present hinted job_type = ground arith

compute_hint_weight_new :
    (id : String) (h : RouterHint) (store : HintAccuracyStore)
    → store id ≡ none
    → compute_hint_weight id (some h) (some store) ≡ 0
unfolding compute_hint_weight
compute_hint_weight_new id h store new = rw (new, compute_hint_weight)

compute_hint_weight_absent :
    (id : String) (store : Option HintAccuracyStore) → compute_hint_weight id none store ≡ 0
unfolding compute_hint_weight
compute_hint_weight_absent id store = refl

-- A requester without a history has no weight: without an override the coordinator's own tier counts,
-- whatever the hint says, and the job is always classified again.
pub resolve_routing_unknown :
    (id : String) (hint : Option RouterHint) (coordinator : String) (store : HintAccuracyStore)
    → store id ≡ none
    → let r = resolve_routing id hint "" coordinator (some store) in
      (r.effective ≡ coordinator) × (r.reclassified ≡ true) × (r.weight ≡ 0)
unfolding resolve_routing
resolve_routing_unknown id none coordinator store new = (
  rw (compute_hint_weight_absent id (some store)) (validate_sensitivity_zero "" coordinator),
  rw (compute_hint_weight_absent id (some store)) (should_reclassify_zero false "" ""),
  compute_hint_weight_absent id (some store),
)
resolve_routing_unknown id (some h) coordinator store new =
    rw (compute_hint_weight_new id h store new) (
      validate_sensitivity_zero h.sensitivity_tier coordinator,
      should_reclassify_zero true h.sensitivity_tier h.job_type,
      refl,
    )
