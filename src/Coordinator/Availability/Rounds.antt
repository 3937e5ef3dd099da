-- ===== src/Coordinator/Availability/Rounds.antt =====
-- What a round of probes may do to the registry and to the books.
use mlx_mesh.Base.{
  ℕ, ◌≤◌, ◌≡◌, Bool, true, some, List, [], ◌∷◌, ◌++◌, ◌⊎◌, arith, length, get_elem?,
}
use mlx_mesh.Base.Int.{pos}
use mlx_mesh.Settlement.Types.{CreditEntry, Ledger}
use mlx_mesh.Economics.{background, provider_reward}
use mlx_mesh.Payments.{earning, credits, resolve_earnings_account}
use mlx_mesh.Coordinator.Registry.{ModelCapability, CapabilityManifest}
use mlx_mesh.Coordinator.Router.Resolved.{Reply}
use mlx_mesh.Coordinator.Parallel.Merge.{target_from_manifest}
use mlx_mesh.Coordinator.Availability.{
  Prober, build_probe_job, scaled_probe_budget, probe_backpressure_ceiling, max_per_round,
  max_per_round_ceiling, fallback_tokens, extract_completion_tokens,
}

-- The budget of a round.
abbrev pub budget : ℕ → ℕ
budget b = scaled_probe_budget b probe_backpressure_ceiling max_per_round max_per_round_ceiling

-- The budget of a round is between 3 and 15, and a busier network never has a larger one.
pub scaled_probe_budget_bounds :
    (b b' : ℕ) → b ≤ b' → (3 ≤ budget b') × (budget b' ≤ budget b) × (budget b ≤ 15)
unfolding scaled_probe_budget
scaled_probe_budget_bounds b b' h = grind arith

-- A credit for a node: it has a loaded model and answered a probe of it.
pub record IsReward (p : Prober) (now : ℕ) (node : CapabilityManifest) (e : CreditEntry)
    : Type 0 where
  pub model : ModelCapability
  pub place : ℕ
  pub listed : get_elem? node.models place ≡ some model
  pub loaded : model.loaded ≡ true
  pub pulls : Bool
  pub reply : Reply
  pub answered :
      p.deliver pulls
        (target_from_manifest p.tls node)
        "fast"
        (build_probe_job (p.job_id_of node.node_id) model.model_id model.quantization)
      ≡ some reply
  pub booked :
      e
      ≡ earning now
          (resolve_earnings_account p.links p.node_users node.node_id)
          (credits (
            provider_reward background "low"
              (pos (extract_completion_tokens reply fallback_tokens))))
          (p.job_id_of node.node_id)

-- In the order of the nodes, each of them has one reward or none.
abbrev pub IsRewards : Prober → ℕ → List CapabilityManifest → List CreditEntry → Type 0
IsRewards p now [] es = es ≡ []
IsRewards p now (c ∷ cs) es =
    IsRewards p now cs es
    ⊎ ((e : CreditEntry) × (rest : List CreditEntry) × (es ≡ e ∷ rest)
        × IsReward p now c e
        × IsRewards p now cs rest)

-- What the books have more is at most one reward for each of the nodes.
pub record Books (p : Prober) (now : ℕ) (cs : List CapabilityManifest) (l l' : Ledger)
    : Type 0 where
  pub rewards : List CreditEntry
  pub added : l'.entries ≡ l.entries ++ rewards
  pub genuine : IsRewards p now cs rewards
  pub few : length rewards ≤ length cs
  pub undebited : l'.debits ≡ l.debits

-- What one node brings: nothing, or its reward.
abbrev One : Prober → ℕ → CapabilityManifest → Ledger → Ledger → Type 0
One p now c l l' =
    ((l'.entries ≡ l.entries)
      ⊎ ((e : CreditEntry) × (l'.entries ≡ l.entries ++ (e ∷ [])) × IsReward p now c e))
    × (l'.debits ≡ l.debits)
