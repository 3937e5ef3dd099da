-- ===== src/Coordinator/Experts/Tests.antt =====
-- Five experts on three nodes.
use mlx_mesh.Base.{◌*◌, ◌≡◌, ℕ, refl, String, [], ◌∷◌, List, arith}
use mlx_mesh.Coordinator.Experts.{
  Candidate, Assignment, planned, plan_moe_expert_assignment, experts_from,
}
use mlx_mesh.Coordinator.Experts.Plan.{all_experts, plan_moe_expert_assignment-covers}

abbrev node : String → ℕ → Candidate
node id gb = record {
  node_id = id;
  declared_memory_gb = gb * 1000000;
  declared_memory_cap_pct = 500000;
}

abbrev rest : List Candidate
rest = node "a" 16 ∷ node "b" 0 ∷ []

plan_moe_expert_assignment-covers_example :
    (a : Assignment) × (plan_moe_expert_assignment 5 (node "c" 32 ∷ rest) ≡ planned a)
    × (all_experts a ≡ experts_from 0 5)
plan_moe_expert_assignment-covers_example =
    plan_moe_expert_assignment-covers 5 (node "c" 32) rest (omega arith)
      ((refl, (refl, tt)), ((refl, tt), (tt, tt)))
