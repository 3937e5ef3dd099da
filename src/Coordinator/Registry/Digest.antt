-- ===== src/Coordinator/Registry/Digest.antt =====
-- HealthDigest of internal/coordinator/registry.go, with PodHealthDigest of internal/protocol. Rates are
-- in millionths; memory is a product of two counts of millionths, in their unit; the health score is in
-- millionths and rounded down. The models come in the order in which they are met.
use mlx_mesh.Base.{
  ℕ, suc, ◌+◌, ◌*◌, ◌/◌, ◌&&◌, ◌≤◌, ◌≡◌, ◌∙◌, not, inl, inr, Bool, none, some, List, [], ◌∷◌, ◌++◌,
  String, str_eq, any, length, Bool-cases, arith, ltb, leb, if◌then◌else◌,
}
use mlx_mesh.Coordinator.Registry.{
  ModelCapability, NodeEntry, Registry, is_live_entry, is_standby, select,
}

-- The sums of the loop.
pub record Totals : Type 0 where
  pub models : List String
  pub node_count : ℕ
  pub tokens_per_sec : ℕ
  pub memory_gb : ℕ
  pub real_node_count : ℕ
  pub real_tokens_per_sec : ℕ
  pub real_memory_gb : ℕ

pub record PodHealthDigest : Type 0 where
  pub pod_id : String
  pub region_hint : String
  pub coordinator_endpoint : String
  pub aggregate_health_score : ℕ
  pub totals : Totals

unfoldable pub is_counted : ℕ → Registry → String → NodeEntry → Bool
is_counted now r id e = is_live_entry now e && not (is_standby now r id)

-- `modelSet[m.ModelID] = true`
unfoldable pub add_models : List ModelCapability → List String → List String
add_models [] names = names
add_models (m ∷ ms) names =
    add_models ms (if any (str_eq m.model_id) names then names else names ++ (m.model_id ∷ []))

-- What was observed takes the place of what was claimed.
unfoldable pub node_rate : NodeEntry → ℕ
node_rate e = elim e.observed_tps [
  | some tps ↦ tps
  | none ↦ elim e.manifest.measured_signature [ none ↦ 0 | some s ↦ s.tokens_per_sec_decode ]
]

unfoldable pub node_memory : NodeEntry → ℕ
node_memory e = e.manifest.declared_memory_gb * e.manifest.declared_memory_cap_pct

unfoldable pub count_node : Totals → NodeEntry → Totals
count_node t e = record {
  models = add_models e.manifest.models t.models;
  node_count = suc t.node_count;
  tokens_per_sec = t.tokens_per_sec + node_rate e;
  memory_gb = t.memory_gb + node_memory e;
  real_node_count = if e.manifest.simulated then t.real_node_count else suc t.real_node_count;
  real_tokens_per_sec =
      if e.manifest.simulated then t.real_tokens_per_sec else t.real_tokens_per_sec + node_rate e;
  real_memory_gb =
      if e.manifest.simulated then t.real_memory_gb else t.real_memory_gb + node_memory e;
}

unfoldable pub count_nodes : Totals → List NodeEntry → Totals
count_nodes t [] = t
count_nodes t (e ∷ es) = count_nodes (count_node t e) es

abbrev pub nothing_counted : Totals
nothing_counted = record {
  models = [];
  node_count = 0;
  tokens_per_sec = 0;
  memory_gb = 0;
  real_node_count = 0;
  real_tokens_per_sec = 0;
  real_memory_gb = 0;
}

-- `min(1.0, totalTPS/liveCount/100)`
unfoldable pub health_score : ℕ → ℕ → ℕ
health_score nodes rate =
    if ltb 0 nodes && ltb 0 rate
    then (if leb (100000000 * nodes) rate then 1000000 else rate / (100 * nodes))
    else 0

unfoldable pub health_digest : ℕ → Registry → String → String → String → PodHealthDigest
health_digest now r pod_id region_hint coordinator_endpoint =
    let t = count_nodes nothing_counted (select (is_counted now r) r) in
    record {
      pod_id = pod_id;
      region_hint = region_hint;
      coordinator_endpoint = coordinator_endpoint;
      aggregate_health_score = health_score t.node_count t.tokens_per_sec;
      totals = t;
    }

-- The real part of each sum is no more than the sum.
abbrev pub IsSplit : Totals → Type 0
IsSplit t =
    (t.real_node_count ≤ t.node_count)
    × (t.real_tokens_per_sec ≤ t.tokens_per_sec)
    × (t.real_memory_gb ≤ t.memory_gb)

count_nodes-IsSplit : (t : Totals) (es : List NodeEntry) → IsSplit t → IsSplit (count_nodes t es)
unfolding count_nodes count_node
count_nodes-IsSplit t [] h = h
count_nodes-IsSplit t (e ∷ es) (n, r, m) =
    count_nodes-IsSplit (count_node t e) es (elim (Bool-cases e.manifest.simulated) [
      | inl simulated ↦
          rw (count_node, simulated) (omega (arith, n), omega (arith, r), omega (arith, m))
      | inr real ↦ rw (count_node, real) (omega (arith, n), omega (arith, r), omega (arith, m))
    ])

count_nodes_count :
    (t : Totals) (es : List NodeEntry) → (count_nodes t es).node_count ≡ t.node_count + length es
unfolding count_nodes count_node
count_nodes_count t [] = omega arith
count_nodes_count t (e ∷ es) = count_nodes_count (count_node t e) es ∙ omega arith

-- The digest counts each live node that is no standby once, and of each sum no more as real than there
-- is in all.
pub health_digest-IsSplit :
    (now : ℕ) (r : Registry) (pod region endpoint : String)
    → let d = health_digest now r pod region endpoint in
      IsSplit d.totals × (d.totals.node_count ≡ length (select (is_counted now r) r))
unfolding health_digest
health_digest-IsSplit now r pod region endpoint =
    let es = select (is_counted now r) r in
    (
      count_nodes-IsSplit nothing_counted es (omega arith, omega arith, omega arith),
      count_nodes_count nothing_counted es ∙ omega arith,
    )
