-- ===== src/Coordinator/Availability/Tests.antt =====
-- A round that probes two idle nodes, of which one answers.
use mlx_mesh.Base.{◌≡◌, refl, true, false, none, some, [], ◌∷◌, str_eq, if◌then◌else◌}
use mlx_mesh.Settlement.Ledger.Operations.{new_ledger}
use mlx_mesh.Coordinator.Registry.{CapabilityManifest, new_entry}
use mlx_mesh.Coordinator.Availability.{Prober, State, scaled_probe_budget}
use mlx_mesh.Coordinator.Availability.Rounds.{budget}

abbrev warm_node : CapabilityManifest
warm_node = record {
  node_id = "a";
  cluster_signature = "";
  models =
      record { model_id = "llama"; quantization = "q4"; max_context_tokens = 4096; loaded = true }
      ∷ [];
  measured_signature = none;
  reachability_endpoint = "http://a";
  compute_cycles_price = none;
  has_secure_enclave = false;
  ecdh_public_key = "";
  simulated = false;
  pull_delivery = false;
  declared_memory_gb = 16000000;
  declared_memory_cap_pct = 500000;
}

abbrev mute_node : CapabilityManifest
mute_node = record warm_node { node_id = "b" }

-- The reply of "a" does not say how many tokens it has.
abbrev prober : Prober
prober = record {
  tx = record { format = λ t. ""; parse = λ s. 0 };
  links = [];
  node_users = [];
  job_id_of = λ id. id;
  tls = λ m. "";
  deliver = λ pulls target lane job.
      if str_eq target.node_id "a" then some (record { tokens = 0; elapsed = 5 }) else none;
  exec = true;
}

abbrev start : State
start = (("b", new_entry 1 mute_node "b") ∷ ("a", new_entry 0 warm_node "a") ∷ [], new_ledger)

half_busy : budget 20000000 ≡ 9
unfolding scaled_probe_budget
half_busy = refl
