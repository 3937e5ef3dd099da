-- ===== src/Coordinator/Router/Background/Tests.antt =====
-- A job whose primary is down.
use mlx_mesh.Base.{List, [], ◌∷◌, true, false, none}
use mlx_mesh.Base.Int.{pos}
use mlx_mesh.Coordinator.Registry.{CapabilityManifest, Registry, new_entry}
use mlx_mesh.Coordinator.Router.{JobSpec}
use mlx_mesh.Coordinator.Router.Background.{BackgroundAssignment}

abbrev manifest : CapabilityManifest
manifest = record {
  node_id = "a";
  cluster_signature = "";
  models =
      record { model_id = "llama"; quantization = "q4"; max_context_tokens = 4096; loaded = true }
      ∷ [];
  measured_signature = none;
  reachability_endpoint = "http://a";
  compute_cycles_price = none;
  has_secure_enclave = true;
  ecdh_public_key = "";
  simulated = false;
  pull_delivery = false;
  declared_memory_gb = 16000000;
  declared_memory_cap_pct = 500000;
}

abbrev nodes : Registry
nodes =
    ("a", record (new_entry 0 manifest "a") { unreachable = true })
    ∷ ("b", new_entry 0 (record manifest { node_id = "b" }) "b")
    ∷ []

abbrev job : JobSpec
job = record {
  job_id = "j";
  model_id = "llama";
  quantization_required = "";
  sensitivity = "";
  max_price_per_unit = 0;
  redundancy_depth = pos 1;
}

abbrev assignment : BackgroundAssignment
assignment = record { job_id = "j"; primary = "a"; backups = "b" ∷ []; job_spec = job }
