-- ===== src/Coordinator/Router/Tests.antt =====
-- A sensitive job on two nodes, of which one is attested.
use mlx_mesh.Base.{◌-◌, ◌≡◌, String, List, refl, true, false, none, some, [], ◌∷◌, All, take}
use mathlib.Core.List.{Perm}
use mlx_mesh.Coordinator.Ring.{Hashing, sort_points}
use mlx_mesh.Coordinator.Router.Ranking.{Message, rank_candidates}
use mlx_mesh.Coordinator.Router.Ranking.Order.{rank_candidates-perm}
use mlx_mesh.Base.Int.{pos}
use mlx_mesh.Coordinator.Registry.{CapabilityManifest, NodeWithLoad, Registry, new_entry, is_live}
use mlx_mesh.Coordinator.Router.{JobSpec, Deliver, eligible, dispatch_ranked}
use mlx_mesh.Coordinator.Router.Dispatch.{IsEligible, eligible-IsEligible, dispatch_ranked-failed}

abbrev manifest : CapabilityManifest
manifest = record {
  node_id = "a";
  cluster_signature = "";
  models =
      record { model_id = "llama"; quantization = "q4"; max_context_tokens = 4096; loaded = true }
      ∷ [];
  measured_signature = none;
  reachability_endpoint = "http://a";
  compute_cycles_price = none;
  has_secure_enclave = true;
  ecdh_public_key = "";
  simulated = false;
  pull_delivery = false;
  declared_memory_gb = 16000000;
  declared_memory_cap_pct = 500000;
}

abbrev attested : NodeWithLoad
attested = record {
  manifest = manifest;
  in_flight = pos 0;
  enclave_attested = true;
  observed_tps = none;
}

abbrev declared : NodeWithLoad
declared = record attested {
  manifest = record manifest { node_id = "b" };
  enclave_attested = false;
}

abbrev job : JobSpec
job = record {
  job_id = "j";
  model_id = "llama";
  quantization_required = "";
  sensitivity = "high_requires_attestation";
  max_price_per_unit = 0;
  redundancy_depth = pos 1;
}

abbrev nodes : Registry
nodes = ("a", new_entry 0 manifest "a") ∷ ("b", new_entry 0 declared.manifest "b") ∷ []

abbrev nobody : Deliver
nobody _ = none

abbrev everybody : Deliver
everybody _ = some none

eligible-IsEligible_example : All (IsEligible job) (eligible job (declared ∷ attested ∷ []))
eligible-IsEligible_example = eligible-IsEligible job (declared ∷ attested ∷ [])

dispatch_ranked-failed_example :
    All
      (λ n.
        is_live 9 (dispatch_ranked nobody 3 0 nodes (attested ∷ [])).0 n.manifest.node_id ≡ false)
      (take (3 - 0) (attested ∷ []))
unfolding dispatch_ranked
dispatch_ranked-failed_example = dispatch_ranked-failed 9 nobody 3 0 nodes (attested ∷ []) refl

-- Two nodes for an ordinary job.
abbrev ordinary : JobSpec
ordinary = record job { sensitivity = "" }

abbrev both : List NodeWithLoad
both = declared ∷ attested ∷ []

abbrev by_length : Hashing
by_length = record { hash_key = λ _. 5; replica_key = λ m _. m; sort_slice = sort_points }

abbrev whole : String → String
whole text = text

abbrev talk : List Message
talk = record { role = "system"; content = "Be brief." } ∷ []

rank_candidates-perm_example :
    Perm (rank_candidates by_length whole 1 1 both ordinary talk) (eligible ordinary both)
rank_candidates-perm_example = rank_candidates-perm by_length whole 1 1 both ordinary talk
