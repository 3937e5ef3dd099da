-- ===== src/Coordinator/Router/Streaming/Tests.antt =====
-- The first node is not reached, the second breaks off.
use mlx_mesh.Base.{[], ◌∷◌, List, true, false, none, str_eq, if◌then◌else◌}
use mlx_mesh.Base.Int.{pos}
use mlx_mesh.Coordinator.Registry.{CapabilityManifest, NodeWithLoad}
use mlx_mesh.Coordinator.Router.Streaming.{
  Stream, not_started, broken_off, dispatch_streaming, IsSource, dispatch_streaming-IsSource,
}

abbrev manifest : CapabilityManifest
manifest = record {
  node_id = "a";
  cluster_signature = "";
  models =
      record { model_id = "llama"; quantization = "q4"; max_context_tokens = 4096; loaded = true }
      ∷ [];
  measured_signature = none;
  reachability_endpoint = "http://a";
  compute_cycles_price = none;
  has_secure_enclave = true;
  ecdh_public_key = "";
  simulated = false;
  pull_delivery = false;
  declared_memory_gb = 16000000;
  declared_memory_cap_pct = 500000;
}

abbrev nodes : List NodeWithLoad
nodes =
    record { manifest = manifest; in_flight = pos 0; enclave_attested = false; observed_tps = none }
    ∷ record {
      manifest = record manifest { node_id = "b" };
      in_flight = pos 0;
      enclave_attested = false;
      observed_tps = none;
    }
    ∷ []

abbrev second_breaks : Stream
second_breaks id = if str_eq id "a" then not_started else broken_off 3

dispatch_streaming-IsSource_example :
    IsSource second_breaks nodes 3 (dispatch_streaming second_breaks 3 0 [] nodes).1
dispatch_streaming-IsSource_example = dispatch_streaming-IsSource second_breaks 3 [] nodes
