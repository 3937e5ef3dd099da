-- ===== src/Coordinator/Registry/Tests.antt =====
-- Two registrations of one ring, and the theorems about the registry at them.
use mlx_mesh.Base.{arith, ◌≡◌, refl, true, false, none, some, List, [], ◌∷◌, String}
use mlx_mesh.Base.Int.{pos}
use mlx_mesh.Base.Dict.{lookup, insert, IsDistinct}
use mlx_mesh.Coordinator.Registry.{
  CapabilityManifest, NodeEntry, Registry, Crypto, new_entry, register, is_live_entry, is_live,
  update_entry, mark_unreachable, mark_seen, precedes, is_in_ring, best_of, is_second, seconds_of,
  cluster_standby_node_ids, is_standby,
}
use mlx_mesh.Coordinator.Registry.Keys.{
  Op, register_node, unreachable, seen, step, run, IsKeyed, run-IsKeyed,
}
use mlx_mesh.Coordinator.Registry.Standby.{IsMember, is_standby_represented}

abbrev plain : Crypto
plain = record { node_id_from_pub_key = λ key. key; verify_manifest = λ _ _ _. some true }

abbrev manifest_a : CapabilityManifest
manifest_a = record {
  node_id = "a";
  cluster_signature = "ring";
  models =
      record { model_id = "llama"; quantization = "q4"; max_context_tokens = 4096; loaded = true }
      ∷ [];
  measured_signature = none;
  reachability_endpoint = "http://a";
  compute_cycles_price = none;
  has_secure_enclave = true;
  ecdh_public_key = "";
  simulated = false;
  pull_delivery = true;
  declared_memory_gb = 16000000;
  declared_memory_cap_pct = 500000;
}

abbrev manifest_b : CapabilityManifest
manifest_b = record manifest_a { node_id = "b" }

abbrev calls : List Op
calls =
    register_node 0 manifest_b "b" ""
    ∷ register_node 0 manifest_a "a" ""
    ∷ unreachable "a"
    ∷ seen 5 "a"
    ∷ []

abbrev entry_a : NodeEntry
entry_a = new_entry 0 manifest_a "a"

abbrev entry_b : NodeEntry
entry_b = new_entry 0 manifest_b "b"

abbrev ring : Registry
ring = ("b", entry_b) ∷ ("a", entry_a) ∷ []

registry_program : Unit {0}
unfolding run step register new_entry mark_unreachable mark_seen update_entry lookup insert
    is_in_ring is_live_entry is_standby cluster_standby_node_ids seconds_of is_second best_of
    precedes is_live
registry_program = tt

-- "a" stands for the ring, being the lower name.
standbys : cluster_standby_node_ids 9 ring ≡ "b" ∷ []
unfolding registry_program
standbys = refl

run-IsKeyed_example : IsKeyed plain (run plain [] calls)
run-IsKeyed_example = run-IsKeyed plain [] calls tt

ring-IsDistinct : IsDistinct ring
unfolding registry_program
ring-IsDistinct = (refl, (refl, tt))

IsMember-a : IsMember 9 ring "ring" "a"
unfolding registry_program
IsMember-a = (entry_a, refl, λ h. cc, refl, ground arith, refl)

IsMember-b : IsMember 9 ring "ring" "b"
unfolding registry_program
IsMember-b = (entry_b, refl, λ h. cc, refl, ground arith, refl)

is_standby_represented_example :
    (b : String) × IsMember 9 ring "ring" b × (is_standby 9 ring b ≡ false)
is_standby_represented_example = is_standby_represented 9 ring "ring" "b" ring-IsDistinct IsMember-b

a_stands : is_standby 9 ring "a" ≡ false
unfolding registry_program
a_stands = refl

a_found : lookup "a" ring ≡ some entry_a
unfolding registry_program
a_found = refl

a_live : is_live 9 ring "a" ≡ true
unfolding registry_program
a_live = refl

no_flight : entry_a.in_flight ≡ pos 0
unfolding registry_program
no_flight = refl
