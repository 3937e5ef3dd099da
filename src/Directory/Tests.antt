-- ===== src/Directory/Tests.antt =====
-- Pods and pins at concrete digests.
use mlx_mesh.Base.{
  ◌+◌, ◌≤◌, ◌≡◌, ◌≢◌, refl, sym, true, false, Option, none, some, [], ◌∷◌, String, str_eq, any,
  arith, eq_iff, true-ne-false,
}
use mlx_mesh.Base.Dict.{lookup}
use mlx_mesh.Directory.Pinning.{
  PodHealthDigest, PinStore, key_mismatch, new_pin_store, verify, verify_all,
}
use mlx_mesh.Directory.Pinning.Trust.{verify_impersonation}
use mlx_mesh.Directory.Pods.{PodStore, new_pod_store, upsert}

abbrev us_east : PodHealthDigest
us_east = record {
  pod_id = "us-east";
  coordinator_endpoint = "http://a";
  servable_model_ids = "llama" ∷ [];
  public_key = "k1";
  signature = "s";
}

abbrev impostor : PodHealthDigest
impostor = record us_east { public_key = "k2" }

abbrev by_key : PodHealthDigest → Option String
by_key d = some d.public_key

abbrev fresh : PinStore
fresh = new_pin_store false none

keys_differ : ◌≢◌ {A = String} "k1" "k2"
keys_differ e = true-ne-false (sym ((eq_iff "k1" "k2").1 e))

verify_impersonation_example :
    let s' = verify_all by_key (verify by_key true fresh us_east).0 ((true, us_east) ∷ []) in
    verify by_key true s' impostor ≡ (s', some key_mismatch)
unfolding verify new_pin_store lookup
verify_impersonation_example =
    verify_impersonation by_key true true fresh us_east impostor ((true, us_east) ∷ []) "k1" "k2"
      refl refl refl refl keys_differ

abbrev pods : PodStore
pods = upsert 0 (new_pod_store 60) us_east

serves_llama : any (str_eq "llama") us_east.servable_model_ids ≡ true
serves_llama = refl

in_time : 60 ≤ 0 + (new_pod_store 60).pod_ttl
unfolding new_pod_store
in_time = omega arith
