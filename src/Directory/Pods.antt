-- ===== src/Directory/Pods.antt =====
-- internal/directory/registry_store.go: the digests of the pods that were heard of lately.
pub mod Live
use mlx_mesh.Base.{
  ℕ, suc, ◌+◌, ◌-◌, Bool, true, false, Option, none, some, List, [], ◌∷◌, map, String, str_eq, any,
  leb, ltb, length, if◌then◌else◌,
}
use mlx_mesh.Base.Dict.{Dict, lookup, insert}
use mlx_mesh.Directory.Pinning.{PodHealthDigest}

pub record PodEntry : Type 0 where
  pub digest : PodHealthDigest
  pub last_seen : ℕ

pub record PodStore : Type 0 where
  pub pods : Dict PodEntry
  pub pod_ttl : ℕ

unfoldable pub new_pod_store : ℕ → PodStore
new_pod_store ttl = record { pods = []; pod_ttl = ttl }

unfoldable pub upsert : ℕ → PodStore → PodHealthDigest → PodStore
upsert now s d = record s { pods = insert d.pod_id (record { digest = d; last_seen = now }) s.pods }

unfoldable pub is_live : ℕ → ℕ → PodEntry → Bool
is_live now ttl e = leb (now - e.last_seen) ttl

unfoldable pub live_pods : ℕ → ℕ → Dict PodEntry → List PodHealthDigest
live_pods now ttl [] = []
live_pods now ttl (e ∷ m) =
    let rest = live_pods now ttl m in if is_live now ttl e.1 then e.1.digest ∷ rest else rest

unfoldable pub all_pods : ℕ → PodStore → List PodHealthDigest
all_pods now s = live_pods now s.pod_ttl s.pods

unfoldable pub all_pod_ids : ℕ → PodStore → List String
all_pod_ids now s = map (λ d. d.pod_id) (all_pods now s)

unfoldable pub serving : String → List PodHealthDigest → List String
serving model [] = []
serving model (d ∷ ds) =
    let rest = serving model ds in
    if any (str_eq model) d.servable_model_ids then d.pod_id ∷ rest else rest

unfoldable pub query_for_model : ℕ → PodStore → String → List String
query_for_model now s model = serving model (all_pods now s)

unfoldable pub count_live : ℕ → ℕ → Dict PodEntry → ℕ
count_live now ttl [] = 0
count_live now ttl (e ∷ m) =
    let rest = count_live now ttl m in if is_live now ttl e.1 then suc rest else rest

unfoldable pub live_count : ℕ → PodStore → ℕ
live_count now s = count_live now s.pod_ttl s.pods
