-- ===== src/Coordinator/Registry.antt =====
-- internal/coordinator/registry.go, without the snapshots for dashboards. The time of a
-- call is its argument `now`; the map of entries is a dictionary. Rates are millionths of a token a
-- second.
pub mod Keys
pub mod Standby
pub mod Candidates
pub mod Capacity
pub mod Digest
mod Tests
use Prim.Native.Nat.{Ordering}
use Prim.Native.String.{compare}
use mlx_mesh.Base.{
  ℕ, zero, suc, ◌+◌, ◌-◌, ◌*◌, ◌/◌, ◌&&◌, ◌||◌, not, Bool, true, false, Option, none, some, List,
  [], ◌∷◌, String, str_eq, any, length, map, ltb, leb, ◌==◌, if◌then◌else◌,
}
use mlx_mesh.Base.Int.{ℤ, pos, negsuc, ◌+ℤ◌, ◌-ℤ◌, ltb_ℤ}
use mlx_mesh.Base.Dict.{Dict, lookup, insert, sweep}

-- internal/protocol/capability.go, without the fields that only a dashboard shows.
pub record ModelCapability : Type 0 where
  pub model_id : String
  pub quantization : String
  pub max_context_tokens : ℕ
  pub loaded : Bool

pub record MeasuredSignature : Type 0 where
  pub tokens_per_sec_decode : ℕ
  pub tokens_per_sec_prefill : ℕ

pub record CapabilityManifest : Type 0 where
  pub node_id : String
  pub cluster_signature : String
  pub models : List ModelCapability
  pub measured_signature : Option MeasuredSignature
  pub reachability_endpoint : String
  -- `PricePerUnit["compute_cycles"]`, in the units of a job's ceiling.
  pub compute_cycles_price : Option ℕ
  pub has_secure_enclave : Bool
  pub ecdh_public_key : String
  pub simulated : Bool
  pub pull_delivery : Bool
  -- In millionths.
  pub declared_memory_gb : ℕ
  pub declared_memory_cap_pct : ℕ

-- `lastJobServedAt` is none for the zero time; `inFlight` is an int32.
pub record NodeEntry : Type 0 where
  pub manifest : CapabilityManifest
  pub public_key : String
  pub last_seen : ℕ
  pub unreachable : Bool
  pub in_flight : ℤ
  pub last_job_served_at : Option ℕ
  pub registered_at : ℕ
  pub enclave_attested : Bool
  pub enclave_public_key : String
  pub observed_tps : Option ℕ
  pub observed_samples : ℕ

abbrev pub Registry : Type 0
Registry = Dict NodeEntry

abbrev pub second : ℕ
second = 1000000000

abbrev pub liveness_ttl : ℕ
liveness_ttl = 45 * second

abbrev pub eviction_ttl : ℕ
eviction_ttl = 300 * second

unfoldable pub is_live_entry : ℕ → NodeEntry → Bool
is_live_entry now e = ltb (now - e.last_seen) liveness_ttl && not e.unreachable

unfoldable pub is_live : ℕ → Registry → String → Bool
is_live now r id = elim (lookup id r) [ none ↦ false | some e ↦ is_live_entry now e ]

unfoldable pub is_pull_node : Registry → String → Bool
is_pull_node r id = elim (lookup id r) [ none ↦ false | some e ↦ e.manifest.pull_delivery ]

-- `if e, ok := r.entries[id]; ok { ... }`
unfoldable pub update_entry : String → (NodeEntry → NodeEntry) → Registry → Registry
update_entry id f r = elim (lookup id r) [ none ↦ r | some e ↦ insert id (f e) r ]

unfoldable pub is_registered : Registry → String → Bool
is_registered r id = elim (lookup id r) [ none ↦ false | some _ ↦ true ]

unfoldable pub evict : ℕ → Registry → Registry
evict now r = sweep (λ id e. ltb eviction_ttl (now - e.last_seen)) r

unfoldable pub new_entry : ℕ → CapabilityManifest → String → NodeEntry
new_entry now manifest key = record {
  manifest = manifest;
  public_key = key;
  last_seen = now;
  unreachable = false;
  in_flight = pos 0;
  last_job_served_at = none;
  registered_at = now;
  enclave_attested = false;
  enclave_public_key = "";
  observed_tps = none;
  observed_samples = 0;
}

-- What the registry calls of internal/protocol: `NodeIDFromPubKey`, and whether a signature by the key
-- over the bytes of the manifest is valid, or none if the manifest cannot be serialized.
pub record Crypto : Type 0 where
  pub node_id_from_pub_key : String → String
  pub verify_manifest : String → CapabilityManifest → String → Option Bool

pub data RegisterResult : Type 0 where
  node_id_mismatch serialize_failed bad_signature registered : RegisterResult

unfoldable pub register :
    Crypto → ℕ → Registry → CapabilityManifest → String → String → Registry × RegisterResult
register crypto now r manifest key signature =
    if str_eq (crypto.node_id_from_pub_key key) manifest.node_id
    then elim (crypto.verify_manifest key manifest signature) [
      | none ↦ (r, serialize_failed)
      | some ok ↦
          if ok
          then (insert manifest.node_id (new_entry now manifest key) r, registered)
          else (r, bad_signature)
    ]
    else (r, node_id_mismatch)

-- The flag of each of the next two says whether the node was registered; else it is the error.
unfoldable pub refresh : ℕ → Registry → String → CapabilityManifest → Registry × Bool
refresh now r id manifest = (
  update_entry id (λ e. record e { manifest = manifest; last_seen = now; unreachable = false }) r,
  is_registered r id,
)

unfoldable pub mark_enclave_attested : Registry → String → String → Registry × Bool
mark_enclave_attested r id key = (
  update_entry id (λ e. record e { enclave_attested = true; enclave_public_key = key }) r,
  is_registered r id,
)

unfoldable pub mark_unreachable : Registry → String → Registry
mark_unreachable r id = update_entry id (λ e. record e { unreachable = true }) r

unfoldable pub mark_job_served : ℕ → Registry → String → Registry
mark_job_served now r id = update_entry id (λ e. record e { last_job_served_at = some now }) r

unfoldable pub mark_seen : ℕ → Registry → String → Registry
mark_seen now r id = update_entry id (λ e. record e { last_seen = now; unreachable = false }) r

-- The moving average with a weight of 0.3 for the new sample.
unfoldable pub fold_sample : Option ℕ → ℕ → ℕ
fold_sample none sample = sample
fold_sample (some old) sample = (old * 7 + sample * 3) / 10

unfoldable pub record_observed_throughput : Registry → String → ℕ → Registry
record_observed_throughput r id sample =
    if leb sample 0
    then r
    else update_entry id
        (λ e. record e {
          observed_tps = some (fold_sample e.observed_tps sample);
          observed_samples = suc e.observed_samples;
        })
        r

-- `atomic.AddInt32` by one, with its wrap-around, and back.
unfoldable pub add_one : ℤ → ℤ
add_one (pos n) = if n == 2147483647 then negsuc 2147483647 else pos (suc n)
add_one (negsuc n) = negsuc n +ℤ pos 1

unfoldable pub sub_one : ℤ → ℤ
sub_one (pos n) = pos n -ℤ pos 1
sub_one (negsuc n) = if n == 2147483647 then pos 2147483647 else negsuc (suc n)

unfoldable pub incr_in_flight : Registry → String → Registry
incr_in_flight r id = update_entry id (λ e. record e { in_flight = add_one e.in_flight }) r

unfoldable pub decr_in_flight : Registry → String → Registry
decr_in_flight r id =
    update_entry id
      (λ e. record e {
        in_flight = if ltb_ℤ (sub_one e.in_flight) (pos 0) then pos 0 else sub_one e.in_flight;
      })
      r

-- The sum of two int32, with its wrap-around.
unfoldable pub wrap_int32 : ℤ → ℤ
wrap_int32 (pos n) = if leb n 2147483647 then pos n else pos n -ℤ pos 4294967296
wrap_int32 (negsuc n) = if leb n 2147483647 then negsuc n else negsuc n +ℤ pos 4294967296

unfoldable pub total_in_flight : ℕ → Registry → ℤ
total_in_flight now [] = pos 0
total_in_flight now (e ∷ r) =
    wrap_int32 ((if is_live_entry now e.1 then e.1.in_flight else pos 0) +ℤ total_in_flight now r)

unfoldable pub public_key_of : Registry → String → Option String
public_key_of r id = elim (lookup id r) [ none ↦ none | some e ↦ some e.public_key ]

unfoldable pub manifest_of : Registry → String → Option CapabilityManifest
manifest_of r id = elim (lookup id r) [ none ↦ none | some e ↦ some e.manifest ]

-- The outer option is the error for an unknown node.
unfoldable pub claimed_signature : Registry → String → Option (Option MeasuredSignature)
claimed_signature r id = elim (lookup id r) [
  | none ↦ none
  | some e ↦ some e.manifest.measured_signature
]

-- `id < cur` on strings: byte by byte.
unfoldable pub precedes : String → String → Bool
precedes s t = elim (compare s t) [ Ordering.lt ↦ true | Ordering.eq ↦ false | Ordering.gt ↦ false ]

-- A live node that says which ring it belongs to.
unfoldable pub is_in_ring : ℕ → NodeEntry → Bool
is_in_ring now e = not (str_eq e.manifest.cluster_signature "") && is_live_entry now e

-- The first loop of `clusterStandbyNodeIDs`: `best`.
unfoldable pub best_of : ℕ → Registry → Dict String → Dict String
best_of now [] best = best
best_of now (e ∷ r) best =
    let signature = e.1.manifest.cluster_signature in
    best_of now r (
      if is_in_ring now e.1
      then elim (lookup signature best) [
        | none ↦ insert signature e.0 best
        | some cur ↦ if precedes e.0 cur then insert signature e.0 best else best
      ]
      else best)

-- `best[sig] != id`, where a missing key gives the empty string.
unfoldable pub is_second : ℕ → Dict String → String → NodeEntry → Bool
is_second now best id e =
    is_in_ring now e
    && not (str_eq (elim (lookup e.manifest.cluster_signature best) [ none ↦ "" | some b ↦ b ]) id)

-- The second loop.
unfoldable pub seconds_of : ℕ → Dict String → Registry → List String
seconds_of now best [] = []
seconds_of now best (e ∷ r) =
    let rest = seconds_of now best r in if is_second now best e.0 e.1 then e.0 ∷ rest else rest

unfoldable pub cluster_standby_node_ids : ℕ → Registry → List String
cluster_standby_node_ids now r = seconds_of now (best_of now r []) r

-- `standby[id]`
unfoldable pub is_standby : ℕ → Registry → String → Bool
is_standby now r id = any (str_eq id) (cluster_standby_node_ids now r)

unfoldable pub serves_model : String → String → ModelCapability → Bool
serves_model model quantization m =
    str_eq m.model_id model && (str_eq quantization "" || str_eq m.quantization quantization)

unfoldable pub has_model : CapabilityManifest → String → String → Bool
has_model m model quantization = any (serves_model model quantization) m.models

-- `modelIsLoaded`: the first model that matches decides.
unfoldable pub first_is_loaded : String → String → List ModelCapability → Bool
first_is_loaded model quantization [] = false
first_is_loaded model quantization (m ∷ ms) =
    let rest = first_is_loaded model quantization ms in
    if serves_model model quantization m then m.loaded else rest

unfoldable pub model_is_loaded : CapabilityManifest → String → String → Bool
model_is_loaded m model quantization = first_is_loaded model quantization m.models

unfoldable pub is_candidate : ℕ → Registry → String → String → String → NodeEntry → Bool
is_candidate now r model quantization id e =
    (is_live_entry now e && not (is_standby now r id)) && has_model e.manifest model quantization

-- `CandidatesWithLoad`
pub record NodeWithLoad : Type 0 where
  pub manifest : CapabilityManifest
  pub in_flight : ℤ
  pub enclave_attested : Bool
  pub observed_tps : Option ℕ

unfoldable pub select : (String → NodeEntry → Bool) → Registry → List NodeEntry
select p [] = []
select p (e ∷ r) = let rest = select p r in if p e.0 e.1 then e.1 ∷ rest else rest

unfoldable pub candidates : ℕ → Registry → String → String → List CapabilityManifest
candidates now r model quantization =
    map (λ e. e.manifest) (select (is_candidate now r model quantization) r)

unfoldable pub with_load : NodeEntry → NodeWithLoad
with_load e = record {
  manifest = e.manifest;
  in_flight = e.in_flight;
  enclave_attested = e.enclave_attested;
  observed_tps = e.observed_tps;
}

unfoldable pub candidates_with_load : ℕ → Registry → String → String → List NodeWithLoad
candidates_with_load now r model quantization =
    map with_load (select (is_candidate now r model quantization) r)

-- When the node was last busy: its last served job, else its registration.
unfoldable pub idle_from : NodeEntry → ℕ
idle_from e = elim e.last_job_served_at [ none ↦ e.registered_at | some t ↦ t ]

-- The filter of `IdleCandidates`, with `cutoff = now - idleSince`.
unfoldable pub is_idle : ℕ → ℕ → Registry → String → NodeEntry → Bool
is_idle now idle_since r id e =
    ((is_live_entry now e && not e.manifest.simulated)
      && (not (is_standby now r id) && not (length e.manifest.models == 0)))
    && leb (idle_from e + idle_since) now

-- `sort.Slice` by `idleFrom`; nodes with the same time come in any order in the source.
unfoldable pub place : NodeEntry → List NodeEntry → List NodeEntry
place e [] = e ∷ []
place e (f ∷ fs) =
    let rest = place e fs in if leb (idle_from e) (idle_from f) then e ∷ f ∷ fs else f ∷ rest

unfoldable pub sort_idle : List NodeEntry → List NodeEntry
sort_idle [] = []
sort_idle (e ∷ es) = place e (sort_idle es)

unfoldable pub idle_candidates : ℕ → ℕ → Registry → List CapabilityManifest
idle_candidates now idle_since r =
    map (λ e. e.manifest) (sort_idle (select (is_idle now idle_since r) r))
