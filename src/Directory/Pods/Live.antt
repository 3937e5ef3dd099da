-- ===== src/Directory/Pods/Live.antt =====
-- What the directory answers about live pods.
use mlx_mesh.Base.{
  ℕ, ◌+◌, ◌-◌, ◌≤◌, ◌≡◌, refl, sym, ◌∙◌, inl, inr, true, Option, some, List, [], ◌∷◌, map, String,
  str_eq, any, leb, length, arith, eq_refl, Bool-cases, String-cases, none-ne-some,
}
use mlx_mesh.Base.Dict.{Dict, lookup, insert, lookup-insert, lookup-cons, lookup-nil}
use mlx_mesh.Directory.Pinning.{PodHealthDigest}
use mlx_mesh.Directory.Pods.{
  PodEntry, PodStore, upsert, is_live, live_pods, all_pods, all_pod_ids, serving, query_for_model,
  count_live, live_count,
}

live_pods-count :
    (now ttl : ℕ) (m : Dict PodEntry) → length (live_pods now ttl m) ≡ count_live now ttl m
unfolding live_pods count_live
live_pods-count now ttl [] = refl
live_pods-count now ttl (e ∷ m) = elim (Bool-cases (is_live now ttl e.1)) [
  | inl live ↦ rw (live, live_pods, count_live) (rw (live_pods-count now ttl m))
  | inr dead ↦ rw (dead, live_pods, count_live) (live_pods-count now ttl m)
]

length-map :
    (f : PodHealthDigest → String) (ds : List PodHealthDigest) → length (map f ds) ≡ length ds
length-map f [] = refl
length-map f (d ∷ ds) = rw (length-map f ds)

-- The count of live pods is the number of pods that are listed, by name and by digest.
pub live_count-length :
    (now : ℕ) (s : PodStore)
    → (length (all_pods now s) ≡ live_count now s) × (length (all_pod_ids now s) ≡ live_count now s)
unfolding all_pods all_pod_ids live_count
live_count-length now s = (
  live_pods-count now s.pod_ttl s.pods,
  length-map (λ d. d.pod_id) (live_pods now s.pod_ttl s.pods)
      ∙ live_pods-count now s.pod_ttl s.pods,
)

serving-cons :
    (model : String) (id : String) (d : PodHealthDigest) (ds : List PodHealthDigest)
    → any (str_eq id) (serving model ds) ≡ true
    → any (str_eq id) (serving model (d ∷ ds)) ≡ true
unfolding serving
serving-cons model id d ds h = ground arith

serving-head :
    (model : String) (d : PodHealthDigest) (ds : List PodHealthDigest)
    → any (str_eq model) d.servable_model_ids ≡ true
    → any (str_eq d.pod_id) (serving model (d ∷ ds)) ≡ true
unfolding serving
serving-head model d ds h = rw (h, eq_refl d.pod_id)

query_found :
    (now ttl : ℕ) (model : String) (m : Dict PodEntry) (e : PodEntry)
    → lookup e.digest.pod_id m ≡ some e
    → is_live now ttl e ≡ true
    → any (str_eq model) e.digest.servable_model_ids ≡ true
    → any (str_eq e.digest.pod_id) (serving model (live_pods now ttl m)) ≡ true
unfolding live_pods
query_found now ttl model [] e found live serves =
    absurd (none-ne-some e (sym (lookup-nil e.digest.pod_id) ∙ found))
query_found now ttl model ((k, f) ∷ m) e found live serves = elim (String-cases k e.digest.pod_id) [
  | inl same ↦
      (let entry : f ≡ e = entry-inj (rw (lookup-cons, same, eq_refl) at found) in
        rw (entry, live) (serving-head model e.digest (live_pods now ttl m) serves))
  | inr differs ↦
      (let rest : any (str_eq e.digest.pod_id) (serving model (live_pods now ttl m)) ≡ true =
          query_found now ttl model m e (rw (lookup-cons, differs) at found) live serves in
        elim (Bool-cases (is_live now ttl f)) [
          | inl listed ↦
              rw listed (serving-cons model e.digest.pod_id f.digest (live_pods now ttl m) rest)
          | inr expired ↦ rw expired rest
        ])
]
  where
    entry-inj : ◌≡◌ {A = Option PodEntry} (some f) (some e) → f ≡ e
    entry-inj h = cc

-- A pod whose digest says that it serves a model is found for the model from then on until its time
-- to live has passed.
pub query_for_model-upsert :
    (now later : ℕ) (s : PodStore) (d : PodHealthDigest) (model : String)
    → later ≤ now + s.pod_ttl
    → any (str_eq model) d.servable_model_ids ≡ true
    → any (str_eq d.pod_id) (query_for_model later (upsert now s d) model) ≡ true
unfolding query_for_model all_pods upsert is_live
query_for_model-upsert now later s d model h serves =
    query_found later s.pod_ttl model (insert d.pod_id entry s.pods) entry
      (lookup-insert d.pod_id d.pod_id entry s.pods ∙ rw (eq_refl d.pod_id))
      (in_time now later s.pod_ttl h) serves
  where
    entry : PodEntry
    entry = record { digest = d; last_seen = now }

    in_time : (now later ttl : ℕ) → later ≤ now + ttl → leb (later - now) ttl ≡ true
    in_time now later ttl h = ground arith
