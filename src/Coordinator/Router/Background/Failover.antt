-- ===== src/Coordinator/Router/Background/Failover.antt =====
-- Who is assigned, and who takes over.
use mlx_mesh.Base.{
  ℕ, suc, ◌+◌, ◌≤◌, ◌<◌, ◌≡◌, ◌≢◌, ◌⊎◌, refl, inl, inr, Bool, true, false, Option, none, some, List,
  [], ◌∷◌, String, length, take, All, Bool-cases, get_elem?,
}
use mlx_mesh.Base.Int.{ℤ, pos, negsuc}
use mlx_mesh.Coordinator.Registry.{Registry, is_live, candidates_with_load}
use mlx_mesh.Coordinator.Router.{JobSpec}
use mlx_mesh.Coordinator.Router.Ranking.{ScoredCandidate, scored, sort_scored}
use mlx_mesh.Coordinator.Router.Background.{
  max_int, BackgroundAssignment, Assignment, assigned, too_few_nodes, panics, node_ids, first_live,
  resolve_for_cycle,
}

-- The candidates, best first.
abbrev pub best_first : ℕ → JobSpec → Registry → List ScoredCandidate
best_first now job registry =
    sort_scored
      (scored job (candidates_with_load now registry job.model_id job.quantization_required))

-- What an assignment of a given depth is.
abbrev pub IsAssignment : JobSpec → ℤ → List ScoredCandidate → Assignment → Type 0
IsAssignment job (negsuc d) ranked r = r ≡ panics
IsAssignment job (pos depth) ranked r =
    ((depth ≡ max_int) × (r ≡ panics))
    ⊎ ((depth ≢ max_int) × (length ranked < 1 + depth) × (r ≡ too_few_nodes))
    ⊎ ((depth ≢ max_int)
        × (1 + depth ≤ length ranked)
        × ((a : BackgroundAssignment) × (r ≡ assigned a)
            × (a.job_id ≡ job.job_id)
            × (length a.backups ≡ depth)
            × (a.primary ∷ a.backups ≡ node_ids (take (suc depth) ranked))))

-- The first live node of a list.
abbrev pub IsFirstLive : ℕ → Registry → List String → Option String → Type 0
IsFirstLive now registry ids none = All (λ id. is_live now registry id ≡ false) ids
IsFirstLive now registry ids (some id) =
    (is_live now registry id ≡ true)
    × ((k : ℕ) × (get_elem? ids k ≡ some id)
        × All (λ earlier. is_live now registry earlier ≡ false) (take k ids))

first_live-IsFirstLive :
    (now : ℕ) (registry : Registry) (ids : List String)
    → IsFirstLive now registry ids (first_live now registry ids)
unfolding first_live
first_live-IsFirstLive now registry [] = tt
first_live-IsFirstLive now registry (id ∷ ids) = elim (Bool-cases (is_live now registry id)) [
  | inl up ↦ rw (up, first_live) (up, (0, refl, tt))
  | inr down ↦
      later down (first_live now registry ids) refl (first_live-IsFirstLive now registry ids)
]
  where
    later :
        is_live now registry id ≡ false
        → (found : Option String) → first_live now registry ids ≡ found
        → IsFirstLive now registry ids found
        → IsFirstLive now registry (id ∷ ids) (first_live now registry (id ∷ ids))
    later down none e h = rw (down, e, first_live) (down, h)
    later down (some other) e (up, (k, there, before)) =
        rw (down, e, first_live) (up, (suc k, there, (down, before)))

-- The node of a cycle, without the flag.
abbrev pub node_of : Option (String × Bool) → Option String
node_of none = none
node_of (some (id, primary)) = some id

-- Who serves a cycle, and whether it is reported as the primary.
abbrev pub IsResolved : ℕ → BackgroundAssignment → Registry → Option (String × Bool) → Type 0
IsResolved now a registry r =
    IsFirstLive now registry (a.primary ∷ a.backups) (node_of r)
    × (((is_live now registry a.primary ≡ true) × (r ≡ some (a.primary, true)))
        ⊎ ((is_live now registry a.primary ≡ false) × ((id : String) → r ≢ some (id, true))))

IsResolved-backup :
    (now : ℕ) (a : BackgroundAssignment) (registry : Registry) (found : Option String)
    → is_live now registry a.primary ≡ false
    → first_live now registry a.backups ≡ found
    → IsFirstLive now registry a.backups found
    → IsResolved now a registry (resolve_for_cycle now a registry)
unfolding resolve_for_cycle
IsResolved-backup now a registry none down e h =
    rw (down, e, resolve_for_cycle) ((down, h), inr (refl, λ id f. cc))
IsResolved-backup now a registry (some other) down e (up, (k, there, before)) =
    rw (down, e, resolve_for_cycle) ((up, (suc k, there, (down, before))), inr (refl, λ id f. cc))

-- At any time, a cycle of a background job is served by the first live node of the primary and the
-- backups, in their order; it fails exactly if all of them are down. The node is reported as the
-- primary exactly if the primary is live.
pub resolve_for_cycle-IsResolved :
    (now : ℕ) (a : BackgroundAssignment) (registry : Registry)
    → IsResolved now a registry (resolve_for_cycle now a registry)
unfolding resolve_for_cycle
resolve_for_cycle-IsResolved now a registry = elim (Bool-cases (is_live now registry a.primary)) [
  | inl up ↦ rw (up, resolve_for_cycle) ((up, (0, refl, tt)), inl (refl, refl))
  | inr down ↦
      IsResolved-backup now a registry (first_live now registry a.backups) down refl
        (first_live-IsFirstLive now registry a.backups)
]
