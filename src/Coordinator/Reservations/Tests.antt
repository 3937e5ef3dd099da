-- ===== src/Coordinator/Reservations/Tests.antt =====
-- A reservation that is used once.
use mlx_mesh.Base.{◌≡◌, ◌≤◌, refl, none, some, [], ◌∷◌, List}
use mlx_mesh.Coordinator.Reservations.{NodeTarget, Reservation, create, resolve}
use mlx_mesh.Coordinator.Reservations.Once.{Call, creates, resolves, run, resolve-once}

abbrev node : NodeTarget
node = record { node_id = "n"; endpoint = "http://n"; tls_fingerprint = "" }

abbrev between : List Call
between = creates (some "b") node 5 ∷ resolves "c" 6 ∷ []

resolve-once_example :
    ((resolve "a" 12 (run between (resolve "a" 9 (create (some "a") node 1 []).0).0)).1 ≡ none)
    × ((r : Reservation)
        → (resolve "a" 9 (create (some "a") node 1 []).0).1 ≡ some r
        → 9 ≤ r.expires_at)
resolve-once_example = resolve-once "a" 9 12 between (create (some "a") node 1 []).0 (refl, tt)
