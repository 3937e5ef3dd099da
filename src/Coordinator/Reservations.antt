-- ===== src/Coordinator/Reservations.antt =====
-- internal/coordinator/reservation.go. The random identifier is an argument, none where crypto/rand
-- fails; times are in nanoseconds.
pub mod Once
mod Tests
use mlx_mesh.Base.{◌+◌, ◌*◌, ℕ, Option, none, some, String, ltb, if◌then◌else◌, []}
use mlx_mesh.Base.Dict.{Dict, lookup, insert, erase, sweep}

-- internal/coordinator/router.go
pub record NodeTarget : Type 0 where
  pub node_id : String
  pub endpoint : String
  pub tls_fingerprint : String

pub record Reservation : Type 0 where
  pub target : NodeTarget
  pub expires_at : ℕ

abbrev pub ReservationStore : Type 0
ReservationStore = Dict Reservation

abbrev pub reservation_ttl : ℕ
reservation_ttl = 30 * 1000000000

unfoldable pub new_reservation_store : ReservationStore
new_reservation_store = []

unfoldable pub create :
    Option String → NodeTarget → ℕ → ReservationStore → ReservationStore × Option String
create none target now s = (s, none)
create (some id) target now s = (
  insert id (record { target = target; expires_at = now + reservation_ttl })
      (sweep (λ k v. ltb v.expires_at now) s),
  some id,
)

unfoldable pub resolve : String → ℕ → ReservationStore → ReservationStore × Option Reservation
resolve id now s = elim (lookup id s) [
  | none ↦ (s, none)
  | some r ↦ (erase id s, if ltb r.expires_at now then none else some r)
]
