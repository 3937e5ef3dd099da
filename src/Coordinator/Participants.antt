-- ===== src/Coordinator/Participants.antt =====
-- internal/coordinator/coordination.go. Times are in nanoseconds; the text of a time is not modelled,
-- since the time itself is kept beside it.
pub mod Tally
mod Tests
use mlx_mesh.Base.{
  ℕ, suc, ◌-◌, ◌*◌, Bool, true, false, Option, none, some, List, [], ◌∷◌, String, str_eq, ltb, map,
  if◌then◌else◌, length,
}
use mlx_mesh.Base.Dict.{Dict, lookup, insert, erase, sweep}

pub record CoordinationParticipant : Type 0 where
  pub device_id : String
  pub role : String
  pub is_mobile : Bool
  pub geographic_hint : String
  pub region : String
  pub pointers_served : ℕ

pub record CoordEntry : Type 0 where
  pub participant : CoordinationParticipant
  pub last_seen : ℕ

abbrev pub CoordinationRegistry : Type 0
CoordinationRegistry = Dict CoordEntry

abbrev pub coordination_ttl : ℕ
coordination_ttl = 90 * 1000000000

unfoldable pub announce : CoordinationParticipant → ℕ → CoordinationRegistry → CoordinationRegistry
announce p now r =
    let role : String = if str_eq p.role "" then "pointer_host" else p.role in
    let served : ℕ = elim (lookup p.device_id r) [
      | none ↦ p.pointers_served
      | some prev ↦ prev.participant.pointers_served
    ] in
    if str_eq p.device_id ""
    then r
    else insert p.device_id
        (record {
          participant = record p { role = role; pointers_served = served };
          last_seen = now;
        })
        r

unfoldable pub record_pointer_served : String → CoordinationRegistry → CoordinationRegistry × Bool
record_pointer_served id r = if str_eq id "" then (r, false) else elim (lookup id r) [
  | none ↦ (r, false)
  | some e ↦ (
    insert id
        (record e {
          participant = record e.participant {
            pointers_served = suc e.participant.pointers_served;
          };
        })
        r,
    true,
  )
]

unfoldable pub withdraw : String → CoordinationRegistry → CoordinationRegistry
withdraw id r = erase id r

unfoldable pub is_stale : ℕ → CoordEntry → Bool
is_stale now e = ltb coordination_ttl (now - e.last_seen)

unfoldable pub snapshot_at :
    ℕ → CoordinationRegistry → CoordinationRegistry × List CoordinationParticipant
snapshot_at now r =
    let kept = sweep (λ id e. is_stale now e) r in (kept, map (λ e. e.1.participant) kept)

unfoldable pub count : ℕ → CoordinationRegistry → CoordinationRegistry × ℕ
count now r = let (kept, out) = snapshot_at now r in (kept, length out)
