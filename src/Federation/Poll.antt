-- ===== src/Federation/Poll.antt =====
-- cmd/coordinator/main.go: what a coordinator does with the histories of its peers. What a peer answers
-- over the network is an argument.
pub mod Credits
pub mod Forks
pub mod Sync
mod Tests
use mlx_mesh.Base.{
  ℕ, Bool, true, false, Option, none, some, List, [], ◌∷◌, ◌++◌, map, String, str_eq, if◌then◌else◌,
  ◌||◌,
}
use mlx_mesh.Base.Int.{ℤ, ltb_ℤ}
use mlx_mesh.Federation.Event.{LedgerEvent, VerifySignature, sign}
use mlx_mesh.Federation.Store.{
  Store, append_self_event, self_events_since, store_witnessed_event, witnessed_high_watermark,
  witnessed_gross_credits,
}

-- The loop over the fetched events; an error is only logged. Each event comes with the outcomes of its
-- writes.
unfoldable pub witness_all : VerifySignature → Store → List (Bool × Bool × LedgerEvent) → Store
witness_all vs s [] = s
witness_all vs s (w ∷ ws) = witness_all vs (store_witnessed_event vs w.0 w.1 s w.2).0 ws

-- `PodHealthDigest`, as far as a poll reads it.
pub record Peer : Type 0 where
  pub pod_id : String
  pub coordinator_endpoint : String

-- The answer of an endpoint to a request for the events since a number; none for an error.
abbrev pub FetchEvents : Type 0
FetchEvents = String → ℕ → Option (List (Bool × Bool × LedgerEvent))

unfoldable pub poll_pod : VerifySignature → FetchEvents → Store → Peer → Store
poll_pod vs fetch s pod =
    elim (fetch pod.coordinator_endpoint (witnessed_high_watermark pod.pod_id s)) [
      | none ↦ s
      | some events ↦ witness_all vs s events
    ]

-- `pollFederationPeers`, one round over the pods of the topology.
unfoldable pub poll : VerifySignature → FetchEvents → String → Store → List Peer → Store
poll vs fetch self_pod_id s [] = s
poll vs fetch self_pod_id s (pod ∷ pods) =
    poll vs fetch self_pod_id
      (if str_eq pod.pod_id self_pod_id || str_eq pod.coordinator_endpoint ""
        then s
        else poll_pod vs fetch s pod)
      pods

-- The end of GET /federation/audit: the credits that were witnessed, and whether the balance that the
-- peer claims is within them.
unfoldable pub audit : String → String → ℤ → Store → ℤ × Bool
audit pod user claimed s =
    let witnessed = witnessed_gross_credits pod user s in
    (witnessed, if ltb_ℤ witnessed claimed then false else true)

-- The callback of `SetOnCredit`: the number is read, the event is signed, and only then appended, so
-- that `late` is the store at that time.
unfoldable pub on_credit :
    (LedgerEvent → Option String) → String → Bool → Store → Store → LedgerEvent → Store
on_credit sign_payload public_key exec early late evt =
    elim (sign sign_payload public_key (record evt { sequence = early.next_seq })) [
      | none ↦ late
      | some signed ↦ (append_self_event exec late signed).0
    ]
