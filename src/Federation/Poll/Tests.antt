-- ===== src/Federation/Poll/Tests.antt =====
-- A witness and a pod: internal/federation/store.go and cmd/coordinator/main.go.
use mlx_mesh.Base.{ℕ, ◌≡◌, refl, inl, true, false, none, some, List, [], ◌∷◌, String, str_eq, ◌||◌}
use mlx_mesh.Base.Int.{pos, ◌+ℤ◌}
use mlx_mesh.Base.Dict.{lookup, insert}
use mlx_mesh.Federation.Event.{LedgerEvent, VerifySignature, signable_bytes, verify_self_consistent}
use mlx_mesh.Federation.Store.{
  Store, new_store, events_of, at_sequence, pin_peer_key_locked, store_pinned,
  store_witnessed_event, self_events_since, witnessed_high_watermark, highest, gross,
  witnessed_gross_credits, forked_history,
}
use mlx_mesh.Federation.Poll.{Peer, poll_pod, witness_all, audit}
use mlx_mesh.Federation.Poll.Forks.{store_witnessed_event-unforked}
use mlx_mesh.Federation.Poll.Sync.{serves, poll_pod-IsSynced}

-- Signatures are "s" and "s2", whatever is signed.
abbrev checks : VerifySignature
checks key e sig = str_eq sig "s" || str_eq sig "s2"

abbrev credit_of : ℕ → String → LedgerEvent
credit_of n sig = record {
  pod_id = "a";
  sequence = n;
  event_type = "earned";
  user_id = "u";
  amount = pos 1500000;
  issued_at = "t";
  public_key = "k";
  signature = sig;
}

abbrev witness : Store
witness = (store_witnessed_event checks true true (new_store none) (credit_of 1 "s")).0

abbrev history : List LedgerEvent
history = credit_of 1 "s" ∷ credit_of 2 "s" ∷ credit_of 3 "s2" ∷ []

abbrev pod : Store
pod = record (new_store none) { self_events = history; next_seq = 4 }

abbrev peer : Peer
peer = record { pod_id = "a"; coordinator_endpoint = "https://a" }

first_accepted :
    (store_witnessed_event checks true true (new_store none) (credit_of 1 "s")).1 ≡ none
unfolding store_witnessed_event verify_self_consistent lookup pin_peer_key_locked store_pinned
    at_sequence events_of new_store insert signable_bytes
first_accepted = refl

fork_refused :
    (store_witnessed_event checks true true witness (credit_of 1 "s2")).1 ≡ some forked_history
unfolding store_witnessed_event verify_self_consistent lookup pin_peer_key_locked store_pinned
    at_sequence events_of new_store insert signable_bytes
fork_refused = refl

again_accepted :
    (store_witnessed_event checks true true
      (witness_all checks witness ((true, true, credit_of 2 "s2") ∷ []))
      (credit_of 1 "s")).1
    ≡ none
unfolding store_witnessed_event verify_self_consistent lookup pin_peer_key_locked store_pinned
    at_sequence events_of new_store insert signable_bytes witness_all
again_accepted = refl

store_witnessed_event-unforked_example :
    ((credit_of 1 "s").signature ≡ (credit_of 1 "s").signature)
    × ((credit_of 1 "s").public_key ≡ (credit_of 1 "s").public_key)
store_witnessed_event-unforked_example =
    store_witnessed_event-unforked checks true true true true (new_store none) (credit_of 1 "s")
      (credit_of 1 "s") ((true, true, credit_of 2 "s2") ∷ []) first_accepted refl refl
      again_accepted

poll_pod-IsSynced_example :
    events_of (poll_pod checks (serves pod) witness peer).witnessed "a" ≡ history
unfolding store_witnessed_event verify_self_consistent lookup pin_peer_key_locked store_pinned
    at_sequence events_of new_store insert signable_bytes
poll_pod-IsSynced_example =
    poll_pod-IsSynced checks peer "k" pod witness (credit_of 1 "s" ∷ [])
      (credit_of 2 "s" ∷ credit_of 3 "s2" ∷ []) refl (refl, (refl, (refl, tt)))
      ((refl, refl, refl), ((refl, refl, refl), ((refl, refl, refl), tt))) (inl refl) refl

-- What the pod has credited is witnessed: three credits of one and a half.
audited :
    audit "a" "u" (pos 4500001) (poll_pod checks (serves pod) witness peer) ≡ (pos 4500000, false)
unfolding audit poll_pod serves witness_all witnessed_gross_credits gross highest
    store_witnessed_event verify_self_consistent lookup pin_peer_key_locked store_pinned at_sequence
    events_of new_store insert signable_bytes self_events_since witnessed_high_watermark ◌+ℤ◌
audited = refl
