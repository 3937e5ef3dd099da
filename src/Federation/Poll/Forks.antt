-- ===== src/Federation/Poll/Forks.antt =====
-- Sequence numbers that come twice: StoreWitnessedEvent of internal/federation/store.go.
use mlx_mesh.Base.{
  ℕ, ◌≡◌, refl, sym, ap, subst, ◌∙◌, inl, inr, Bool, Option, none, some, List, [], ◌∷◌, String,
  eq_refl, String-cases, none-ne-some,
}
use mlx_mesh.Base.Dict.{lookup, lookup-insert}
use mlx_mesh.Federation.Event.{LedgerEvent, VerifySignature}
use mlx_mesh.Federation.Store.{Store, events_of, at_sequence, store_pinned, store_witnessed_event}
use mlx_mesh.Federation.Poll.{witness_all}
use mlx_mesh.Federation.Store.Cases.{
  pinned_store, stored_event, IsPinnedTo, store_pinned_cases, store_witnessed_cases,
  events_of-insert, at_sequence-last, stored_event-keeps,
}

-- What the store knows of a pod: its key, and the event under a number.
abbrev Knows : Store → String → String → ℕ → LedgerEvent → Type 0
Knows s pod key q e =
    (lookup pod s.peer_keys ≡ some key) × (at_sequence q (events_of s.witnessed pod) ≡ some e)

base_keeps :
    (s b : Store) (evt : LedgerEvent) (pod key : String) (q : ℕ) (e : LedgerEvent)
    → IsPinnedTo s evt b
    → Knows s pod key q e
    → Knows b pod key q e
unfolding pinned_store
base_keeps s b evt pod key q e (inl (same, _)) k = rw same k
base_keeps s b evt pod key q e (inr (pinned, new)) (known, found) =
    elim (String-cases evt.pod_id pod) [
      | inl same ↦ absurd (none-ne-some key (sym new ∙ rw same known))
      | inr differs ↦ rw (pinned, pinned_store, lookup-insert, differs) (known, found)
    ]

stored_keeps :
    (exec : Bool) (s : Store) (evt : LedgerEvent) (pod key : String) (q : ℕ) (e : LedgerEvent)
    → Knows s pod key q e
    → Knows (store_pinned exec s evt).0 pod key q e
unfolding stored_event
stored_keeps exec s evt pod key q e (known, found) = elim (store_pinned_cases exec s evt) [
  | inl (_, r) ↦ rw r (known, found)
  | inr (inl (_, _, _, r)) ↦ rw r (known, found)
  | inr (inr (_, r)) ↦ rw r (kept, stored_event-keeps s evt pod q e found)
]
  where
    kept : lookup pod (stored_event s evt).peer_keys ≡ some key
    kept = known

witness_keeps :
    (vs : VerifySignature) (exec_key exec : Bool) (s : Store) (evt : LedgerEvent) (pod key : String)
    (q : ℕ) (e : LedgerEvent)
    → Knows s pod key q e
    → Knows (store_witnessed_event vs exec_key exec s evt).0 pod key q e
witness_keeps vs exec_key exec s evt pod key q e k =
    elim (store_witnessed_cases vs exec_key exec s evt) [
      | inl (_, r) ↦ rw r k
      | inr (b, base, _, r) ↦
          rw r (stored_keeps exec b evt pod key q e (base_keeps s b evt pod key q e base k))
    ]

witness_all_keeps :
    (vs : VerifySignature) (s : Store) (ws : List (Bool × Bool × LedgerEvent)) (pod key : String)
    (q : ℕ) (e : LedgerEvent)
    → Knows s pod key q e
    → Knows (witness_all vs s ws) pod key q e
unfolding witness_all
witness_all_keeps vs s [] pod key q e k = k
witness_all_keeps vs s (w ∷ ws) pod key q e k =
    witness_all_keeps vs (store_witnessed_event vs w.0 w.1 s w.2).0 ws pod key q e
      (witness_keeps vs w.0 w.1 s w.2 pod key q e k)

base_key :
    (s b : Store) (evt : LedgerEvent)
    → IsPinnedTo s evt b
    → lookup evt.pod_id b.peer_keys ≡ some evt.public_key
unfolding pinned_store
base_key s b evt (inl (same, known)) = rw same known
base_key s b evt (inr (pinned, new)) = rw (pinned, pinned_store, lookup-insert, eq_refl)

-- An event that is accepted is known under its own signature and key.
accepted_known :
    (vs : VerifySignature) (exec_key exec : Bool) (s : Store) (evt : LedgerEvent)
    → (store_witnessed_event vs exec_key exec s evt).1 ≡ none
    → (e : LedgerEvent) × (e.signature ≡ evt.signature)
      × Knows
          (store_witnessed_event vs exec_key exec s evt).0
          evt.pod_id
          evt.public_key
          evt.sequence
          e
unfolding stored_event
accepted_known vs exec_key exec s evt ok = elim (store_witnessed_cases vs exec_key exec s evt) [
  | inl (e, r) ↦ absurd (none-ne-some e (sym (rw r at ok)))
  | inr (b, base, _, r) ↦ elim (store_pinned_cases exec b evt) [
    | inl (e, r') ↦ absurd (none-ne-some e (sym (rw (r, r') at ok)))
    | inr (inl (old, known, same, r')) ↦ rw (r, r') (old, same, (base_key s b evt base, known))
    | inr (inr (new, r')) ↦ rw (r, r') (evt, refl, (kept b (base_key s b evt base), last b new))
  ]
]
  where
    kept :
        (b : Store)
        → lookup evt.pod_id b.peer_keys ≡ some evt.public_key
        → lookup evt.pod_id (stored_event b evt).peer_keys ≡ some evt.public_key
    kept b h = h

    last :
        (b : Store)
        → at_sequence evt.sequence (events_of b.witnessed evt.pod_id) ≡ none
        → at_sequence evt.sequence (events_of (stored_event b evt).witnessed evt.pod_id) ≡ some evt
    last b new =
        rw (stored_event, events_of-insert, eq_refl)
          (at_sequence-last (events_of b.witnessed evt.pod_id) evt new)

some-inj {ℓ} : {A : Type ℓ} (a b : A) → ◌≡◌ {A = Option A} (some a) (some b) → a ≡ b
some-inj a b e = cc

-- Once an event has been accepted, and whatever events of whatever pods come after it, an event of the
-- same pod with the same sequence number is accepted only if it bears the same signature by the same
-- key: a pod that rewrites its history is found out.
pub store_witnessed_event-unforked :
    (vs : VerifySignature) (k k' x x' : Bool) (s : Store) (evt evt' : LedgerEvent)
    (ws : List (Bool × Bool × LedgerEvent))
    → (store_witnessed_event vs k x s evt).1 ≡ none
    → let s' = witness_all vs (store_witnessed_event vs k x s evt).0 ws in
      evt'.pod_id ≡ evt.pod_id
      → evt'.sequence ≡ evt.sequence
      → (store_witnessed_event vs k' x' s' evt').1 ≡ none
      → (evt'.signature ≡ evt.signature) × (evt'.public_key ≡ evt.public_key)
store_witnessed_event-unforked vs k k' x x' s evt evt' ws ok pod seq ok' =
    let s' = witness_all vs (store_witnessed_event vs k x s evt).0 ws in
    let (e, sig, known) = accepted_known vs k x s evt ok in
    let later = witness_keeps vs k' x' s' evt' evt.pod_id evt.public_key evt.sequence e (
      witness_all_keeps vs (store_witnessed_event vs k x s evt).0 ws evt.pod_id evt.public_key
        evt.sequence e known) in
    let (e', sig', known') = accepted_known vs k' x' s' evt' ok' in
    let t = (store_witnessed_event vs k' x' s' evt').0 in
    let key : lookup evt.pod_id t.peer_keys ≡ some evt'.public_key =
      subst (λ p. lookup p t.peer_keys ≡ some evt'.public_key) pod known'.0 in
    let found : at_sequence evt.sequence (events_of t.witnessed evt.pod_id) ≡ some e' =
      subst (λ p. at_sequence evt.sequence (events_of t.witnessed p) ≡ some e') pod
        (subst (λ q. at_sequence q (events_of t.witnessed evt'.pod_id) ≡ some e') seq known'.1) in
    let same : e' ≡ e = some-inj e' e (sym found ∙ later.1) in
    (sym sig' ∙ ap (λ x. x.signature) same ∙ sig, some-inj _ _ (sym key ∙ later.0))
