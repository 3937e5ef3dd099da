-- ===== src/Coordinator/Registry/Keys.antt =====
-- Who a node is, through any sequence of calls: its key and its attestation. The mutex makes each call
-- one step.
use mlx_mesh.Base.{
  ℕ, ◌≡◌, ◌≢◌, ◌⊎◌, refl, inl, inr, Bool, true, false, some, List, [], ◌∷◌, String, All, Bool-cases,
  Option-cases, arith, eq_iff, eq_refl, leb,
}
use mlx_mesh.Base.Dict.{
  lookup, insert, All-insert, All-lookup, All-sweep, lookup-insert, IsDistinct, insert-IsDistinct,
  sweep-IsDistinct,
}
use mlx_mesh.Coordinator.Registry.{
  CapabilityManifest, NodeEntry, Registry, Crypto, registered, new_entry, update_entry, evict,
  register, refresh, mark_enclave_attested, mark_unreachable, mark_job_served, mark_seen,
  record_observed_throughput, incr_in_flight, decr_in_flight,
}

pub data Op : Type 0 where
  register_node : ℕ → CapabilityManifest → String → String → Op
  refresh_node : ℕ → String → CapabilityManifest → Op
  attest : String → String → Op
  unreachable : String → Op
  served : ℕ → String → Op
  seen : ℕ → String → Op
  observed : String → ℕ → Op
  dispatched : String → Op
  finished : String → Op
  evicted : ℕ → Op

module _ (crypto : Crypto) where
  unfoldable pub step : Registry → Op → Registry
  step r (register_node now m key signature) = (register crypto now r m key signature).0
  step r (refresh_node now id m) = (refresh now r id m).0
  step r (attest id key) = (mark_enclave_attested r id key).0
  step r (unreachable id) = mark_unreachable r id
  step r (served now id) = mark_job_served now r id
  step r (seen now id) = mark_seen now r id
  step r (observed id sample) = record_observed_throughput r id sample
  step r (dispatched id) = incr_in_flight r id
  step r (finished id) = decr_in_flight r id
  step r (evicted now) = evict now r

  unfoldable pub run : Registry → List Op → Registry
  run r [] = r
  run r (o ∷ os) = run (step r o) os

abbrev pub Everywhere : (String → NodeEntry → Type 0) → Registry → Type 0
Everywhere P r = All (λ e. P e.0 e.1) r

-- What an update of one entry keeps, it keeps everywhere.
Everywhere-update_entry :
    (P : String → NodeEntry → Type 0) (id : String) (f : NodeEntry → NodeEntry) (r : Registry)
    → ((e : NodeEntry) → P id e → P id (f e))
    → Everywhere P r
    → Everywhere P (update_entry id f r)
unfolding update_entry
Everywhere-update_entry P id f r keeps h = elim (Option-cases (lookup id r)) [
  | inl missing ↦ rw (missing, update_entry) h
  | inr (e, here) ↦
      rw (here, update_entry) (All-insert P id (f e) r (keeps e (All-lookup P id e r h here)) h)
]

register_cases :
    (crypto : Crypto) (now : ℕ) (r : Registry) (m : CapabilityManifest) (key signature : String)
    → let (r', outcome) = register crypto now r m key signature in
      ((outcome ≡ registered)
        × (crypto.node_id_from_pub_key key ≡ m.node_id)
        × (crypto.verify_manifest key m signature ≡ some true)
        × (r' ≡ insert m.node_id (new_entry now m key) r))
      ⊎ ((outcome ≢ registered) × (r' ≡ r))
unfolding register
register_cases crypto now r m key signature =
    ground (arith, eq_iff (crypto.node_id_from_pub_key key) m.node_id)

-- A property of a node's name, its key and whether it is attested.
abbrev Holds : (String → String → Bool → Type 0) → Registry → Type 0
Holds P r = Everywhere (λ id e. P id e.public_key e.enclave_attested) r

-- What a call must keep of it: a registration brings in a key that derives to the name and no
-- attestation, and only `MarkEnclaveAttested` attests.
abbrev Allows : Crypto → (String → String → Bool → Type 0) → Op → Type 0
Allows crypto P (register_node _ m key _) =
    crypto.node_id_from_pub_key key ≡ m.node_id → P m.node_id key false
Allows crypto P (attest id _) = (key : String) (b : Bool) → P id key b → P id key true
Allows crypto P (refresh_node _ _ _) = Unit
Allows crypto P (unreachable _) = Unit
Allows crypto P (served _ _) = Unit
Allows crypto P (seen _ _) = Unit
Allows crypto P (observed _ _) = Unit
Allows crypto P (dispatched _) = Unit
Allows crypto P (finished _) = Unit
Allows crypto P (evicted _) = Unit

module _ (crypto : Crypto) (P : String → String → Bool → Type 0) where
  step-Holds : (r : Registry) (o : Op) → Allows crypto P o → Holds P r → Holds P (step crypto r o)
  unfolding step refresh mark_enclave_attested mark_unreachable mark_job_served mark_seen
      record_observed_throughput incr_in_flight decr_in_flight evict new_entry
  step-Holds r (register_node now m key signature) a h =
      elim (register_cases crypto now r m key signature) [
        | inl (_, derived, _, added) ↦ rw added (
            All-insert (λ id e. P id e.public_key e.enclave_attested) m.node_id
              (new_entry now m key) r (a derived) h)
        | inr (_, same) ↦ rw same h
      ]
  step-Holds r (refresh_node now id m) a h = Everywhere-update_entry _ id _ r (λ _ k. k) h
  step-Holds r (attest id key) a h =
      Everywhere-update_entry _ id _ r (λ e k. a e.public_key e.enclave_attested k) h
  step-Holds r (unreachable id) a h = Everywhere-update_entry _ id _ r (λ _ k. k) h
  step-Holds r (served now id) a h = Everywhere-update_entry _ id _ r (λ _ k. k) h
  step-Holds r (seen now id) a h = Everywhere-update_entry _ id _ r (λ _ k. k) h
  step-Holds r (observed id sample) a h = elim (Bool-cases (leb sample 0)) [
    | inl idle ↦ rw (idle, record_observed_throughput) h
    | inr busy ↦
        rw (busy, record_observed_throughput) (Everywhere-update_entry _ id _ r (λ _ k. k) h)
  ]
  step-Holds r (dispatched id) a h = Everywhere-update_entry _ id _ r (λ _ k. k) h
  step-Holds r (finished id) a h = Everywhere-update_entry _ id _ r (λ _ k. k) h
  step-Holds r (evicted now) a h = All-sweep _ _ r h

  run-Holds :
      (r : Registry) (os : List Op)
      → All (Allows crypto P) os
      → Holds P r
      → Holds P (run crypto r os)
  unfolding run
  run-Holds r [] a h = h
  run-Holds r (o ∷ os) a h = run-Holds (step crypto r o) os a.1 (step-Holds r o a.0 h)

-- The key kept for a node is one from which the node's name derives.
abbrev pub IsKeyed : Crypto → Registry → Type 0
IsKeyed crypto r = Everywhere (λ id e. crypto.node_id_from_pub_key e.public_key ≡ id) r

abbrev Derives : Crypto → String → String → Bool → Type 0
Derives crypto id key b = crypto.node_id_from_pub_key key ≡ id

All-derive : (crypto : Crypto) (os : List Op) → All (Allows crypto (Derives crypto)) os
All-derive crypto [] = tt
All-derive crypto (register_node now m key s ∷ os) = ((λ h. h), All-derive crypto os)
All-derive crypto (attest id key ∷ os) = ((λ _ _ h. h), All-derive crypto os)
All-derive crypto (refresh_node now id m ∷ os) = (tt, All-derive crypto os)
All-derive crypto (unreachable id ∷ os) = (tt, All-derive crypto os)
All-derive crypto (served now id ∷ os) = (tt, All-derive crypto os)
All-derive crypto (seen now id ∷ os) = (tt, All-derive crypto os)
All-derive crypto (observed id sample ∷ os) = (tt, All-derive crypto os)
All-derive crypto (dispatched id ∷ os) = (tt, All-derive crypto os)
All-derive crypto (finished id ∷ os) = (tt, All-derive crypto os)
All-derive crypto (evicted now ∷ os) = (tt, All-derive crypto os)

-- Through any sequence of calls on a registry of which it is true, whoever made them, the key under
-- which a node's requests are checked is one from which the node's name derives: no call can put
-- another key there.
pub run-IsKeyed :
    (crypto : Crypto) (r : Registry) (os : List Op)
    → IsKeyed crypto r
    → IsKeyed crypto (run crypto r os)
run-IsKeyed crypto r os h = run-Holds crypto (Derives crypto) r os (All-derive crypto os) h

-- The call is no attestation of this node.
abbrev pub SparesNode : String → Op → Type 0
SparesNode id (attest k _) = k ≢ id
SparesNode id (register_node _ _ _ _) = Unit
SparesNode id (refresh_node _ _ _) = Unit
SparesNode id (unreachable _) = Unit
SparesNode id (served _ _) = Unit
SparesNode id (seen _ _) = Unit
SparesNode id (observed _ _) = Unit
SparesNode id (dispatched _) = Unit
SparesNode id (finished _) = Unit
SparesNode id (evicted _) = Unit

-- No entry of this node is attested.
abbrev pub IsUnattested : String → Registry → Type 0
IsUnattested id r = Everywhere (λ k e. (k ≢ id) ⊎ (e.enclave_attested ≡ false)) r

abbrev Unattested : String → String → String → Bool → Type 0
Unattested id k key b = (k ≢ id) ⊎ (b ≡ false)

spared :
    (crypto : Crypto) (id : String) (o : Op) → SparesNode id o → Allows crypto (Unattested id) o
spared crypto id (register_node now m key s) h = λ _. inr refl
spared crypto id (attest k key) h = λ _ _ _. inl h
spared crypto id (refresh_node now k m) h = tt
spared crypto id (unreachable k) h = tt
spared crypto id (served now k) h = tt
spared crypto id (seen now k) h = tt
spared crypto id (observed k sample) h = tt
spared crypto id (dispatched k) h = tt
spared crypto id (finished k) h = tt
spared crypto id (evicted now) h = tt

All-spared :
    (crypto : Crypto) (id : String) (os : List Op)
    → All (SparesNode id) os
    → All (Allows crypto (Unattested id)) os
All-spared crypto id [] h = tt
All-spared crypto id (o ∷ os) h = (spared crypto id o h.0, All-spared crypto id os h.1)

-- A node that is not attested stays so through any sequence of calls without a `MarkEnclaveAttested`
-- for it, whatever its manifests declare, and whether or not it registers again.
pub run-IsUnattested :
    (crypto : Crypto) (id : String) (r : Registry) (os : List Op)
    → All (SparesNode id) os
    → IsUnattested id r
    → IsUnattested id (run crypto r os)
run-IsUnattested crypto id r os a h =
    run-Holds crypto (Unattested id) r os (All-spared crypto id os a) h

-- A registration attests nobody: an attested node that registers again is not attested.
pub register-unattested :
    (crypto : Crypto) (now : ℕ) (r : Registry) (m : CapabilityManifest) (key signature : String)
    → let (r', outcome) = register crypto now r m key signature in
      ((outcome ≡ registered)
        × (lookup m.node_id r' ≡ some (new_entry now m key))
        × ((new_entry now m key).enclave_attested ≡ false))
      ⊎ ((outcome ≢ registered) × (r' ≡ r))
unfolding new_entry
register-unattested crypto now r m key signature =
    elim (register_cases crypto now r m key signature) [
      | inl (ok, _, _, added) ↦ inl (ok, rw (added, lookup-insert, eq_refl m.node_id), refl)
      | inr refused ↦ inr refused
    ]

update_entry-IsDistinct :
    (id : String) (f : NodeEntry → NodeEntry) (r : Registry)
    → IsDistinct r
    → IsDistinct (update_entry id f r)
unfolding update_entry
update_entry-IsDistinct id f r d = elim (Option-cases (lookup id r)) [
  | inl missing ↦ rw (missing, update_entry) d
  | inr (e, here) ↦ rw (here, update_entry) (insert-IsDistinct id (f e) r d)
]

step-IsDistinct :
    (crypto : Crypto) (r : Registry) (o : Op) → IsDistinct r → IsDistinct (step crypto r o)
unfolding step refresh mark_enclave_attested mark_unreachable mark_job_served mark_seen
    record_observed_throughput incr_in_flight decr_in_flight evict
step-IsDistinct crypto r (register_node now m key signature) d =
    elim (register_cases crypto now r m key signature) [
      | inl (_, _, _, added) ↦ rw added (insert-IsDistinct m.node_id (new_entry now m key) r d)
      | inr (_, same) ↦ rw same d
    ]
step-IsDistinct crypto r (refresh_node now id m) d = update_entry-IsDistinct id _ r d
step-IsDistinct crypto r (attest id key) d = update_entry-IsDistinct id _ r d
step-IsDistinct crypto r (unreachable id) d = update_entry-IsDistinct id _ r d
step-IsDistinct crypto r (served now id) d = update_entry-IsDistinct id _ r d
step-IsDistinct crypto r (seen now id) d = update_entry-IsDistinct id _ r d
step-IsDistinct crypto r (observed id sample) d = elim (Bool-cases (leb sample 0)) [
  | inl idle ↦ rw (idle, record_observed_throughput) d
  | inr busy ↦ rw (busy, record_observed_throughput) (update_entry-IsDistinct id _ r d)
]
step-IsDistinct crypto r (dispatched id) d = update_entry-IsDistinct id _ r d
step-IsDistinct crypto r (finished id) d = update_entry-IsDistinct id _ r d
step-IsDistinct crypto r (evicted now) d = sweep-IsDistinct _ r d

-- No sequence of calls gives a node two entries.
pub run-IsDistinct :
    (crypto : Crypto) (r : Registry) (os : List Op) → IsDistinct r → IsDistinct (run crypto r os)
unfolding run
run-IsDistinct crypto r [] d = d
run-IsDistinct crypto r (o ∷ os) d =
    run-IsDistinct crypto (step crypto r o) os (step-IsDistinct crypto r o d)
