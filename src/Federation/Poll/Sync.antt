-- ===== src/Federation/Poll/Sync.antt =====
-- A poll of an honest pod, by runFederationPoller of cmd/coordinator/main.go.
use mlx_mesh.Base.{
  ℕ, suc, ◌+◌, ◌≤◌, ◌≡◌, ◌⊎◌, refl, sym, ap, subst, ◌∙◌, inl, inr, Bool, true, false, none, some,
  List, [], ◌∷◌, ◌++◌, map, String, str_eq, arith, eq_refl, ltb, if◌then◌else◌, All, keep, keep-no,
  keep-yes, length, Option-cases,
}
use mathlib.Core.List.{append_assoc, append-nil}
use mlx_mesh.Base.Dict.{lookup, lookup-insert}
use mlx_mesh.Federation.Event.{LedgerEvent, VerifySignature, verify_self_consistent}
use mlx_mesh.Federation.Store.{
  Store, events_of, at_sequence, highest, pin_peer_key_locked, store_pinned, store_witnessed_event,
  self_events_since, witnessed_high_watermark,
}
use mlx_mesh.Federation.Store.Cases.{
  pinned_store, stored_event, with_key, with_event, events_of-insert,
}
use mlx_mesh.Federation.Store.History.{IsNumbered}
use mlx_mesh.Federation.Poll.{Peer, FetchEvents, witness_all, poll_pod}

-- An event that a pod has signed with its key.
abbrev pub IsFrom : VerifySignature → String → String → LedgerEvent → Type 0
IsFrom vs pod key e = (e.pod_id ≡ pod) × (e.public_key ≡ key) × (verify_self_consistent vs e ≡ true)

-- The pod's key is pinned, or none is yet.
abbrev pub IsOpenTo : String → String → Store → Type 0
IsOpenTo pod key s = (lookup pod s.peer_keys ≡ some key) ⊎ (lookup pod s.peer_keys ≡ none)

abbrev pub written : LedgerEvent → Bool × Bool × LedgerEvent
written e = (true, true, e)

-- An endpoint that gives the events of a store, to a witness whose writes succeed.
unfoldable pub serves : Store → FetchEvents
serves p endpoint since = some (map written (self_events_since since p))

store_pinned_new :
    (s : Store) (evt : LedgerEvent)
    → at_sequence evt.sequence (events_of s.witnessed evt.pod_id) ≡ none
    → store_pinned true s evt ≡ (stored_event s evt, none)
unfolding store_pinned stored_event with_event
store_pinned_new s evt new = elim (Option-cases s.db) [
  | inl memory ↦ ground arith
  | inr (t, file) ↦ rw (new, file, store_pinned, with_event)
]

pin_new :
    (s : Store) (evt : LedgerEvent)
    → pin_peer_key_locked true s evt.pod_id evt.public_key ≡ (pinned_store s evt, true)
unfolding pin_peer_key_locked pinned_store with_key
pin_new s evt = elim (Option-cases s.db) [
  | inl memory ↦ ground arith
  | inr (t, file) ↦ rw (file, pin_peer_key_locked, with_key)
]

-- One new event of the pod is put behind those that are there.
store_next :
    (vs : VerifySignature) (key : String) (s : Store) (e : LedgerEvent)
    → verify_self_consistent vs e ≡ true
    → e.public_key ≡ key
    → IsOpenTo e.pod_id key s
    → at_sequence e.sequence (events_of s.witnessed e.pod_id) ≡ none
    → let s' = (store_witnessed_event vs true true s e).0 in
      (events_of s'.witnessed e.pod_id ≡ events_of s.witnessed e.pod_id ++ (e ∷ []))
      × IsOpenTo e.pod_id key s'
unfolding store_witnessed_event stored_event pinned_store
store_next vs key s e good mine (inl known) new =
    let same : str_eq key e.public_key ≡ true = rw (← mine) (eq_refl e.public_key) in
    rw (good, known, same, store_witnessed_event, store_pinned_new s e new)
      (rw (stored_event, events_of-insert, eq_refl), inl known)
store_next vs key s e good mine (inr unknown) new =
    rw
      (good, unknown, pin_new s e, store_witnessed_event, store_pinned_new (pinned_store s e) e new)
      (
        rw (stored_event, events_of-insert, eq_refl),
        inl (rw (pinned_store, lookup-insert, eq_refl, mine)),
      )

at_sequence-IsNumbered :
    (k q : ℕ) (xs : List LedgerEvent)
    → IsNumbered k xs
    → k + length xs ≤ q
    → at_sequence q xs ≡ none
unfolding at_sequence
at_sequence-IsNumbered k q [] n h = refl
at_sequence-IsNumbered k q (x ∷ xs) (here, n) h =
    ground (arith, at_sequence-IsNumbered (suc k) q xs n (omega (arith, h)))

highest-IsNumbered :
    (k : ℕ) (xs : List LedgerEvent) → IsNumbered (suc k) xs → highest k xs ≡ k + length xs
unfolding highest
highest-IsNumbered k [] n = omega arith
highest-IsNumbered k (x ∷ xs) (here, n) =
    let next : (if ltb k x.sequence then x.sequence else k) ≡ suc k = ground arith in
    rw next (omega (arith, highest-IsNumbered (suc k) xs n))

-- A number that is past the first part, and before the rest.
keep_rest :
    (k q : ℕ) (xs ys : List LedgerEvent)
    → IsNumbered (suc k) (xs ++ ys)
    → q ≡ k + length xs
    → keep (λ e. ltb q e.sequence) (xs ++ ys) ≡ ys
keep_rest k q (x ∷ xs) ys (here, n) h =
    let old : ltb q x.sequence ≡ false = ground (arith, here, h) in
    keep-no (λ e. ltb q e.sequence) x (xs ++ ys) old
    ∙ keep_rest (suc k) q xs ys n (omega (arith, h))
keep_rest k q [] [] n h = refl
keep_rest k q [] (y ∷ ys) (here, n) h =
    let new : ltb q y.sequence ≡ true = ground (arith, here, h) in
    keep-yes (λ e. ltb q e.sequence) y ys new
    ∙ ap (λ l. y ∷ l) (all_later (suc k) q ys n (omega (arith, h)))
  where
    all_later :
        (k q : ℕ) (ys : List LedgerEvent)
        → IsNumbered (suc k) ys
        → q ≤ k
        → keep (λ e. ltb q e.sequence) ys ≡ ys
    all_later k q [] n h = refl
    all_later k q (y ∷ ys) (here, n) h =
        let new : ltb q y.sequence ≡ true = ground (arith, here, h) in
        keep-yes (λ e. ltb q e.sequence) y ys new
        ∙ ap (λ l. y ∷ l) (all_later (suc k) q ys n (omega (arith, h)))

IsNumbered-append :
    (k : ℕ) (xs ys : List LedgerEvent)
    → IsNumbered k (xs ++ ys)
    → IsNumbered k xs × IsNumbered (k + length xs) ys
IsNumbered-append k [] ys n = (tt, subst (λ j. IsNumbered j ys) (omega arith) n)
IsNumbered-append k (x ∷ xs) ys (here, n) =
    let (front, back) = IsNumbered-append (suc k) xs ys n in
    ((here, front), subst (λ j. IsNumbered j ys) (omega arith) back)

witness_rest :
    (vs : VerifySignature) (pod key : String) (s : Store) (xs ys : List LedgerEvent)
    → IsNumbered 1 (xs ++ ys)
    → All (IsFrom vs pod key) ys
    → IsOpenTo pod key s
    → events_of s.witnessed pod ≡ xs
    → events_of (witness_all vs s (map written ys)).witnessed pod ≡ xs ++ ys
unfolding witness_all
witness_rest vs pod key s xs [] n f o here = here ∙ sym (append-nil xs)
witness_rest vs pod key s xs (y ∷ ys) n ((at, mine, good), f) o here =
    let (front, back) = IsNumbered-append 1 xs (y ∷ ys) n in
    let new : at_sequence y.sequence (events_of s.witnessed y.pod_id) ≡ none =
      rw (at, here) (at_sequence-IsNumbered 1 y.sequence xs front (omega (arith, back.0))) in
    let (next, open_next) =
      store_next vs key s y good mine (subst (λ p. IsOpenTo p key s) (sym at) o) new in
    let s' = (store_witnessed_event vs true true s y).0 in
    let more : (xs ++ (y ∷ [])) ++ ys ≡ xs ++ (y ∷ ys) = append_assoc xs (y ∷ []) ys in
    witness_rest vs pod key s' (xs ++ (y ∷ [])) ys (subst (IsNumbered 1) (sym more) n) f
      (subst (λ p. IsOpenTo p key s') at open_next)
      (subst (λ p. events_of s'.witnessed p ≡ events_of s.witnessed p ++ (y ∷ [])) at next
        ∙ ap (λ l. l ++ (y ∷ [])) here)
    ∙ more

-- If the pod answers the fetch and each write of the witness to its file succeeds: a witness that has a
-- first part of the pod's history, and no other key for the pod, has all of it after the poll, provided
-- that the pod's own events are numbered from 1 and are signed by one key. Nothing is rejected, missed
-- or stored twice.
pub poll_pod-IsSynced :
    (vs : VerifySignature) (pod : Peer) (key : String) (p s : Store) (xs ys : List LedgerEvent)
    → p.self_events ≡ xs ++ ys
    → IsNumbered 1 p.self_events
    → All (IsFrom vs pod.pod_id key) p.self_events
    → IsOpenTo pod.pod_id key s
    → events_of s.witnessed pod.pod_id ≡ xs
    → events_of (poll_pod vs (serves p) s pod).witnessed pod.pod_id ≡ p.self_events
unfolding poll_pod serves self_events_since witnessed_high_watermark
poll_pod-IsSynced vs pod key p s xs ys parts numbered from open_to here =
    let numbers : IsNumbered 1 (xs ++ ys) = subst (IsNumbered 1) parts numbered in
    let (front, _) = IsNumbered-append 1 xs ys numbers in
    let top : highest 0 (events_of s.witnessed pod.pod_id) ≡ length xs =
      rw here (omega (arith, highest-IsNumbered 0 xs front)) in
    let since : keep (λ e. ltb (highest 0 (events_of s.witnessed pod.pod_id)) e.sequence)
          p.self_events
        ≡ ys =
      rw (top, parts) (keep_rest 0 (length xs) xs ys numbers (omega arith)) in
    let rest = All_right xs ys (subst (All (IsFrom vs pod.pod_id key)) parts from) in
    rw (poll_pod, serves, self_events_since, witnessed_high_watermark, since)
      (witness_rest vs pod.pod_id key s xs ys numbers rest open_to here ∙ sym parts)
  where
    All_right :
        (xs ys : List LedgerEvent)
        → All (IsFrom vs pod.pod_id key) (xs ++ ys)
        → All (IsFrom vs pod.pod_id key) ys
    All_right [] ys h = h
    All_right (x ∷ xs) ys h = All_right xs ys h.1
