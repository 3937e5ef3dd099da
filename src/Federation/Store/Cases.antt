-- ===== src/Federation/Store/Cases.antt =====
-- What a call of `store_witnessed_event` can do, and how events are found.
use mlx_mesh.Base.{
  ℕ, ◌≡◌, ◌⊎◌, refl, inl, inr, Bool, true, false, Option, none, some, List, [], ◌∷◌, ◌++◌, String,
  str_eq, arith, if◌then◌else◌, Bool-cases, Option-cases, String-cases, eq_refl,
}
use mlx_mesh.Base.Dict.{Dict, lookup, insert, lookup-insert}
use mlx_mesh.Federation.Event.{LedgerEvent, VerifySignature, verify_self_consistent}
use mlx_mesh.Federation.Store.{
  Tables, Store, StoreError, bad_signature, key_mismatch, forked_history, not_persisted, events_of,
  at_sequence, pin_peer_key_locked, store_pinned, store_witnessed_event,
}

-- The file with one more row, if there is a file.
unfoldable pub with_event : LedgerEvent → Option Tables → Option Tables
with_event evt none = none
with_event evt (some t) = some (record t { witnessed_events = t.witnessed_events ++ (evt ∷ []) })

unfoldable pub with_key : String → String → Option Tables → Option Tables
with_key pod key none = none
with_key pod key (some t) = some (record t { peer_keys = t.peer_keys ++ ((pod, key) ∷ []) })

unfoldable pub pinned_store : Store → LedgerEvent → Store
pinned_store s evt = record s {
  peer_keys = insert evt.pod_id evt.public_key s.peer_keys;
  db = with_key evt.pod_id evt.public_key s.db;
}

unfoldable pub stored_event : Store → LedgerEvent → Store
stored_event s evt = record s {
  witnessed = insert evt.pod_id (events_of s.witnessed evt.pod_id ++ (evt ∷ [])) s.witnessed;
  db = with_event evt s.db;
}

-- The state in which the event is looked up: its key is the pinned one, or has just been pinned.
abbrev pub IsPinnedTo : Store → LedgerEvent → Store → Type 0
IsPinnedTo s evt b =
    ((b ≡ s) × (lookup evt.pod_id s.peer_keys ≡ some evt.public_key))
    ⊎ ((b ≡ pinned_store s evt) × (lookup evt.pod_id s.peer_keys ≡ none))

pin_cases :
    (exec : Bool) (s : Store) (evt : LedgerEvent)
    → (pin_peer_key_locked exec s evt.pod_id evt.public_key ≡ (s, false))
      ⊎ (pin_peer_key_locked exec s evt.pod_id evt.public_key ≡ (pinned_store s evt, true))
unfolding pin_peer_key_locked pinned_store with_key
pin_cases exec s evt = elim (Option-cases s.db) [
  | inl memory ↦ inr (ground arith)
  | inr (t, file) ↦ elim (Bool-cases exec) [
    | inl done ↦ inr (rw (file, done, pin_peer_key_locked, with_key))
    | inr failed ↦ inl (ground arith)
  ]
]

pub store_pinned_cases :
    (exec : Bool) (s : Store) (evt : LedgerEvent)
    → let found = at_sequence evt.sequence (events_of s.witnessed evt.pod_id) in
      ((e : StoreError) × (store_pinned exec s evt ≡ (s, some e)))
      ⊎ (((existing : LedgerEvent) × (found ≡ some existing)
            × (existing.signature ≡ evt.signature)
            × (store_pinned exec s evt ≡ (s, none)))
          ⊎ ((found ≡ none) × (store_pinned exec s evt ≡ (stored_event s evt, none))))
unfolding store_pinned stored_event with_event
store_pinned_cases exec s evt =
    elim (Option-cases (at_sequence evt.sequence (events_of s.witnessed evt.pod_id))) [
      | inr (old, known) ↦ elim (String-cases old.signature evt.signature) [
        | inl same ↦ inr (inl (old, known, same, rw (known, same, eq_refl, store_pinned)))
        | inr other ↦ inl (forked_history, rw (known, other, store_pinned))
      ]
      | inl new ↦ elim (Option-cases s.db) [
        | inl memory ↦ inr (inr (new, ground arith))
        | inr (t, file) ↦ elim (Bool-cases exec) [
          | inl done ↦ inr (inr (new, rw (new, file, done, store_pinned, with_event)))
          | inr failed ↦ inl (not_persisted, ground arith)
        ]
      ]
    ]

pub store_witnessed_cases :
    (verify_signature : VerifySignature) (exec_key exec : Bool) (s : Store) (evt : LedgerEvent)
    → let r = store_witnessed_event verify_signature exec_key exec s evt in
      ((e : StoreError) × (r ≡ (s, some e)))
      ⊎ ((b : Store) × IsPinnedTo s evt b
          × (verify_self_consistent verify_signature evt ≡ true)
          × (r ≡ store_pinned exec b evt))
unfolding store_witnessed_event
store_witnessed_cases vs exec_key exec s evt = elim (Bool-cases (verify_self_consistent vs evt)) [
  | inr bad ↦ inl (bad_signature, rw (bad, store_witnessed_event))
  | inl good ↦ elim (Option-cases (lookup evt.pod_id s.peer_keys)) [
    | inr (pinned, known) ↦ elim (String-cases pinned evt.public_key) [
      | inl same ↦ inr (
        s,
        inl (refl, rw same at known),
        good,
        rw (good, known, same, eq_refl, store_witnessed_event),
      )
      | inr other ↦ inl (key_mismatch, rw (good, known, other, store_witnessed_event))
    ]
    | inl new ↦ elim (pin_cases exec_key s evt) [
      | inl failed ↦ inl (not_persisted, rw (good, new, failed, store_witnessed_event))
      | inr done ↦
          inr
            (pinned_store s evt, inr (refl, new), good, rw (good, new, done, store_witnessed_event))
    ]
  ]
]

pub events_of-insert :
    (pod other : String) (es : List LedgerEvent) (w : Dict (List LedgerEvent))
    → events_of (insert pod es w) other ≡ (if str_eq pod other then es else events_of w other)
unfolding events_of
events_of-insert pod other es w = elim (Bool-cases (str_eq pod other)) [
  | inl same ↦ rw (lookup-insert, same, events_of)
  | inr differs ↦ rw (lookup-insert, differs, events_of)
]

pub at_sequence-append :
    (q : ℕ) (xs ys : List LedgerEvent) (e : LedgerEvent)
    → at_sequence q xs ≡ some e
    → at_sequence q (xs ++ ys) ≡ some e
unfolding at_sequence
at_sequence-append q [] ys e h = cc
at_sequence-append q (x ∷ xs) ys e h = ground (arith, at_sequence-append q xs ys e)

pub at_sequence-last :
    (xs : List LedgerEvent) (e : LedgerEvent)
    → at_sequence e.sequence xs ≡ none
    → at_sequence e.sequence (xs ++ (e ∷ [])) ≡ some e
unfolding at_sequence
at_sequence-last [] e h = ground arith
at_sequence-last (x ∷ xs) e h = ground (arith, at_sequence-last xs e)

-- One event of a pod that was found is found after another one is stored.
pub stored_event-keeps :
    (s : Store) (evt : LedgerEvent) (pod : String) (q : ℕ) (e : LedgerEvent)
    → at_sequence q (events_of s.witnessed pod) ≡ some e
    → at_sequence q (events_of (stored_event s evt).witnessed pod) ≡ some e
unfolding stored_event
stored_event-keeps s evt pod q e h = elim (String-cases evt.pod_id pod) [
  | inl same ↦
      rw (← same, events_of-insert, eq_refl)
        (at_sequence-append q (events_of s.witnessed evt.pod_id) (evt ∷ []) e (rw (← same) at h))
  | inr differs ↦ rw (events_of-insert, differs) h
]
