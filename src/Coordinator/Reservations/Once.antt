-- ===== src/Coordinator/Reservations/Once.antt =====
-- A reservation is honoured once, before it expires.
use mlx_mesh.Base.{
  ◌+◌, ◌≤◌, ◌≡◌, ℕ, ◌∙◌, inl, inr, false, Option, none, some, String, List, [], ◌∷◌, str_eq, ltb,
  if◌then◌else◌, Option-cases, arith, none-ne-some, eq_refl, if_same,
}
use mlx_mesh.Base.Dict.{lookup, sweep, lookup-insert, lookup-erase, lookup-sweep, lookup-sweep-none}
use mlx_mesh.Coordinator.Reservations.{
  NodeTarget, Reservation, ReservationStore, reservation_ttl, create, resolve,
}

-- A call on the store.
pub data Call : Type 0 where
  creates : Option String → NodeTarget → ℕ → Call
  resolves : String → ℕ → Call

abbrev pub call : Call → ReservationStore → ReservationStore
call (creates id target now) s = (create id target now s).0
call (resolves id now) s = (resolve id now s).0

unfoldable pub run : List Call → ReservationStore → ReservationStore
run [] s = s
run (c ∷ cs) s = run cs (call c s)

-- The call neither creates nor resolves the identifier, and is made by a given time.
abbrev pub IsOther : String → ℕ → Call → Type 0
IsOther id by (creates none target now) = now ≤ by
IsOther id by (creates (some other) target now) = (str_eq other id ≡ false) × (now ≤ by)
IsOther id by (resolves other now) = (str_eq other id ≡ false) × (now ≤ by)

abbrev pub AllOther : String → ℕ → List Call → Type 0
AllOther id by [] = Unit
AllOther id by (c ∷ cs) = IsOther id by c × AllOther id by cs

lookup-resolve_ne :
    (id other : String) (now : ℕ) (s : ReservationStore)
    → str_eq other id ≡ false
    → lookup id (resolve other now s).0 ≡ lookup id s
unfolding resolve
lookup-resolve_ne id other now s ne = elim (Option-cases (lookup other s)) [
  | inl absent ↦ rw (absent, resolve)
  | inr (r, there) ↦ rw (there, resolve) (lookup-erase other id s ∙ rw ne)
]

kept-call :
    (id : String) (r : Reservation) (c : Call) (s : ReservationStore)
    → IsOther id r.expires_at c
    → lookup id s ≡ some r
    → lookup id (call c s) ≡ some r
unfolding create
kept-call id r (creates none target now) s other there = there
kept-call id r (creates (some k) target now) s (ne, early) there =
    lookup-insert k id (record { target = target; expires_at = now + reservation_ttl })
      (sweep (λ k v. ltb v.expires_at now) s)
    ∙ rw ne (lookup-sweep (λ k v. ltb v.expires_at now) id r s there (ground arith))
kept-call id r (resolves k now) s (ne, early) there = lookup-resolve_ne id k now s ne ∙ there

kept-run :
    (id : String) (r : Reservation) (cs : List Call) (s : ReservationStore)
    → AllOther id r.expires_at cs
    → lookup id s ≡ some r
    → lookup id (run cs s) ≡ some r
unfolding run
kept-run id r [] s other there = there
kept-run id r (c ∷ cs) s other there =
    kept-run id r cs (call c s) other.1 (kept-call id r c s other.0 there)

-- The identifier is not created again.
abbrev pub NotCreated : String → List Call → Type 0
NotCreated id [] = Unit
NotCreated id (creates none target now ∷ cs) = NotCreated id cs
NotCreated id (creates (some other) target now ∷ cs) = (str_eq other id ≡ false) × NotCreated id cs
NotCreated id (resolves other now ∷ cs) = NotCreated id cs

absent-resolve :
    (id k : String) (now : ℕ) (s : ReservationStore)
    → lookup id s ≡ none
    → lookup id (resolve k now s).0 ≡ none
unfolding resolve
absent-resolve id k now s gone = elim (Option-cases (lookup k s)) [
  | inl absent ↦ rw (absent, resolve) gone
  | inr (r, there) ↦
      rw (there, resolve) (lookup-erase k id s ∙ rw gone (if_same (str_eq k id) none))
]

gone-resolve :
    (id : String) (now : ℕ) (s : ReservationStore) → lookup id (resolve id now s).0 ≡ none
unfolding resolve
gone-resolve id now s = elim (Option-cases (lookup id s)) [
  | inl absent ↦ rw (absent, resolve) absent
  | inr (r, there) ↦ rw (there, resolve) (lookup-erase id id s ∙ rw (eq_refl id))
]

absent-run :
    (id : String) (cs : List Call) (s : ReservationStore)
    → NotCreated id cs
    → lookup id s ≡ none
    → lookup id (run cs s) ≡ none
unfolding run create
absent-run id [] s other gone = gone
absent-run id (creates none target now ∷ cs) s other gone = absent-run id cs s other gone
absent-run id (creates (some k) target now ∷ cs) s other gone =
    absent-run id cs (call (creates (some k) target now) s) other.1 (
      lookup-insert k id (record { target = target; expires_at = now + reservation_ttl })
        (sweep (λ k v. ltb v.expires_at now) s)
      ∙ rw other.0 (lookup-sweep-none (λ k v. ltb v.expires_at now) id s gone))
absent-run id (resolves k now ∷ cs) s other gone =
    absent-run id cs (resolve k now s).0 other (absent-resolve id k now s gone)

-- A reservation that was made is found under its identifier, with its target, until 30 seconds have
-- passed: whatever other identifiers are reserved and resolved in between.
pub resolve-create :
    (id : String) (target : NodeTarget) (now later : ℕ) (cs : List Call) (s : ReservationStore)
    → AllOther id (now + reservation_ttl) cs
    → later ≤ now + reservation_ttl
    → (resolve id later (run cs (create (some id) target now s).0)).1
      ≡ some (record { target = target; expires_at = now + reservation_ttl })
unfolding create resolve
resolve-create id target now later cs s other intime =
    let r : Reservation = record { target = target; expires_at = now + reservation_ttl } in
    let there : lookup id (run cs (create (some id) target now s).0) ≡ some r =
      kept-run id r cs (create (some id) target now s).0 other
        (lookup-insert id id r (sweep (λ k v. ltb v.expires_at now) s) ∙ rw (eq_refl id)) in
    let fresh : ltb (now + reservation_ttl) later ≡ false = ground arith in
    rw (there, resolve, fresh)

-- Once an identifier was presented, whether or not it was still valid, it is not honoured again,
-- whatever is reserved under other identifiers and resolved since. Nor is one whose time has passed.
pub resolve-once :
    (id : String) (now later : ℕ) (cs : List Call) (s : ReservationStore)
    → NotCreated id cs
    → ((resolve id later (run cs (resolve id now s).0)).1 ≡ none)
      × ((r : Reservation) → (resolve id now s).1 ≡ some r → now ≤ r.expires_at)
unfolding resolve
resolve-once id now later cs s other = (
  (let gone : lookup id (run cs (resolve id now s).0) ≡ none =
        absent-run id cs (resolve id now s).0 other (gone-resolve id now s) in
      rw (gone, resolve)),
  λ r e. elim (Option-cases (lookup id s)) [
    | inl absent ↦ absurd (none-ne-some r (rw (absent, resolve) at e))
    | inr (q, there) ↦ in_time q r (rw (there, resolve) at e)
  ],
)
  where
    in_time :
        (q r : Reservation)
        → (if ltb q.expires_at now then none else some q) ≡ some r
        → now ≤ r.expires_at
    in_time q r e = ground arith
