-- ===== src/Federation/Store/History.antt =====
-- A pod's own events, and the restart: AppendSelfEvent and loadFromDB of store.go.
use mlx_mesh.Base.{
  ℕ, suc, ◌+◌, ◌%◌, ◌<◌, ◌≤◌, ◌≡◌, ◌⊎◌, refl, sym, ap, ◌∙◌, inl, inr, Bool, true, none, some, List,
  [], ◌∷◌, ◌++◌, map, arith, leb, ◌==◌, length, length-append, Bool-cases, Option-cases,
}
use mathlib.Core.List.{map-append}
use native.Mathlib.Nat.{mod-eq_of_lt}
use mlx_mesh.Federation.Event.{LedgerEvent}
use mlx_mesh.Federation.Store.{
  Tables, Store, u64_mod, self_row, scan_self, next_after, load_from_db, append_self_event,
}

-- Appends in the order in which they take the lock, each with the outcome of its write.
unfoldable pub append_all : Store → List (Bool × LedgerEvent) → Store
append_all s [] = s
append_all s (o ∷ os) = append_all (append_self_event o.0 s o.1).0 os

-- Events numbered one after the other.
abbrev pub IsNumbered : ℕ → List LedgerEvent → Type 0
IsNumbered n [] = Unit
IsNumbered n (e ∷ es) = (e.sequence ≡ n) × IsNumbered (suc n) es

-- The file, if there is one, has the row of each event, in order.
abbrev pub IsFiled : Store → Type 0
IsFiled s =
    (s.db ≡ none) ⊎ ((t : Tables) × (s.db ≡ some t) × (t.self_events ≡ map self_row s.self_events))

-- The numbers have no gap, and the next one is known.
abbrev pub IsGapless : Store → Type 0
IsGapless s = IsNumbered 1 s.self_events × (s.next_seq ≡ 1 + length s.self_events) × IsFiled s

IsNumbered-last :
    (k : ℕ) (xs : List LedgerEvent) (e : LedgerEvent)
    → IsNumbered k xs
    → e.sequence ≡ k + length xs
    → IsNumbered k (xs ++ (e ∷ []))
IsNumbered-last k [] e n h = (omega (arith, h), tt)
IsNumbered-last k (x ∷ xs) e (here, n) h = (here, IsNumbered-last (suc k) xs e n (omega (arith, h)))

-- What an append does: nothing, or it adds the event with the next number.
append_cases :
    (exec : Bool) (s : Store) (e : LedgerEvent)
    → let s' = (append_self_event exec s e).0 in
      (s' ≡ s)
      ⊎ ((e.sequence ≡ s.next_seq)
          × (s'.self_events ≡ s.self_events ++ (e ∷ []))
          × (s'.next_seq ≡ (s.next_seq + 1) % u64_mod)
          × (((s.db ≡ none) × (s'.db ≡ none))
              ⊎ ((t : Tables) × (s.db ≡ some t)
                  × (s'.db
                      ≡ some (record t { self_events = t.self_events ++ (self_row e ∷ []) })))))
unfolding append_self_event
append_cases exec s e = elim (Bool-cases (e.sequence == s.next_seq)) [
  | inr other ↦ inl (rw (other, append_self_event))
  | inl mine ↦ elim (Option-cases s.db) [
    | inl memory ↦ inr (
      ground arith,
      rw (mine, memory, append_self_event),
      rw (mine, memory, append_self_event),
      inl (memory, rw (mine, memory, append_self_event) memory),
    )
    | inr (t, file) ↦ elim (Bool-cases exec) [
      | inr failed ↦ inl (ground arith)
      | inl done ↦ inr (
        ground arith,
        rw (mine, file, done, append_self_event),
        rw (mine, file, done, append_self_event),
        inr (t, file, rw (mine, file, done, append_self_event)),
      )
    ]
  ]
]

append-IsGapless :
    (exec : Bool) (s : Store) (e : LedgerEvent)
    → 2 + length s.self_events < u64_mod
    → IsGapless s
    → IsGapless (append_self_event exec s e).0
append-IsGapless exec s e room (n, next, filed) = elim (append_cases exec s e) [
  | inl same ↦ rw same (n, next, filed)
  | inr (mine, events, next', file) ↦
      (let small : (s.next_seq + 1) % u64_mod ≡ s.next_seq + 1 =
          mod-eq_of_lt (omega (arith, next, room)) in
        (
          rw events (IsNumbered-last 1 s.self_events e n (mine ∙ next)),
          next' ∙ small ∙ rw events (omega (arith, next, length-append {0} s.self_events (e ∷ []))),
          still (append_self_event exec s e).0 filed file events,
        ))
]
  where
    still :
        (s' : Store)
        → IsFiled s
        → ((s.db ≡ none) × (s'.db ≡ none))
          ⊎ ((t : Tables) × (s.db ≡ some t)
              × (s'.db ≡ some (record t { self_events = t.self_events ++ (self_row e ∷ []) })))
        → s'.self_events ≡ s.self_events ++ (e ∷ [])
        → IsFiled s'
    still s' filed (inl (_, memory)) events = inl memory
    still s' (inl memory) (inr (t, file, _)) events = cc
    still s' (inr (t, file, rows)) (inr (t', file', db)) events =
        let same : t' ≡ t = cc in inr (_, db, rw (events, same, rows, map-append) refl)

append_all_count :
    (s : Store) (os : List (Bool × LedgerEvent))
    → length (append_all s os).self_events ≤ length s.self_events + length os
unfolding append_all
append_all_count s [] = omega arith
append_all_count s (o ∷ os) =
    let rest = append_all_count (append_self_event o.0 s o.1).0 os in
    elim (append_cases o.0 s o.1) [
      | inl same ↦ omega (arith, rest, ap (λ (x : Store). length x.self_events) same)
      | inr (_, events, _, _) ↦ omega (
        arith,
        rest,
        ap (λ (l : List LedgerEvent). length l) events,
        length-append {0} s.self_events (o.1 ∷ []),
      )
    ]

append_all_keeps :
    (s : Store) (os : List (Bool × LedgerEvent))
    → 1 + length s.self_events + length os < u64_mod
    → IsGapless s
    → IsGapless (append_all s os)
unfolding append_all
append_all_keeps s [] room g = g
append_all_keeps s (o ∷ os) room g =
    append_all_keeps (append_self_event o.0 s o.1).0 os
      (elim (append_cases o.0 s o.1) [
        | inl same ↦ rw same (omega (arith, room))
        | inr (_, events, _, _) ↦
            rw events (omega (arith, room, length-append {0} s.self_events (o.1 ∷ [])))
      ])
      (append-IsGapless o.0 s o.1 (omega (arith, room)) g)

-- `scanSelf` of a row has all of the event but the pod's name.
abbrev pub nameless : LedgerEvent → LedgerEvent
nameless e = record e { pod_id = "" }

scan_all : (es : List LedgerEvent) → map scan_self (map self_row es) ≡ map nameless es
unfolding scan_self self_row nameless
scan_all [] = refl
scan_all (e ∷ es) = cc (scan_all es)

next_after-IsNumbered :
    (k : ℕ) (es : List LedgerEvent)
    → k + length es < u64_mod
    → IsNumbered k es
    → next_after k (map self_row es) ≡ k + length es
unfolding next_after self_row
next_after-IsNumbered k [] room n = omega arith
next_after-IsNumbered k (e ∷ es) room (here, n) =
    let small : (k + 1) % u64_mod ≡ suc k = mod-eq_of_lt (omega (arith, room)) ∙ omega arith in
    let reached : leb k k ≡ true = ground arith in
    rw (here, reached, small)
      (next_after-IsNumbered (suc k) es (omega (arith, room)) n ∙ omega arith)

-- From a store whose own events are numbered 1, 2, 3 without a gap, all of them in its file, and
-- whatever is appended by whom and whichever writes fail: the numbers still have no gap, and opening
-- the file again gives the same next number and the same events, except that they have lost the pod's
-- name. The numbers are those of 64 bits, and fewer than all of them have been used.
pub load_from_db-restart :
    (s : Store) (os : List (Bool × LedgerEvent)) (t : Tables)
    → IsGapless s
    → 1 + length s.self_events + length os < u64_mod
    → (append_all s os).db ≡ some t
    → let s' = append_all s os in
      IsNumbered 1 s'.self_events
      × (s'.next_seq ≡ 1 + length s'.self_events)
      × ((load_from_db t t).next_seq ≡ s'.next_seq)
      × ((load_from_db t t).self_events ≡ map nameless s'.self_events)
unfolding load_from_db
load_from_db-restart s os t g room file =
    let s' = append_all s os in
    let (n, next, filed) = append_all_keeps s os room g in
    let rows : t.self_events ≡ map self_row s'.self_events = rows_of filed in
    (
      n,
      next,
      rw rows
            (next_after-IsNumbered 1 s'.self_events (omega (arith, room, append_all_count s os)) n)
          ∙ sym next,
      rw rows (scan_all s'.self_events),
    )
  where
    rows_of : IsFiled (append_all s os) → t.self_events ≡ map self_row (append_all s os).self_events
    rows_of (inl memory) = cc
    rows_of (inr (t', file', rows)) = let same : t' ≡ t = cc in rw (← same) rows
