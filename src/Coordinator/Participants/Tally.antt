-- ===== src/Coordinator/Participants/Tally.antt =====
-- A device's tally of pointers counts what it served, however often it announces itself again.
use mlx_mesh.Base.{
  ℕ, suc, ◌+◌, ◌≡◌, ◌∙◌, ap, inl, inr, false, Option, none, some, List, [], ◌∷◌, String, str_eq,
  if◌then◌else◌, Bool-cases, Option-cases, String-cases, arith, none-ne-some, eq_refl,
}
use mathlib.Core.Option
use mlx_mesh.Base.Dict.{lookup, lookup-insert}
use mlx_mesh.Coordinator.Participants.{
  CoordinationParticipant, CoordEntry, CoordinationRegistry, announce, record_pointer_served,
}

abbrev pub served_in : Option CoordEntry → Option ℕ
served_in none = none
served_in (some e) = some e.participant.pointers_served

-- The tally of a device that is known.
abbrev pub tally : CoordinationRegistry → String → Option ℕ
tally r id = served_in (lookup id r)

-- Announcements by any device, and pointers served by any device.
pub data Call : Type 0 where
  announces : CoordinationParticipant → ℕ → Call
  serves : String → Call

abbrev pub call : Call → CoordinationRegistry → CoordinationRegistry
call (announces p now) r = announce p now r
call (serves id) r = (record_pointer_served id r).0

unfoldable pub run : List Call → CoordinationRegistry → CoordinationRegistry
run [] r = r
run (c ∷ cs) r = run cs (call c r)

-- How many pointers the calls serve for a device.
unfoldable pub pointers : String → List Call → ℕ
pointers id [] = 0
pointers id (announces p now ∷ cs) = pointers id cs
pointers id (serves other ∷ cs) =
    let rest = pointers id cs in if str_eq other id then suc rest else rest

tally-announce :
    (id : String) (p : CoordinationParticipant) (now n : ℕ) (r : CoordinationRegistry)
    → tally r id ≡ some n
    → tally (announce p now r) id ≡ some n
unfolding announce
tally-announce id p now n r h = elim (Bool-cases (str_eq p.device_id "")) [
  | inl nameless ↦ rw (nameless, announce) h
  | inr named ↦ elim (String-cases p.device_id id) [
    | inl same ↦ elim (Option-cases (lookup p.device_id r)) [
      | inl absent ↦ absurd (none-ne-some n (rw (← same, absent) at h))
      | inr (e, there) ↦
          (let known : lookup id r ≡ some e = rw same at there in
            rw (named, announce, lookup-insert, same, eq_refl, known) (rw known at h))
    ]
    | inr differs ↦ rw (named, announce, lookup-insert, differs) h
  ]
]

tally-serves :
    (id other : String) (n : ℕ) (r : CoordinationRegistry)
    → str_eq id "" ≡ false
    → tally r id ≡ some n
    → tally (record_pointer_served other r).0 id ≡ some (if str_eq other id then suc n else n)
unfolding record_pointer_served
tally-serves id other n r named h = elim (String-cases other id) [
  | inl same ↦ elim (Option-cases (lookup other r)) [
    | inl absent ↦ absurd (none-ne-some n (rw (← same, absent) at h))
    | inr (e, there) ↦
        (let known : lookup id r ≡ some e = rw same at there in
          rw (same, named, known, record_pointer_served, lookup-insert, same, eq_refl)
            (ap (λ o. Option.map suc o) (rw known at h)))
  ]
  | inr differs ↦ elim (Bool-cases (str_eq other "")) [
    | inl nameless ↦ rw (nameless, differs, record_pointer_served) h
    | inr other_named ↦ elim (Option-cases (lookup other r)) [
      | inl absent ↦ rw (other_named, absent, differs, record_pointer_served) h
      | inr (e, there) ↦
          rw (other_named, there, differs, record_pointer_served, lookup-insert, differs) h
    ]
  ]
]

-- As long as a device stays in the registry, whatever it and the others announce, its tally grows by
-- exactly one for each pointer that was served for it: an announcement neither resets nor raises it.
pub tally-run :
    (id : String) (n : ℕ) (cs : List Call) (r : CoordinationRegistry)
    → str_eq id "" ≡ false
    → tally r id ≡ some n
    → tally (run cs r) id ≡ some (n + pointers id cs)
unfolding run pointers
tally-run id n [] r named h = h ∙ ap some (omega arith)
tally-run id n (announces p now ∷ cs) r named h =
    tally-run id n cs (announce p now r) named (tally-announce id p now n r h)
tally-run id n (serves other ∷ cs) r named h = elim (Bool-cases (str_eq other id)) [
  | inl same ↦
      tally-run id (suc n) cs (record_pointer_served other r).0 named
        (tally-serves id other n r named h ∙ rw same)
      ∙ ap some (rw same (omega arith))
  | inr differs ↦
      tally-run id n cs (record_pointer_served other r).0 named
        (tally-serves id other n r named h ∙ rw differs)
      ∙ ap some (rw differs)
]
