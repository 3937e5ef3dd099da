-- ===== src/Directory/Pinning/Trust.antt =====
-- A pinned pod cannot be impersonated.
use mlx_mesh.Base.{
  ◌≡◌, ◌≢◌, ◌⊎◌, refl, sym, ◌∙◌, inl, inr, Bool, false, Option, none, some, List, [], ◌∷◌, String,
  str_eq, arith, eq_refl, Bool-cases, Option-cases, String-cases, none-ne-some, true-ne-false,
}
use mlx_mesh.Base.Dict.{Dict, lookup, insert, lookup-insert}
use mlx_mesh.Directory.Pinning.{
  PodHealthDigest, PinStore, key_mismatch, new_allowlist_pin_store, save_locked, verify, verify_all,
}

save_locked_pins : (written : Bool) (s : PinStore) → (save_locked written s).pins ≡ s.pins
unfolding save_locked
save_locked_pins written s = ground arith

-- Every branch of `verify`.
verify_cases :
    (signer : PodHealthDigest → Option String) (written : Bool) (s : PinStore) (d : PodHealthDigest)
    → let (s', err) = verify signer written s d in
      ((err ≢ none) × (s' ≡ s))
      ⊎ (((key : String) × (signer d ≡ some key)
            × (lookup d.pod_id s.pins ≡ some key)
            × (err ≡ none)
            × (s' ≡ s))
          ⊎ ((key : String) × (signer d ≡ some key)
              × (lookup d.pod_id s.pins ≡ none)
              × (s.strict ≡ false)
              × (err ≡ none)
              × (s' ≡ save_locked written (record s { pins = insert d.pod_id key s.pins }))))
unfolding verify
verify_cases signer written s d = elim (Option-cases (signer d)) [
  | inl unsigned ↦ rw (unsigned, verify) (inl (ground arith, refl))
  | inr (key, signed) ↦ elim (Option-cases (lookup d.pod_id s.pins)) [
    | inr (pinned, known) ↦ elim (String-cases pinned key) [
      | inl same ↦
          (let now_known : lookup d.pod_id s.pins ≡ some key = rw same at known in
            rw (signed, known, same, eq_refl, verify) (inr (inl (key, refl, refl, refl, refl))))
      | inr differs ↦ rw (signed, known, differs, verify) (inl (ground arith, refl))
    ]
    | inl new ↦ elim (Bool-cases s.strict) [
      | inl strict ↦ rw (signed, new, strict, verify) (inl (ground arith, refl))
      | inr open_store ↦
          rw (signed, new, open_store, verify) (inr (inr (key, refl, refl, refl, refl, refl)))
    ]
  ]
]

-- A pin is kept.
verify_keeps :
    (signer : PodHealthDigest → Option String) (written : Bool) (s : PinStore) (d : PodHealthDigest)
    (pod key : String)
    → lookup pod s.pins ≡ some key
    → lookup pod (verify signer written s d).0.pins ≡ some key
verify_keeps signer written s d pod key h = elim (verify_cases signer written s d) [
  | inl (_, same) ↦ rw same h
  | inr (inl (_, _, _, _, same)) ↦ rw same h
  | inr (inr (k, _, new, _, _, learnt)) ↦ elim (String-cases d.pod_id pod) [
    | inl mine ↦ absurd (none-ne-some key (sym new ∙ rw mine h))
    | inr not_mine ↦ rw (learnt, save_locked_pins, lookup-insert, not_mine) h
  ]
]

verify_all_keeps :
    (signer : PodHealthDigest → Option String) (s : PinStore) (ds : List (Bool × PodHealthDigest))
    (pod key : String)
    → lookup pod s.pins ≡ some key
    → lookup pod (verify_all signer s ds).pins ≡ some key
unfolding verify_all
verify_all_keeps signer s [] pod key h = h
verify_all_keeps signer s (d ∷ ds) pod key h =
    verify_all_keeps signer (verify signer d.0 s d.1).0 ds pod key
      (verify_keeps signer d.0 s d.1 pod key h)

-- What an accepted digest has shown.
verify_accepted :
    (signer : PodHealthDigest → Option String) (written : Bool) (s : PinStore) (d : PodHealthDigest)
    (key : String)
    → signer d ≡ some key
    → (verify signer written s d).1 ≡ none
    → lookup d.pod_id (verify signer written s d).0.pins ≡ some key
verify_accepted signer written s d key signed ok = elim (verify_cases signer written s d) [
  | inl (refused, _) ↦ absurd (refused ok)
  | inr (inl (k, signed', known, _, same)) ↦ rw same (known ∙ sym signed' ∙ signed)
  | inr (inr (k, signed', _, _, _, learnt)) ↦
      rw (learnt, save_locked_pins, lookup-insert, eq_refl d.pod_id) (sym signed' ∙ signed)
]

verify_mismatch :
    (signer : PodHealthDigest → Option String) (written : Bool) (s : PinStore) (d : PodHealthDigest)
    (pinned key : String)
    → signer d ≡ some key
    → lookup d.pod_id s.pins ≡ some pinned
    → str_eq pinned key ≡ false
    → verify signer written s d ≡ (s, some key_mismatch)
unfolding verify
verify_mismatch signer written s d pinned key signed known other = rw (signed, known, other, verify)

-- After a pod's digest has been accepted, and whatever digests of whatever pods come after it, a
-- digest of the same pod that another key signs is refused and changes nothing.
pub verify_impersonation :
    (signer : PodHealthDigest → Option String) (written written' : Bool) (s : PinStore)
    (d d' : PodHealthDigest) (ds : List (Bool × PodHealthDigest)) (key key' : String)
    → signer d ≡ some key
    → (verify signer written s d).1 ≡ none
    → d'.pod_id ≡ d.pod_id
    → signer d' ≡ some key'
    → key ≢ key'
    → let s' = verify_all signer (verify signer written s d).0 ds in
      verify signer written' s' d' ≡ (s', some key_mismatch)
verify_impersonation signer written written' s d d' ds key key' signed ok same signed' differs =
    let s' = verify_all signer (verify signer written s d).0 ds in
    let pinned : lookup d'.pod_id s'.pins ≡ some key = rw same (
      verify_all_keeps signer (verify signer written s d).0 ds d.pod_id key
        (verify_accepted signer written s d key signed ok)) in
    let other : str_eq key key' ≡ false = elim (String-cases key key') [
      | inl e ↦ absurd (differs e)
      | inr e ↦ e
    ] in
    verify_mismatch signer written' s' d' key key' signed' pinned other

-- With an allowlist a digest is accepted exactly if its key is the one listed for its pod, and no
-- digest ever changes the list.
pub verify_strict :
    (signer : PodHealthDigest → Option String) (written : Bool) (pins : Dict String)
    (d : PodHealthDigest)
    → let s = new_allowlist_pin_store pins in
      ((verify signer written s d).0 ≡ s)
      × (((verify signer written s d).1 ≢ none)
          ⊎ ((key : String) × (signer d ≡ some key) × (lookup d.pod_id pins ≡ some key)))
unfolding new_allowlist_pin_store
verify_strict signer written pins d =
    elim (verify_cases signer written (new_allowlist_pin_store pins) d) [
      | inl (refused, same) ↦ (same, inl refused)
      | inr (inl (key, signed, known, _, same)) ↦ (same, inr (key, signed, known))
      | inr (inr (_, _, _, open_store, _, _)) ↦ absurd (true-ne-false open_store)
    ]
