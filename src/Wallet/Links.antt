-- ===== src/Wallet/Links.antt =====
-- Who changes which account a device earns for.
use mlx_mesh.Base.{
  ◌≡◌, ◌≢◌, ◌⊎◌, sym, inl, inr, true, false, none, some, String, str_eq, arith, eq_iff, eq_refl,
  if◌then◌else◌, String-cases,
}
use mlx_mesh.Base.Dict.{insert, erase, lookup-insert, lookup-erase}
use mlx_mesh.Wallet.{
  Manager, Crypto, device_link_message, account_for_device, address_from_pub_key, is_linked_to,
  link_device, unlink_device,
}

-- The signature is one over the link of device and account, by a key of the account.
abbrev pub IsAuthorized : Crypto → String → String → String → String → Type 0
IsAuthorized crypto account device key signature =
    (address_from_pub_key crypto key ≡ account)
    × (crypto.verify_signature key (device_link_message account device) signature ≡ true)

module _ (crypto : Crypto) (m : Manager) (account device key signature : String) where
  link_device_cases :
      let (m', err) = link_device crypto m account device key signature in
      (IsAuthorized crypto account device key signature
        × (err ≡ none)
        × (m' ≡ record m { device_links = insert device account m.device_links }))
      ⊎ ((err ≢ none) × (m' ≡ m))
  unfolding link_device
  link_device_cases = ground (arith, eq_iff (address_from_pub_key crypto key) account)

  -- A link goes through only with a signature by a key of the account, and then the device earns for
  -- that account; otherwise nothing changes. No other device is touched.
  pub link_device_effect :
      (other : String)
      → let (m', err) = link_device crypto m account device key signature in
        (IsAuthorized crypto account device key signature
          × (err ≡ none)
          × (account_for_device m' other
              ≡ (if str_eq device other then some account else account_for_device m other)))
        ⊎ ((err ≢ none) × (m' ≡ m))
  unfolding account_for_device
  link_device_effect other = elim link_device_cases [
    | inl (authorized, ok, changed) ↦ inl (authorized, ok, rw (changed, lookup-insert))
    | inr refused ↦ inr refused
  ]

  unlink_device_cases :
      let (m', err) = unlink_device crypto m account device key signature in
      (IsAuthorized crypto account device key signature
        × (err ≡ none)
        × ((is_linked_to crypto m device account ≡ true)
              × (m' ≡ record m { device_links = erase device m.device_links })
            ⊎ ((is_linked_to crypto m device account ≡ false) × (m' ≡ m))))
      ⊎ ((err ≢ none) × (m' ≡ m))
  unfolding unlink_device
  unlink_device_cases = ground (arith, eq_iff (address_from_pub_key crypto key) account)

  -- A revocation goes through only with a signature by a key of the account, and it removes no link
  -- of the device to another account, and none of another device.
  pub unlink_device_effect :
      (other : String)
      → let (m', err) = unlink_device crypto m account device key signature in
        (account_for_device m' other ≡ account_for_device m other)
        ⊎ (IsAuthorized crypto account device key signature
            × (err ≡ none)
            × (other ≡ device)
            × (is_linked_to crypto m device account ≡ true)
            × (account_for_device m' other ≡ none))
  unfolding account_for_device
  unlink_device_effect other = elim unlink_device_cases [
    | inr (_, same) ↦ inl (rw same)
    | inl (authorized, ok, inr (_, same)) ↦ inl (rw same)
    | inl (authorized, ok, inl (linked, erased)) ↦ elim (String-cases device other) [
      | inl mine ↦
          inr (authorized, ok, sym mine, linked, rw (erased, lookup-erase, ← mine, eq_refl))
      | inr not_mine ↦ inl (rw (erased, lookup-erase, not_mine))
    ]
  ]

  -- The messages of a link and of its revocation are one: whoever has seen the signature with which a
  -- device was linked can revoke the link with it, without the account's key.
  pub unlink_device_replay :
      (link_device crypto m account device key signature).1 ≡ none
      → let m' = (link_device crypto m account device key signature).0 in
        (account_for_device m' device ≡ some account)
        × ((unlink_device crypto m' account device key signature).1 ≡ none)
        × (account_for_device (unlink_device crypto m' account device key signature).0 device
            ≡ none)
  unfolding account_for_device unlink_device is_linked_to
  unlink_device_replay h = elim link_device_cases [
    | inr (refused, _) ↦ absurd (refused h)
    | inl ((derives, signed), ok, changed) ↦
        (let derived : str_eq (address_from_pub_key crypto key) account ≡ true =
            (eq_iff (address_from_pub_key crypto key) account).1 derives in
          rw changed (
            rw (lookup-insert, eq_refl device),
            rw (derived, signed, lookup-insert, eq_refl device, eq_refl account),
            rw (
              derived,
              signed,
              lookup-insert,
              eq_refl device,
              eq_refl account,
              lookup-erase,
              eq_refl device,
            ),
          ))
  ]
