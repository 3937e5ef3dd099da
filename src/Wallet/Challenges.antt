-- ===== src/Wallet/Challenges.antt =====
-- A challenge authenticates once.
use mlx_mesh.Base.{
  ℕ, ◌+◌, ◌≤◌, ◌≡◌, ◌≢◌, ◌↔◌, refl, inl, inr, true, false, Option, none, some, List, [], ◌∷◌, All,
  ltb, if_same, String, str_eq, arith, eq_iff, eq_refl, Bool-cases,
}
use mlx_mesh.Base.Dict.{lookup, lookup-insert, lookup-erase, lookup-sweep-none}
use mlx_mesh.Wallet.{
  Challenge, Manager, Crypto, challenge_ttl, signing_message, issue_challenge, address_from_pub_key,
  check_challenge, verify_challenge, link_device, unlink_device,
}

-- What success takes: the key derives to the address, and there is a challenge under the nonce, for
-- this address, not expired, whose message the signature signs.
pub record IsAuthentic (crypto : Crypto) (m : Manager) (address nonce key signature : String)
    (now : ℕ) : Type 0 where
  pub derives : address_from_pub_key crypto key ≡ address
  pub challenge : Challenge
  pub issued : lookup nonce m.challenges ≡ some challenge
  pub for_address : challenge.address ≡ address
  pub in_time : now ≤ challenge.expires_at
  pub signed : crypto.verify_signature key (signing_message challenge) signature ≡ true

module _ (crypto : Crypto) (m : Manager) (address nonce key signature : String) (now : ℕ) where
  check_challenge-none :
      (found : Option Challenge)
      → check_challenge crypto found address key signature now ≡ none
      → (c : Challenge) × (found ≡ some c)
        × (c.address ≡ address)
        × (now ≤ c.expires_at)
        × (crypto.verify_signature key (signing_message c) signature ≡ true)
  unfolding check_challenge
  check_challenge-none none h = ground arith
  check_challenge-none (some c) h = let f = facts c h in (c, refl, f.0, f.1, f.2)
    where
      facts :
          (c : Challenge)
          → check_challenge crypto (some c) address key signature now ≡ none
          → (c.address ≡ address)
            × (now ≤ c.expires_at)
            × (crypto.verify_signature key (signing_message c) signature ≡ true)
      facts c h = ground (arith, eq_iff c.address address)

  check_challenge-ok :
      (c : Challenge)
      → c.address ≡ address
      → now ≤ c.expires_at
      → crypto.verify_signature key (signing_message c) signature ≡ true
      → check_challenge crypto (some c) address key signature now ≡ none
  unfolding check_challenge
  check_challenge-ok c same time signed = ground (arith, eq_iff c.address address)

  -- A client is authenticated exactly if all of the conditions hold: none is missing and none is too
  -- many.
  pub verify_challenge-IsAuthentic :
      ((verify_challenge crypto m address nonce key signature now).1 ≡ none)
      ↔ IsAuthentic crypto m address nonce key signature now
  unfolding verify_challenge
  verify_challenge-IsAuthentic = (to, from)
    where
      to :
          (verify_challenge crypto m address nonce key signature now).1 ≡ none
          → IsAuthentic crypto m address nonce key signature now
      to h = elim (Bool-cases (str_eq (address_from_pub_key crypto key) address)) [
        | inl derived ↦
            (let (c, found, same, time, signed) =
                check_challenge-none (lookup nonce m.challenges)
                  (rw (derived, verify_challenge) at h) in
              record {
                derives = (eq_iff (address_from_pub_key crypto key) address).0 derived;
                challenge = c;
                issued = found;
                for_address = same;
                in_time = time;
                signed = signed;
              })
        | inr strange ↦ ground arith
      ]

      from :
          IsAuthentic crypto m address nonce key signature now
          → (verify_challenge crypto m address nonce key signature now).1 ≡ none
      from a =
          let derived : str_eq (address_from_pub_key crypto key) address ≡ true =
            (eq_iff (address_from_pub_key crypto key) address).1 a.derives in
          rw (derived, a.issued) (check_challenge-ok a.challenge a.for_address a.in_time a.signed)

-- A call on the manager.
pub data Op : Type 0 where
  issues : Option String → String → ℕ → Op
  verifies : String → String → String → String → ℕ → Op
  links unlinks : String → String → String → String → Op

unfoldable pub step : Crypto → Manager → Op → Manager
step crypto m (issues nonce address now) = (issue_challenge m nonce address now).0
step crypto m (verifies address nonce key signature now) =
    (verify_challenge crypto m address nonce key signature now).0
step crypto m (links account device key signature) =
    (link_device crypto m account device key signature).0
step crypto m (unlinks account device key signature) =
    (unlink_device crypto m account device key signature).0

unfoldable pub run : Crypto → Manager → List Op → Manager
run crypto m [] = m
run crypto m (o ∷ os) = run crypto (step crypto m o) os

-- The call does not issue the nonce.
abbrev pub IsOther : String → Op → Type 0
IsOther nonce (issues none address now) = Unit
IsOther nonce (issues (some n) address now) = str_eq n nonce ≡ false
IsOther nonce (verifies address n key signature now) = Unit
IsOther nonce (links account device key signature) = Unit
IsOther nonce (unlinks account device key signature) = Unit

step-none :
    (crypto : Crypto) (m : Manager) (nonce : String) (o : Op)
    → IsOther nonce o
    → lookup nonce m.challenges ≡ none
    → lookup nonce (step crypto m o).challenges ≡ none
unfolding step issue_challenge verify_challenge link_device unlink_device
step-none crypto m nonce (issues none address now) other h = h
step-none crypto m nonce (issues (some n) address now) other h =
    rw (lookup-insert, other)
      (lookup-sweep-none (λ _ (old : Challenge). ltb old.expires_at now) nonce m.challenges h)
step-none crypto m nonce (verifies address n key signature now) other h =
    elim (Bool-cases (str_eq (address_from_pub_key crypto key) address)) [
      | inl derived ↦ rw (step, derived, verify_challenge, lookup-erase, h) (if_same _ _)
      | inr strange ↦ rw (step, strange, verify_challenge) h
    ]
step-none crypto m nonce (links account device key signature) other h = ground (arith, h)
step-none crypto m nonce (unlinks account device key signature) other h = ground (arith, h)

run-none :
    (crypto : Crypto) (m : Manager) (nonce : String) (os : List Op)
    → All (IsOther nonce) os
    → lookup nonce m.challenges ≡ none
    → lookup nonce (run crypto m os).challenges ≡ none
unfolding run
run-none crypto m nonce [] others h = h
run-none crypto m nonce (o ∷ os) (other, others) h =
    run-none crypto (step crypto m o) nonce os others (step-none crypto m nonce o other h)

-- Whoever has once been checked against a nonce with a key of the address, successfully or not, has
-- used the nonce up: whatever challenges are issued under other nonces, and whatever is verified,
-- linked and unlinked since, nobody is authenticated with it again, at any address, with any key and
-- signature, at any time.
pub verify_challenge_once :
    (crypto : Crypto) (m : Manager) (address address' nonce key key' signature signature' : String)
    (now now' : ℕ) (os : List Op)
    → address_from_pub_key crypto key ≡ address
    → All (IsOther nonce) os
    → let m' = run crypto (verify_challenge crypto m address nonce key signature now).0 os in
      (verify_challenge crypto m' address' nonce key' signature' now').1 ≢ none
unfolding verify_challenge check_challenge
verify_challenge_once crypto m address address' nonce key key' signature signature' now now' os h
      others =
    let derived : str_eq (address_from_pub_key crypto key) address ≡ true =
      (eq_iff (address_from_pub_key crypto key) address).1 h in
    let used : lookup nonce (verify_challenge crypto m address nonce key signature now).0.challenges
        ≡ none =
      rw (derived, verify_challenge, lookup-erase nonce nonce m.challenges, eq_refl nonce) in
    rw
      (run-none crypto (verify_challenge crypto m address nonce key signature now).0 nonce os others
        used)
      (ground arith)

-- A challenge that was just issued is found under its nonce, for its address, until five minutes
-- later.
pub issue_challenge-lookup :
    (m : Manager) (address nonce : String) (now : ℕ)
    → let m' = (issue_challenge m (some nonce) address now).0 in
      lookup nonce m'.challenges
      ≡ some (record { address = address; nonce = nonce; expires_at = now + challenge_ttl })
unfolding issue_challenge
issue_challenge-lookup m address nonce now = rw (lookup-insert, eq_refl nonce)
