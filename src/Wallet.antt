-- ===== src/Wallet.antt =====
-- internal/wallet/wallet.go. The nonce of a new challenge is an argument, none if the random source
-- failed; keys, messages and signatures are strings.
pub mod Challenges
pub mod Links
mod Tests
use Prim.Native.String.{◌++◌ as append}
use mlx_mesh.Base.{
  ℕ, ◌+◌, ◌*◌, ◌||◌, not, Bool, true, false, Option, none, some, String, str_eq, ltb, if◌then◌else◌,
  [],
}
use mlx_mesh.Base.Dict.{Dict, lookup, insert, erase, sweep}

-- Five minutes in nanoseconds.
abbrev pub challenge_ttl : ℕ
challenge_ttl = 300 * 1000000000

pub record Challenge : Type 0 where
  pub address : String
  pub nonce : String
  pub expires_at : ℕ

pub record Manager : Type 0 where
  pub challenges : Dict Challenge
  pub device_links : Dict String

-- SHA-256 over a key in hexadecimal, and `protocol.VerifySignature` of a key, a message and a signature.
pub record Crypto : Type 0 where
  pub sha256_hex : String → String
  pub verify_signature : String → String → String → Bool

pub data WalletError : Type 0 where
  nonce_failed unknown_challenge challenge_expired key_address_mismatch bad_signature : WalletError

unfoldable pub new_manager : Manager
new_manager = record { challenges = []; device_links = [] }

unfoldable pub signing_message : Challenge → String
signing_message c = append "oim-account-auth:" (append c.address (append ":" c.nonce))

unfoldable pub device_link_message : String → String → String
device_link_message account device = append "oim-account-link:" (append account (append ":" device))

unfoldable pub issue_challenge : Manager → Option String → String → ℕ → Manager × Option Challenge
issue_challenge m nonce address now = elim nonce [
  | none ↦ (m, none)
  | some n ↦
      let c : Challenge = record {
        address = address;
        nonce = n;
        expires_at = now + challenge_ttl;
      } in
      (
        record m { challenges = insert n c (sweep (λ _ old. ltb old.expires_at now) m.challenges) },
        some c,
      )
]

unfoldable pub account_for_device : Manager → String → Option String
account_for_device m device = lookup device m.device_links

module _ (crypto : Crypto) where
  open crypto use {sha256_hex, verify_signature}

  unfoldable pub address_from_pub_key : String → String
  address_from_pub_key key = append "oim" (sha256_hex key)

  -- The result is none for success.
  unfoldable pub check_challenge :
      Option Challenge → String → String → String → ℕ → Option WalletError
  check_challenge none address key signature now = some unknown_challenge
  check_challenge (some c) address key signature now =
      if not (str_eq c.address address)
      then some unknown_challenge
      else if ltb c.expires_at now
      then some challenge_expired
      else if verify_signature key (signing_message c) signature
      then none
      else some bad_signature

  unfoldable pub verify_challenge :
      Manager → String → String → String → String → ℕ → Manager × Option WalletError
  verify_challenge m address nonce key signature now =
      if str_eq (address_from_pub_key key) address
      then (
        record m { challenges = erase nonce m.challenges },
        check_challenge (lookup nonce m.challenges) address key signature now,
      )
      else (m, some key_address_mismatch)

  unfoldable pub link_device :
      Manager → String → String → String → String → Manager × Option WalletError
  link_device m account device key signature =
      if str_eq (address_from_pub_key key) account
      then (if verify_signature key (device_link_message account device) signature
          then (record m { device_links = insert device account m.device_links }, none)
          else (m, some bad_signature))
      else (m, some key_address_mismatch)

  -- `m.deviceLinks[device] == account`, where a missing key gives the empty string.
  unfoldable pub is_linked_to : Manager → String → String → Bool
  is_linked_to m device account =
      str_eq (elim (lookup device m.device_links) [ none ↦ "" | some a ↦ a ]) account

  unfoldable pub unlink_device :
      Manager → String → String → String → String → Manager × Option WalletError
  unlink_device m account device key signature =
      if str_eq (address_from_pub_key key) account
      then (if verify_signature key (device_link_message account device) signature
          then (if is_linked_to m device account
              then (record m { device_links = erase device m.device_links }, none)
              else (m, none))
          else (m, some bad_signature))
      else (m, some key_address_mismatch)
