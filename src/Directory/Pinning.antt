-- ===== src/Directory/Pinning.antt =====
-- internal/directory/pinning.go. The file of learnt pins is a dictionary that a write may fail to
-- replace; the signature of a digest is checked by an argument.
pub mod Trust
use mlx_mesh.Base.{
  Bool, true, false, Option, none, some, List, [], ◌∷◌, ◌||◌, not, String, str_eq, if◌then◌else◌,
}
use mlx_mesh.Base.Dict.{Dict, lookup, insert}

-- internal/protocol/messages.go, `PodHealthDigest`, without the figures of its health.
pub record PodHealthDigest : Type 0 where
  pub pod_id : String
  pub coordinator_endpoint : String
  pub servable_model_ids : List String
  pub public_key : String
  pub signature : String

-- `persist` says whether there is a path to persist to, `saved` what the file holds.
pub record PinStore : Type 0 where
  pub pins : Dict String
  pub strict : Bool
  pub persist : Bool
  pub saved : Option (Dict String)

pub data PinError : Type 0 where
  bad_digest_signature key_mismatch not_on_allowlist : PinError

-- `NewPinStore`, on a file that is missing or can be read.
unfoldable pub new_pin_store : Bool → Option (Dict String) → PinStore
new_pin_store persist file = record {
  pins = if persist then elim file [ none ↦ [] | some pins ↦ pins ] else [];
  strict = false;
  persist = persist;
  saved = file;
}

unfoldable pub new_allowlist_pin_store : Dict String → PinStore
new_allowlist_pin_store pins = record { pins = pins; strict = true; persist = false; saved = none }

unfoldable pub save_locked : Bool → PinStore → PinStore
save_locked written s =
    if not s.persist || s.strict then s else if written then record s { saved = some s.pins } else s

-- `Verify`: `signer` is `VerifyPodHealthDigestSignature`, the key in hexadecimal, none for an invalid
-- signature; the result is none for success.
unfoldable pub verify :
    (PodHealthDigest → Option String)
    → Bool
    → PinStore
    → PodHealthDigest
    → PinStore × Option PinError
verify signer written s digest = elim (signer digest) [
  | none ↦ (s, some bad_digest_signature)
  | some key ↦ elim (lookup digest.pod_id s.pins) [
    | some pinned ↦ if str_eq pinned key then (s, none) else (s, some key_mismatch)
    | none ↦
        if s.strict
        then (s, some not_on_allowlist)
        else (save_locked written (record s { pins = insert digest.pod_id key s.pins }), none)
  ]
]

-- Digests in the order in which they come, each with the outcome of its write.
unfoldable pub verify_all :
    (PodHealthDigest → Option String) → PinStore → List (Bool × PodHealthDigest) → PinStore
verify_all signer s [] = s
verify_all signer s (d ∷ ds) = verify_all signer (verify signer d.0 s d.1).0 ds
