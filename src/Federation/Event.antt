-- ===== src/Federation/Event.antt =====
-- internal/federation/event.go. The bytes that are signed stand for the event with its signature
-- cleared; JSON, hexadecimal and Ed25519 are in the arguments `sign_payload` and `verify_signature`.
-- Amounts are signed millionths of a credit.
use mlx_mesh.Base.{ℕ, Bool, false, Option, none, some, String, str_eq, ◌||◌, if◌then◌else◌}
use mlx_mesh.Base.Int.{ℤ}

pub record LedgerEvent : Type 0 where
  pub pod_id : String
  pub sequence : ℕ
  pub event_type : String
  pub user_id : String
  pub amount : ℤ
  pub issued_at : String
  pub public_key : String
  pub signature : String

unfoldable pub signable_bytes : LedgerEvent → LedgerEvent
signable_bytes e = record e { signature = "" }

-- None where signing fails.
unfoldable pub sign : (LedgerEvent → Option String) → String → LedgerEvent → Option LedgerEvent
sign sign_payload public_key e =
    let clean = record e { public_key = public_key; signature = "" } in
    elim (sign_payload (signable_bytes clean)) [
      | none ↦ none
      | some sig ↦ some (record clean { signature = sig })
    ]

-- The key, the event without its signature, the signature.
abbrev pub VerifySignature : Type 0
VerifySignature = String → LedgerEvent → String → Bool

unfoldable pub verify_self_consistent : VerifySignature → LedgerEvent → Bool
verify_self_consistent verify_signature e =
    if str_eq e.public_key "" || str_eq e.signature ""
    then false
    else verify_signature e.public_key (signable_bytes e) e.signature
