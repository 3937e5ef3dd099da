-- ===== src/Federation/Poll/Credits.antt =====
-- The announcement of a credit.
use mlx_mesh.Base.{
  ◌≡◌, Bool, true, false, Option, some, String, str_eq, ◌==◌, Option-cases, inl, inr,
}
use mlx_mesh.Federation.Event.{
  LedgerEvent, VerifySignature, signable_bytes, sign, verify_self_consistent,
}
use mlx_mesh.Federation.Store.{Store, append_self_event}
use mlx_mesh.Federation.Poll.{on_credit}

-- What is signed verifies, if the key has a name and a signature by it verifies and is not empty.
pub verify_self_consistent-sign :
    (vs : VerifySignature) (sign_payload : LedgerEvent → Option String) (key : String)
    (e e' : LedgerEvent)
    → str_eq key "" ≡ false
    → ((x : LedgerEvent) (sig : String)
        → sign_payload x ≡ some sig
        → (str_eq sig "" ≡ false) × (vs key x sig ≡ true))
    → sign sign_payload key e ≡ some e'
    → verify_self_consistent vs e' ≡ true
unfolding sign signable_bytes verify_self_consistent
verify_self_consistent-sign vs sign_payload key e e' named good signed =
    elim (Option-cases (sign_payload (record e { public_key = key; signature = "" }))) [
      | inl failed ↦ cc (rw (sign, signable_bytes, failed) at signed)
      | inr (sig, done) ↦
          (let made : record e { public_key = key; signature = sig } ≡ e' =
              some-inj _ _ (rw (sign, signable_bytes, done) at signed) in
            let (full, valid) = good _ sig done in
            rw (← made, verify_self_consistent, signable_bytes, named, full) valid)
    ]
  where
    some-inj : (a b : LedgerEvent) → ◌≡◌ {A = Option LedgerEvent} (some a) (some b) → a ≡ b
    some-inj a b h = cc

-- A credit whose number was taken by another one in between is never announced.
pub on_credit_raced :
    (sign_payload : LedgerEvent → Option String) (key : String) (exec : Bool) (early late : Store)
    (e : LedgerEvent)
    → (early.next_seq == late.next_seq) ≡ false
    → on_credit sign_payload key exec early late e ≡ late
unfolding on_credit append_self_event sign signable_bytes
on_credit_raced sign_payload key exec early late e raced =
    elim (Option-cases
      (sign_payload (record e { sequence = early.next_seq; public_key = key; signature = "" }))) [
        | inl failed ↦ rw (on_credit, sign, signable_bytes, failed)
        | inr (sig, done) ↦ rw (on_credit, sign, signable_bytes, done, append_self_event, raced)
      ]
