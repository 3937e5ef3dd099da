-- ===== src/Wallet/Tests.antt =====
-- The theorems about the wallet at a concrete account, whose address is "oimk".
use mlx_mesh.Base.{◌≡◌, ◌≢◌, ◌↔◌, refl, true, none, some, List, [], ◌∷◌}
use mlx_mesh.Wallet.{
  Manager, Crypto, new_manager, issue_challenge, verify_challenge, link_device,
  address_from_pub_key,
}
use mlx_mesh.Wallet.Challenges.{
  IsAuthentic, verify_challenge-IsAuthentic, verify_challenge_once, Op, issues, verifies, links,
  run,
}

abbrev trusting : Crypto
trusting = record { sha256_hex = λ key. key; verify_signature = λ _ _ _. true }

abbrev challenged : Manager
challenged = (issue_challenge new_manager (some "n") "oimk" 10).0

address_k : address_from_pub_key trusting "k" ≡ "oimk"
unfolding address_from_pub_key
address_k = refl

verify_challenge-IsAuthentic_example :
    ((verify_challenge trusting challenged "oimk" "n" "k" "s" 20).1 ≡ none)
    ↔ IsAuthentic trusting challenged "oimk" "n" "k" "s" 20
verify_challenge-IsAuthentic_example =
    verify_challenge-IsAuthentic trusting challenged "oimk" "n" "k" "s" 20

-- Another challenge, its use, and a link.
abbrev since : List Op
since =
    issues (some "o") "oimk" 21 ∷ verifies "oimk" "o" "k" "s" 22 ∷ links "oimk" "mac" "k" "s" ∷ []

verify_challenge_once_example :
    let m' = run trusting (verify_challenge trusting challenged "oimk" "n" "k" "s" 20).0 since in
    (verify_challenge trusting m' "oimk" "n" "k" "s" 23).1 ≢ none
verify_challenge_once_example =
    verify_challenge_once trusting challenged "oimk" "oimk" "n" "k" "k" "s" "s" 20 23 since
      address_k (refl, (tt, (tt, tt)))

abbrev linked : Manager
linked = (link_device trusting new_manager "oimk" "mac" "k" "s").0
