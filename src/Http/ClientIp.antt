-- ===== src/Http/ClientIp.antt =====
-- internal/httpmw/clientip.go. Texts are their bytes; `net.SplitHostPort` and `net.ParseIP` are
-- arguments, and a trusted network is the test `Contains`.
pub mod Spoofing
mod Tests
use mlx_mesh.Base.{
  ℕ, Bool, true, false, Option, none, some, List, [], ◌∷◌, String, str_eq, ◌==◌, if◌then◌else◌,
  length, any,
}
use mathlib.Core.List.{reverse}
use mlx_mesh.Base.Text.{trim_space}
use mlx_mesh.Http.RateLimit.{RateLimiter, allow}

-- An address in its shortest form.
pub data Ip : Type 0 where
  v4 : ℕ → ℕ → ℕ → ℕ → Ip
  v6 : List ℕ → Ip

pub record Net : Type 0 where
  pub split_host : List ℕ → Option (List ℕ)
  pub parse_ip : List ℕ → Option Ip

abbrev pub Networks : Type 0
Networks = List (Ip → Bool)

unfoldable pub ip_in_any : Ip → Networks → Bool
ip_in_any ip nets = any (λ n. n ip) nets

-- `strings.Split(s, ",")`.
extend : ℕ → List (List ℕ) → List (List ℕ)
extend c [] = (c ∷ []) ∷ []
extend c (p ∷ ps) = (c ∷ p) ∷ ps

unfoldable pub split_commas : List ℕ → List (List ℕ)
unfolding extend
split_commas [] = [] ∷ []
split_commas (c ∷ cs) = let rest = split_commas cs in if c == 44 then [] ∷ rest else extend c rest

-- The loop from the last part to the first.
unfoldable pub first_untrusted : Net → Networks → List (List ℕ) → Option (List ℕ)
first_untrusted net nets [] = none
first_untrusted net nets (p ∷ ps) =
    let rest = first_untrusted net nets ps in
    elim (net.parse_ip (trim_space p)) [
      | none ↦ rest
      | some ip ↦ if ip_in_any ip nets then rest else some (trim_space p)
    ]

unfoldable pub host_of : Net → List ℕ → List ℕ
host_of net remote_addr = elim (net.split_host remote_addr) [
  | none ↦ remote_addr
  | some host ↦ host
]

unfoldable pub peer_is_trusted : Net → Networks → List ℕ → Bool
peer_is_trusted net nets host = elim (net.parse_ip host) [
  | none ↦ false
  | some peer ↦ ip_in_any peer nets
]

-- The address of the peer, and the header X-Forwarded-For.
unfoldable pub client_ip : Net → Networks → List ℕ → List ℕ → List ℕ
client_ip net nets remote_addr forwarded =
    let host = host_of net remote_addr in
    if length nets == 0
    then host
    else if peer_is_trusted net nets host
    then (elim (first_untrusted net nets (reverse (split_commas forwarded))) [
      | none ↦ host
      | some ip ↦ ip
    ])
    else host

-- `RateLimitByIP`: whether the request is let through. `key_of` is the text of the bytes.
unfoldable pub rate_limit_by_ip :
    (List ℕ → String)
    → Net
    → Networks
    → ℕ
    → RateLimiter
    → String
    → List ℕ
    → List ℕ
    → RateLimiter × Bool
rate_limit_by_ip key_of net nets now l method remote_addr forwarded =
    if str_eq method "OPTIONS"
    then (l, true)
    else allow (key_of (client_ip net nets remote_addr forwarded)) now l
