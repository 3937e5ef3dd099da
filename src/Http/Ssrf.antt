-- ===== src/Http/Ssrf.antt =====
-- internal/httpmw/ssrf.go. `url.Parse` of the trimmed text, `net.ParseIP`, `net.LookupIP` and the
-- connection are arguments. The tests on an address are those of net.IP.
pub mod Guard
mod Tests
use mlx_mesh.Base.{
  ℕ, zero, suc, ◌+◌, ◌%◌, Bool, true, false, Option, none, some, List, [], ◌∷◌, String, str_eq, ltb,
  leb, ◌==◌, ◌&&◌, ◌||◌, if◌then◌else◌, length,
}
use mlx_mesh.Http.ClientIp.{Ip, v4, v6}

pub record Url : Type 0 where
  pub scheme : String
  pub hostname : String

pub record Resolver : Type 0 where
  pub parse_url : String → Option Url
  pub parse_ip : String → Option Ip
  pub lookup_ip : String → Option (List Ip)

pub data FetchError : Type 0 where
  bad_url bad_scheme missing_host unresolved no_addresses : FetchError
  loopback_address link_local_address unspecified_address : FetchError
  bad_dial_address redirect_blocked dial_blocked fetch_failed : FetchError

-- All bytes but the last are 0; the last is `n`.
zeros_then : ℕ → List ℕ → Bool
zeros_then n [] = false
zeros_then n (b ∷ []) = b == n
zeros_then n (b ∷ c ∷ bs) = (b == 0) && zeros_then n (c ∷ bs)

unfoldable pub is_loopback : Ip → Bool
unfolding zeros_then
is_loopback (v4 a b c d) = a == 127
is_loopback (v6 bs) = (length bs == 16) && zeros_then 1 bs

-- 169.254.0.0/16 and fe80::/10.
unfoldable pub is_link_local_unicast : Ip → Bool
is_link_local_unicast (v4 a b c d) = (a == 169) && (b == 254)
is_link_local_unicast (v6 []) = false
is_link_local_unicast (v6 (a ∷ [])) = false
is_link_local_unicast (v6 (a ∷ b ∷ bs)) =
    (length (a ∷ b ∷ bs) == 16) && ((a == 254) && (leb 128 b && ltb b 192))

-- 224.0.0.0/24 and ff02::/16, whatever the flags of the latter.
unfoldable pub is_link_local_multicast : Ip → Bool
is_link_local_multicast (v4 a b c d) = (a == 224) && ((b == 0) && (c == 0))
is_link_local_multicast (v6 []) = false
is_link_local_multicast (v6 (a ∷ [])) = false
is_link_local_multicast (v6 (a ∷ b ∷ bs)) =
    (length (a ∷ b ∷ bs) == 16) && ((a == 255) && (b % 16 == 2))

unfoldable pub is_unspecified : Ip → Bool
unfolding zeros_then
is_unspecified (v4 a b c d) = (a == 0) && ((b == 0) && ((c == 0) && (d == 0)))
is_unspecified (v6 bs) = (length bs == 16) && zeros_then 0 bs

-- None for an address that is allowed.
unfoldable pub check_ip : Ip → Option FetchError
check_ip ip =
    if is_loopback ip
    then some loopback_address
    else if is_link_local_unicast ip || is_link_local_multicast ip
    then some link_local_address
    else if is_unspecified ip
    then some unspecified_address
    else none

unfoldable pub check_all : List Ip → Option FetchError
check_all [] = none
check_all (ip ∷ ips) =
    let rest = check_all ips in elim (check_ip ip) [ none ↦ rest | some e ↦ some e ]

unfoldable pub check_looked_up : Option (List Ip) → Option FetchError
check_looked_up none = some unresolved
check_looked_up (some []) = some no_addresses
check_looked_up (some (ip ∷ ips)) = check_all (ip ∷ ips)

unfoldable pub validate_fetch_url : Resolver → String → Option FetchError
validate_fetch_url net raw = elim (net.parse_url raw) [
  | none ↦ some bad_url
  | some u ↦
      if str_eq u.scheme "http" || str_eq u.scheme "https"
      then (if str_eq u.hostname "" then some missing_host else (elim (net.parse_ip u.hostname) [
        | some ip ↦ check_ip ip
        | none ↦ check_looked_up (net.lookup_ip u.hostname)
      ]))
      else some bad_scheme
]

-- The `Control` hook, on the host of the address that is dialled.
unfoldable pub control : Resolver → String → Option FetchError
control net host = elim (net.parse_ip host) [ none ↦ some bad_dial_address | some ip ↦ check_ip ip ]

-- What one hop of a fetch meets: the host that the transport dials for the URL, and the answer, which is
-- a redirect, a body or an error.
pub data Answer : Type 0 where
  redirect : String → Answer
  body : String → Answer
  broken : Answer

pub record Web : Type 0 where
  pub dial : ℕ → String → String
  pub answer : ℕ → String → Answer

-- The addresses that were connected to, and the outcome. `SafeFetchClient` checks each redirect and each
-- dial; it puts no bound on the number of redirects, so the loop takes fuel.
unfoldable pub fetch : Resolver → Web → ℕ → ℕ → String → List String × (Option String)
fetch net web zero hop url = ([], none)
fetch net web (suc fuel) hop url =
    let host = web.dial hop url in
    elim (control net host) [
      | some e ↦ ([], none)
      | none ↦ elim (web.answer hop url) [
        | broken ↦ (host ∷ [], none)
        | body text ↦ (host ∷ [], some text)
        | redirect next ↦ elim (validate_fetch_url net next) [
          | some e ↦ (host ∷ [], none)
          | none ↦ let rest = fetch net web fuel (hop + 1) next in (host ∷ rest.0, rest.1)
        ]
      ]
    ]
