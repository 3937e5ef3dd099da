-- ===== src/Http/Ssrf/Guard.antt =====
-- What the client for payloads can be made to connect to.
use mlx_mesh.Base.{
  ℕ, zero, suc, ◌+◌, ◌≡◌, refl, ap, inl, inr, false, none, some, String, arith, length, All,
  Option-cases,
}
use mlx_mesh.Http.ClientIp.{Ip}
use mlx_mesh.Http.Ssrf.{
  Resolver, Answer, redirect, body, broken, Web, is_loopback, is_link_local_unicast,
  is_link_local_multicast, is_unspecified, check_ip, validate_fetch_url, control, fetch,
}

-- No loopback, link-local or unspecified address.
abbrev pub IsAllowed : Ip → Type 0
IsAllowed ip =
    (is_loopback ip ≡ false)
    × (is_link_local_unicast ip ≡ false)
    × (is_link_local_multicast ip ≡ false)
    × (is_unspecified ip ≡ false)

-- A literal address that is allowed.
abbrev pub IsSafeHost : Resolver → String → Type 0
IsSafeHost net host = (ip : Ip) × (net.parse_ip host ≡ some ip) × IsAllowed ip

check_ip-IsAllowed : (ip : Ip) → check_ip ip ≡ none → IsAllowed ip
unfolding check_ip
check_ip-IsAllowed ip h = ground arith

control-IsSafeHost :
    (net : Resolver) (host : String) → control net host ≡ none → IsSafeHost net host
unfolding control
control-IsSafeHost net host h = elim (Option-cases (net.parse_ip host)) [
  | inl unread ↦ cc (rw (control, unread) at h)
  | inr (ip, read) ↦ (ip, read, check_ip-IsAllowed ip (rw (control, read) at h))
]

-- Whatever names the hosts of a fetch have, whatever the resolver says of them when it is asked, and
-- wherever the answers redirect to: every host that is connected to is a literal address that is
-- neither loopback, link-local nor unspecified.
pub fetch-IsSafe :
    (net : Resolver) (web : Web) (fuel hop : ℕ) (url : String)
    → All (IsSafeHost net) (fetch net web fuel hop url).0
unfolding fetch
fetch-IsSafe net web zero hop url = tt
fetch-IsSafe net web (suc fuel) hop url = elim (Option-cases (control net (web.dial hop url))) [
  | inr (e, blocked) ↦ rw (blocked, fetch) tt
  | inl allowed ↦
      (let safe = control-IsSafeHost net (web.dial hop url) allowed in
        by_answer (web.answer hop url) refl allowed safe
          (λ next. fetch-IsSafe net web fuel (hop + 1) next))
]
  where
    by_answer :
        (a : Answer)
        → web.answer hop url ≡ a
        → control net (web.dial hop url) ≡ none
        → IsSafeHost net (web.dial hop url)
        → ((next : String) → All (IsSafeHost net) (fetch net web fuel (hop + 1) next).0)
        → All (IsSafeHost net) (fetch net web (suc fuel) hop url).0
    by_answer broken said allowed safe rest = rw (allowed, said, fetch) (safe, tt)
    by_answer (body text) said allowed safe rest = rw (allowed, said, fetch) (safe, tt)
    by_answer (redirect next) said allowed safe rest =
        elim (Option-cases (validate_fetch_url net next)) [
          | inr (e, refused) ↦ rw (allowed, said, refused, fetch) (safe, tt)
          | inl valid ↦ rw (allowed, said, valid, fetch) (safe, rest next)
        ]

-- No number of redirects ends a fetch: a server that redirects to itself is asked again and again.
pub fetch_unbounded :
    (net : Resolver) (web : Web) (url host : String) (n hop : ℕ)
    → control net host ≡ none
    → validate_fetch_url net url ≡ none
    → ((k : ℕ) → web.dial k url ≡ host)
    → ((k : ℕ) → web.answer k url ≡ redirect url)
    → length (fetch net web n hop url).0 ≡ n
unfolding fetch
fetch_unbounded net web url host zero hop allowed valid dials answers = refl
fetch_unbounded net web url host (suc n) hop allowed valid dials answers =
    rw (dials hop, allowed, answers hop, valid, fetch)
      (ap suc (fetch_unbounded net web url host n (hop + 1) allowed valid dials answers))
