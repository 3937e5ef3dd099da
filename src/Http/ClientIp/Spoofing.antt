-- ===== src/Http/ClientIp/Spoofing.antt =====
-- What a client can do to the address by which it is limited.
use mlx_mesh.Base.{
  ℕ, ◌≡◌, refl, inl, inr, true, false, some, List, [], ◌∷◌, ◌++◌, String, arith, ◌==◌,
  if◌then◌else◌, length, All, Bool-cases, Option-cases, if_same,
}
use mathlib.Core.List.{reverse, reverse-append}
use mlx_mesh.Base.Text.{trim_space}
use mlx_mesh.Http.RateLimit.{RateLimiter}
use mlx_mesh.Http.ClientIp.{
  Ip, Net, Networks, ip_in_any, extend, split_commas, first_untrusted, host_of, peer_is_trusted,
  client_ip, rate_limit_by_ip,
}

-- No part of a header.
abbrev pub IsPart : List ℕ → Type 0
IsPart cs = All (λ c. (c == 44) ≡ false) cs

split_commas_whole : (cs : List ℕ) → IsPart cs → split_commas cs ≡ cs ∷ []
unfolding split_commas extend
split_commas_whole [] h = refl
split_commas_whole (c ∷ cs) (h, hs) = rw (h, split_commas_whole cs hs, split_commas, extend)

-- Some parts come before the last comma.
split_commas_last :
    (cs last : List ℕ)
    → IsPart last
    → (p : List ℕ) × (ps : List (List ℕ)) × (split_commas (cs ++ (44 ∷ last))
        ≡ p ∷ (ps ++ (last ∷ [])))
unfolding split_commas extend
split_commas_last [] last h = ([], [], rw (split_commas_whole last h))
split_commas_last (c ∷ cs) last h =
    let (p, ps, rest) = split_commas_last cs last h in
    elim (Bool-cases (c == 44)) [
      | inl comma ↦ ([], p ∷ ps, rw (comma, rest))
      | inr other ↦ (c ∷ p, ps, rw (other, rest, extend))
    ]

module _ (net : Net) (nets : Networks) where
  -- The last part is the first that the loop looks at.
  first_untrusted_last :
      (forged real : List ℕ) (ip : Ip)
      → IsPart real
      → net.parse_ip (trim_space real) ≡ some ip
      → ip_in_any ip nets ≡ false
      → first_untrusted net nets (reverse (split_commas (forged ++ (44 ∷ real))))
        ≡ some (trim_space real)
  unfolding first_untrusted
  first_untrusted_last forged real ip part parsed outside =
      let (p, ps, parts) = split_commas_last forged real part in
      let backwards : reverse ((p ∷ ps) ++ (real ∷ [])) ≡ real ∷ reverse (p ∷ ps) =
        reverse-append (p ∷ ps) (real ∷ []) in
      rw (parts, backwards, first_untrusted, parsed, outside)

  client_ip_last :
      (remote_addr forged real : List ℕ) (ip : Ip)
      → IsPart real
      → net.parse_ip (trim_space real) ≡ some ip
      → ip_in_any ip nets ≡ false
      → client_ip net nets remote_addr (forged ++ (44 ∷ real)) ≡ (
          if peer_is_trusted net nets (host_of net remote_addr)
          then trim_space real
          else host_of net remote_addr)
  unfolding client_ip peer_is_trusted ip_in_any
  client_ip_last remote_addr forged real ip part parsed outside =
      elim (Bool-cases (peer_is_trusted net nets (host_of net remote_addr))) [
        | inr stranger ↦ rw (stranger, client_ip) (if_same _ _)
        | inl proxy ↦
            rw (proxy, client_ip, first_untrusted_last forged real ip part parsed outside)
              (some_proxy nets proxy)
      ]
    where
      some_proxy :
          (ns : Networks)
          → peer_is_trusted net ns (host_of net remote_addr) ≡ true
          → (if length ns == 0 then host_of net remote_addr else trim_space real) ≡ trim_space real
      some_proxy [] h = elim (Option-cases (net.parse_ip (host_of net remote_addr))) [
        | inl unread ↦ cc (rw (peer_is_trusted, unread) at h)
        | inr (peer, read) ↦ cc (rw (peer_is_trusted, read, ip_in_any) at h)
      ]
      some_proxy (n ∷ ns) h = ground arith

-- Two requests with other headers take from one bucket.
pub rate_limit_by_ip-unspoofed :
    (key_of : List ℕ → String) (net : Net) (nets : Networks) (now : ℕ) (l : RateLimiter)
    (method : String) (remote_addr forged forged' real : List ℕ) (ip : Ip)
    → IsPart real
    → net.parse_ip (trim_space real) ≡ some ip
    → ip_in_any ip nets ≡ false
    → rate_limit_by_ip key_of net nets now l method remote_addr (forged ++ (44 ∷ real))
      ≡ rate_limit_by_ip key_of net nets now l method remote_addr (forged' ++ (44 ∷ real))
unfolding rate_limit_by_ip
rate_limit_by_ip-unspoofed key_of net nets now l method remote_addr forged forged' real ip part
      parsed outside =
    rw (
      rate_limit_by_ip,
      client_ip_last net nets remote_addr forged real ip part parsed outside,
      client_ip_last net nets remote_addr forged' real ip part parsed outside,
    )
