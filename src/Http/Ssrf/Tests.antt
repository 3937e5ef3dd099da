-- ===== src/Http/Ssrf/Tests.antt =====
-- A redirect to the metadata service of a cloud: internal/httpmw/ssrf.go.
use mlx_mesh.Base.{◌≡◌, refl, none, some, [], ◌∷◌, str_eq, if◌then◌else◌, ◌==◌, All}
use mlx_mesh.Http.ClientIp.{v4}
use mlx_mesh.Http.Ssrf.{
  Resolver, Web, redirect, body, is_loopback, is_link_local_unicast, is_link_local_multicast,
  is_unspecified, check_ip, check_all, check_looked_up, validate_fetch_url, control, fetch,
}
use mlx_mesh.Http.Ssrf.Guard.{IsSafeHost, fetch-IsSafe}

-- "evil" resolves to a public address when it is checked, and to the metadata service when it is dialled.
abbrev net : Resolver
net = record {
  parse_url = λ raw. some (record { scheme = "http"; hostname = raw });
  parse_ip = λ host.
      if str_eq host "8.8.8.8"
      then some (v4 8 8 8 8)
      else if str_eq host "169.254.169.254"
      then some (v4 169 254 169 254)
      else none;
  lookup_ip = λ host. some (v4 8 8 8 8 ∷ []);
}

abbrev web : Web
web = record {
  dial = λ hop url. if hop == 0 then "8.8.8.8" else "169.254.169.254";
  answer = λ hop url. if hop == 0 then redirect "evil" else body "secret";
}

evil_valid : validate_fetch_url net "evil" ≡ none
unfolding validate_fetch_url check_looked_up check_all check_ip is_loopback is_link_local_unicast
    is_link_local_multicast is_unspecified
evil_valid = refl

evil_not_fetched : fetch net web 5 0 "start" ≡ ("8.8.8.8" ∷ [], none)
unfolding fetch control validate_fetch_url check_looked_up check_all check_ip is_loopback
    is_link_local_unicast is_link_local_multicast is_unspecified
evil_not_fetched = refl

fetch-IsSafe_example : All (IsSafeHost net) (fetch net web 5 0 "start").0
fetch-IsSafe_example = fetch-IsSafe net web 5 0 "start"
