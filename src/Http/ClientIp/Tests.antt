-- ===== src/Http/ClientIp/Tests.antt =====
-- A client behind a proxy forges an address: internal/httpmw/clientip.go.
use mlx_mesh.Base.{◌++◌, ◌≡◌, refl, Bool, false, none, some, [], ◌∷◌, ◌==◌, if◌then◌else◌}
use mlx_mesh.Base.Text.{codes, same_bytes, trim_space, trim_left, trim_right, is_space}
use mlx_mesh.Http.ClientIp.{
  Ip, v4, v6, Net, Networks, ip_in_any, split_commas, first_untrusted, host_of, peer_is_trusted,
  client_ip,
}

abbrev net : Net
net = record {
  split_host = λ addr. some addr;
  parse_ip = λ s.
      if same_bytes s (codes "10.0.0.1")
      then some (v4 10 0 0 1)
      else if same_bytes s (codes "9.9.9.9")
      then some (v4 9 9 9 9)
      else if same_bytes s (codes "1.1.1.1")
      then some (v4 1 1 1 1)
      else none;
}

is_proxy : Ip → Bool
is_proxy (v4 a b c d) = a == 10
is_proxy (v6 bs) = false

abbrev proxies : Networks
proxies = is_proxy ∷ []

forged_ignored :
    client_ip net proxies (codes "10.0.0.1") (codes "1.1.1.1" ++ (44 ∷ codes " 9.9.9.9"))
    ≡ codes "9.9.9.9"
unfolding client_ip host_of peer_is_trusted ip_in_any first_untrusted split_commas trim_space
    trim_left trim_right is_space same_bytes is_proxy
forged_ignored = refl
