-- ===== src/Dns/Tests.antt =====
-- A resolver that answers one address twice, once as IPv6.
use next_socks.Prelude.{ok, ◌≡◌, refl, ◌≢◌, true, List, [], ◌∷◌, ℕ_discrete}
use next_socks.Net.{IpAddr, ip_v4, ip_v6, IpAddr-discrete, to_canonical}
use next_socks.Dns.{addresses, no_records_found, DnsResolver, with_port, lookup}
use next_socks.Dns.Laws.{Clean, lookup-Clean}

abbrev home : IpAddr
home = ip_v4 (9 ∷ 8 ∷ 7 ∷ 6 ∷ [])

abbrev mapped : IpAddr
mapped = ip_v6 (0 ∷ 0 ∷ 0 ∷ 0 ∷ 0 ∷ 0 ∷ 0 ∷ 0 ∷ 0 ∷ 0 ∷ 255 ∷ 255 ∷ 9 ∷ 8 ∷ 7 ∷ 6 ∷ [])

abbrev resolver : DnsResolver
resolver = record {
  ipv4 = λ host. addresses (home ∷ mapped ∷ []);
  ipv6 = λ host. no_records_found true;
}

found : lookup resolver [] 53 true ≡ ok (with_port 53 (home ∷ []))
unfolding lookup to_canonical IpAddr-discrete ℕ_discrete
found = refl

lookup-Clean_example :
    (ips : List IpAddr) × (with_port 53 (home ∷ []) ≡ with_port 53 ips) × Clean ips × (ips ≢ [])
lookup-Clean_example = lookup-Clean resolver [] 53 true (with_port 53 (home ∷ [])) found
