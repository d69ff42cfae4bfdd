-- ===== src/Dns/Laws.antt =====
-- What a lookup returns.
use next_socks.Prelude.{
  if◌then◌else◌, if_elim, Result, ok, err, ok-injective, All, All-append, ℕ, ◌≡◌, refl, sym, subst,
  ◌≢◌, Bool, true, false, List, [], ◌∷◌, ◌++◌, arith,
}
use next_socks.Wire.{Str}
use next_socks.Net.{IpAddr, ip_v4, ip_v6, SocketAddr, IpAddr-discrete, to_canonical}
use next_socks.Net.Sets.{same, includes, Distinct, Distinct-append}
use next_socks.Dns.{
  Reason, Answer, too_late, addresses, no_records_found, net_error, DnsResolver, add_address,
  collect, non_empty, query, with_port, map_ok, lookup,
}

-- Each address once, in its canonical form.
abbrev pub Clean : List IpAddr → Type 0
Clean xs = Distinct IpAddr-discrete xs × All (λ (x : IpAddr). to_canonical x ≡ x) xs

canonical_again : (ip : IpAddr) → to_canonical (to_canonical ip) ≡ to_canonical ip
unfolding to_canonical
canonical_again (ip_v4 o) = refl
canonical_again (ip_v6 o) = ground arith

add_address-Clean : (found : List IpAddr) (ip : IpAddr) → Clean found → Clean (add_address found ip)
unfolding add_address
add_address-Clean found ip (d, c) =
    let canonical = to_canonical ip in
    if_elim Clean (includes IpAddr-discrete canonical found) found (found ++ canonical ∷ [])
      (λ old. (d, c))
      (λ new. (
        Distinct-append IpAddr-discrete canonical found new d,
        All-append (λ (x : IpAddr). to_canonical x ≡ x) found (canonical ∷ []) c
            (canonical_again ip, tt),
      ))

collect-Clean : (found rest : List IpAddr) → Clean found → Clean (collect found rest)
unfolding collect
collect-Clean found [] h = h
collect-Clean found (ip ∷ rest) h =
    collect-Clean (add_address found ip) rest (add_address-Clean found ip h)

non_empty-Clean : (xs ips : List IpAddr) → Clean xs → non_empty xs ≡ ok ips → Clean ips × (ips ≢ [])
non_empty-Clean [] ips c h = cc
non_empty-Clean (x ∷ xs) ips c h = let e = ok-injective h in (subst Clean e c, λ n. cc)

query-Clean : (a : Answer) (ips : List IpAddr) → query a ≡ ok ips → Clean ips × (ips ≢ [])
unfolding query
query-Clean too_late ips h = cc
query-Clean (no_records_found true) ips h = cc
query-Clean (no_records_found false) ips h = cc
query-Clean net_error ips h = cc
query-Clean (addresses found) ips h =
    non_empty-Clean (collect [] found) ips (collect-Clean [] found (tt, tt)) h

map_ok-ok :
    (port : ℕ) (r : Result (List IpAddr) Reason) (found : List SocketAddr)
    → map_ok (with_port port) r ≡ ok found
    → (ips : List IpAddr) × (r ≡ ok ips) × (found ≡ with_port port ips)
map_ok-ok port (ok ips) found h = (ips, refl, sym (ok-injective h))
map_ok-ok port (err e) found h = cc

-- A lookup that succeeds returns at least one address, each of them once, in its canonical form and
-- with the port of the request.
pub lookup-Clean :
    (resolver : DnsResolver) (host : Str) (port : ℕ) (ipv4 : Bool) (found : List SocketAddr)
    → lookup resolver host port ipv4 ≡ ok found
    → (ips : List IpAddr) × (found ≡ with_port port ips) × Clean ips × (ips ≢ [])
unfolding lookup
lookup-Clean resolver host port ipv4 found h =
    let answer = if ipv4 then resolver.ipv4 host else resolver.ipv6 host in
    let (ips, e, same) = map_ok-ok port (query answer) found h in
    let (clean, some_ip) = query-Clean answer ips e in (ips, same, clean, some_ip)
