-- ===== src/Dns.antt =====
-- src/dns.rs: a lookup of one address family. The resolver itself, hickory-resolver with its caches,
-- is a parameter: what it answers for a host. The reasons in errors are the kinds that the program
-- tells apart.
mod Tests
pub mod Laws
use next_socks.Prelude.{if◌then◌else◌, Result, ok, err, ℕ, Bool, true, false, List, [], ◌∷◌, ◌++◌}
use next_socks.Wire.{Str}
use next_socks.Net.{IpAddr, SocketAddr, IpAddr-discrete, to_canonical}
use next_socks.Net.Sets.{includes}

pub data Reason : Type 0 where
  timed_out : Reason
  no_error : Reason
  no_records : Reason
  failure : Reason
  no_addresses : Reason

-- What the resolver answers before the deadline, or that it does not: addresses, no records with the
-- response code NOERROR or another, or another error.
pub data Answer : Type 0 where
  too_late : Answer
  addresses : List IpAddr → Answer
  no_records_found : Bool → Answer
  net_error : Answer

-- The two resolvers of `DnsResolver`.
pub record DnsResolver : Type 0 where
  pub ipv4 : Str → Answer
  pub ipv6 : Str → Answer

unfoldable pub add_address : List IpAddr → IpAddr → List IpAddr
add_address found ip =
    let canonical = to_canonical ip in
    if includes IpAddr-discrete canonical found then found else found ++ canonical ∷ []

-- The loop over the answer.
unfoldable pub collect : List IpAddr → List IpAddr → List IpAddr
unfolding add_address
collect found [] = found
collect found (ip ∷ rest) = collect (add_address found ip) rest

abbrev pub non_empty : List IpAddr → Result (List IpAddr) Reason
non_empty [] = err no_addresses
non_empty (x ∷ xs) = ok (x ∷ xs)

unfoldable pub query : Answer → Result (List IpAddr) Reason
unfolding collect
query too_late = err timed_out
query (no_records_found true) = err no_error
query (no_records_found false) = err no_records
query net_error = err failure
query (addresses found) = non_empty (collect [] found)

-- With the port of the request.
abbrev pub with_port : ℕ → List IpAddr → List SocketAddr
with_port port [] = []
with_port port (ip ∷ rest) = record { ip = ip; port = port } ∷ with_port port rest

abbrev pub map_ok {ℓ κ λ₁} :
    {A : Type ℓ} {B : Type κ} {E : Type λ₁} → (A → B) → Result A E → Result B E
map_ok f (ok a) = ok (f a)
map_ok f (err e) = err e

unfoldable pub lookup : DnsResolver → Str → ℕ → Bool → Result (List SocketAddr) Reason
unfolding query
lookup resolver host port ipv4 =
    map_ok (with_port port) (query (if ipv4 then resolver.ipv4 host else resolver.ipv6 host))
