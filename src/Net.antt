-- ===== src/Net.antt =====
-- What the program takes from `std::net`: addresses by their octets, 4 of an `Ipv4Addr` and 16 of
-- an `Ipv6Addr`, and sockets. Flow labels and scopes are not modelled.
pub mod Sets
use next_socks.Net.Sets.{same, includes, without}
use next_socks.Prelude.{
  ◌==◌, if◌then◌else◌, length, get_or, take, drop, ℕ, ◌+◌, ◌*◌, ◌≡◌, Bool, true, false, ◌&&◌, ◌||◌,
  Option, none, some, List, [], ◌∷◌, ℕ_discrete,
}
use next_socks.Wire.{IsBytes, be16}

pub data IpAddr : Type 0 where
  ip_v4 : List ℕ → IpAddr
  ip_v6 : List ℕ → IpAddr

pub record SocketAddr : Type 0 where
  pub ip : IpAddr
  pub port : ℕ

abbrev pub IsIp : IpAddr → Type 0
IsIp (ip_v4 o) = IsBytes o × (length o ≡ 4)
IsIp (ip_v6 o) = IsBytes o × (length o ≡ 16)

pub bytes_discrete : Discrete (List ℕ)
bytes_discrete = hlevel ℕ_discrete

unfoldable pub IpAddr-discrete : Discrete IpAddr
IpAddr-discrete = hlevel ℕ_discrete

unfoldable pub SocketAddr-discrete : Discrete SocketAddr
SocketAddr-discrete = hlevel ℕ_discrete

-- `Ipv6Addr::segments`.
abbrev pub segment : ℕ → List ℕ → ℕ
segment i o = be16 (get_or o (2 * i) 0) (get_or o (2 * i + 1) 0)

abbrev pub all_zero : List ℕ → Bool
all_zero [] = true
all_zero (x ∷ xs) = x == 0 && all_zero xs

-- `Ipv6Addr::to_ipv4_mapped`: the form `::ffff:a.b.c.d`.
unfoldable pub to_ipv4_mapped : List ℕ → Option (List ℕ)
to_ipv4_mapped o = if all_zero (take 10 o) && segment 5 o == 0xffff then some (drop 12 o) else none

-- `Ipv6Addr::to_ipv4`: that form, or `::a.b.c.d`.
unfoldable pub to_ipv4 : List ℕ → Option (List ℕ)
to_ipv4 o =
    if all_zero (take 10 o) && (segment 5 o == 0 || segment 5 o == 0xffff)
    then some (drop 12 o)
    else none

-- `IpAddr::to_canonical`.
unfoldable pub to_canonical : IpAddr → IpAddr
unfolding to_ipv4_mapped
to_canonical (ip_v4 o) = ip_v4 o
to_canonical (ip_v6 o) = elim (to_ipv4_mapped o) [ none ↦ ip_v6 o | some v4 ↦ ip_v4 v4 ]

abbrev pub is_ipv4 : IpAddr → Bool
is_ipv4 (ip_v4 o) = true
is_ipv4 (ip_v6 o) = false

-- `IpAddr::is_unspecified`.
abbrev pub is_unspecified : IpAddr → Bool
is_unspecified (ip_v4 o) = all_zero o
is_unspecified (ip_v6 o) = all_zero o

abbrev pub same_ip : IpAddr → IpAddr → Bool
same_ip a b = same IpAddr-discrete a b

abbrev pub same_socket : SocketAddr → SocketAddr → Bool
same_socket a b = same SocketAddr-discrete a b

-- Membership in a `HashSet<SocketAddr>`, and its `remove`.
abbrev pub has : SocketAddr → List SocketAddr → Bool
has a xs = includes SocketAddr-discrete a xs

abbrev pub discard : SocketAddr → List SocketAddr → List SocketAddr
discard a xs = without SocketAddr-discrete a xs
