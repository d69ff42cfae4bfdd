-- ===== src/Config/Policy.antt =====
-- src/config.rs: which destinations the egress policy blocks.
pub mod Laws
mod Tests
use Prim.Native.Nat.{bit_and}
use next_socks.Prelude.{
  leb, ◌==◌, if◌then◌else◌, get_or, take, ℕ, Bool, true, false, ◌&&◌, ◌||◌, none, some, List,
}
use next_socks.Net.{IpAddr, ip_v4, ip_v6, segment, all_zero, to_ipv4}
use next_socks.Config.{Egress}

-- `Ipv4Addr::is_loopback`, `is_link_local` and `is_private`.
abbrev pub v4_is_loopback : List ℕ → Bool
v4_is_loopback o = get_or o 0 0 == 127

abbrev pub v4_is_link_local : List ℕ → Bool
v4_is_link_local o = get_or o 0 0 == 169 && get_or o 1 0 == 254

abbrev pub v4_is_private : List ℕ → Bool
v4_is_private o =
    get_or o 0 0 == 10
    || (get_or o 0 0 == 172 && (leb 16 (get_or o 1 0) && leb (get_or o 1 0) 31))
    || (get_or o 0 0 == 192 && get_or o 1 0 == 168)

-- `Ipv6Addr::is_loopback`.
abbrev pub v6_is_loopback : List ℕ → Bool
v6_is_loopback o = all_zero (take 15 o) && get_or o 15 0 == 1

unfoldable pub blocks_v4 : Egress → List ℕ → Bool
blocks_v4 e o =
    all_zero o
    || (e.block_loopback && (v4_is_loopback o || get_or o 0 0 == 0))
    || (e.block_link_local && v4_is_link_local o)
    || (e.block_private
        && (v4_is_private o || (get_or o 0 0 == 100 && bit_and (get_or o 1 0) 0xc0 == 64)))

-- The classes of IPv6 itself.
unfoldable pub blocks_native_v6 : Egress → List ℕ → Bool
blocks_native_v6 e o =
    all_zero o
    || (e.block_loopback && v6_is_loopback o)
    || (e.block_link_local && bit_and (segment 0 o) 0xffc0 == 0xfe80)
    || (e.block_private && bit_and (segment 0 o) 0xfe00 == 0xfc00)

unfoldable pub is_blocked : Egress → IpAddr → Bool
unfolding blocks_v4 blocks_native_v6 to_ipv4
is_blocked e (ip_v4 o) = blocks_v4 e o
is_blocked e (ip_v6 o) =
    if blocks_native_v6 e o
    then true
    else elim (to_ipv4 o) [ some v4 ↦ blocks_v4 e v4 | none ↦ false ]
