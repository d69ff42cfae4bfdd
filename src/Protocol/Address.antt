-- ===== src/Protocol/Address.antt =====
-- src/protocol/address.rs: the address codec of RFC 1928, section 4.
-- `Ipv4Addr` and `Ipv6Addr` are their octets, 4 and 16 of them.
pub mod RoundTrip
pub mod Sound
pub mod Stable
mod Tests
use next_socks.Prelude.{
  ℕ, ◌+◌, ◌%◌, ◌<◌, ◌≤◌, ◌≡◌, List, ◌∷◌, ◌++◌, true, Result, ok, err, ok_or, ◌>>=◌, ltb, ◌==◌,
  if◌then◌else◌, length, get_elem?, get_or, slice,
}
use next_socks.Wire.{IsBytes, Str, be16, to_be_bytes, is_utf8, from_utf8}

pub data Address : Type 0 where
  v4 : List ℕ → ℕ → Address
  v6 : List ℕ → ℕ → Address
  domain : Str → ℕ → Address

pub data AddrError : Type 0 where
  truncated : AddrError
  bad_atyp : ℕ → AddrError
  bad_domain : AddrError

abbrev pub atyp_v4 : ℕ
atyp_v4 = 0x01

abbrev pub atyp_domain : ℕ
atyp_domain = 0x03

abbrev pub atyp_v6 : ℕ
atyp_v6 = 0x04

-- The three arms of `decode`. The indices are in range behind the length checks.
unfoldable pub decode_v4 : List ℕ → Result (Address × ℕ) AddrError
decode_v4 buf =
    if ltb (length buf) 7
    then err truncated
    else ok (v4 (slice 1 5 buf) (be16 (get_or buf 5 0) (get_or buf 6 0)), 7)

unfoldable pub decode_v6 : List ℕ → Result (Address × ℕ) AddrError
decode_v6 buf =
    if ltb (length buf) 19
    then err truncated
    else ok (v6 (slice 1 17 buf) (be16 (get_or buf 17 0) (get_or buf 18 0)), 19)

unfoldable pub decode_domain : List ℕ → Result (Address × ℕ) AddrError
decode_domain buf = do
  len ← ok_or (get_elem? buf 1) truncated
  if ltb (length buf) (2 + len + 2) then err truncated else do
    name ← ok_or (from_utf8 (slice 2 (2 + len) buf)) bad_domain
    ok (domain name (be16 (get_or buf (2 + len) 0) (get_or buf (2 + len + 1) 0)), 2 + len + 2)

unfoldable pub decode : List ℕ → Result (Address × ℕ) AddrError
unfolding decode_v4 decode_v6 decode_domain
decode buf = do
  atyp ← ok_or (get_elem? buf 0) truncated
  if atyp == atyp_v4
      then decode_v4 buf
      else if atyp == atyp_v6
      then decode_v6 buf
      else if atyp == atyp_domain
      then decode_domain buf
      else err (bad_atyp atyp)

-- The bytes that `encode` appends; the length of a domain is cast to a `u8`.
unfoldable pub wire : Address → List ℕ
wire (v4 ip port) = atyp_v4 ∷ (ip ++ to_be_bytes port)
wire (v6 ip port) = atyp_v6 ∷ (ip ++ to_be_bytes port)
wire (domain name port) = atyp_domain ∷ length name % 256 ∷ (name ++ to_be_bytes port)

unfoldable pub encode : Address → List ℕ → List ℕ
unfolding wire
encode a out = out ++ wire a

-- The values of the Rust types: octets and ports in range, a valid `String`. A domain of more
-- than 255 bytes is a value of the type too, and no wire format; the last condition leaves it out.
abbrev pub IsAddress : Address → Type 0
IsAddress (v4 ip port) = IsBytes ip × (length ip ≡ 4) × (port < 65536)
IsAddress (v6 ip port) = IsBytes ip × (length ip ≡ 16) × (port < 65536)
IsAddress (domain name port) =
    IsBytes name × (is_utf8 name ≡ true) × (length name ≤ 255) × (port < 65536)
