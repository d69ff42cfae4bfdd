-- ===== src/Protocol/Udp.antt =====
-- src/protocol/udp.rs: the header of RFC 1928, section 7, on every relayed datagram.
-- `UdpDatagram` and `UdpDatagramRef` hold the same bytes; whether they are borrowed is not modelled.
pub mod Laws
use next_socks.Prelude.{
  ltb, if◌then◌else◌, Result, ok, err, map_err, length, get_or, drop, ℕ, ◌+◌, List, [], ◌∷◌, ◌++◌,
  ◌>>=◌,
}
use next_socks.Protocol.Address.{Address, AddrError, decode, encode}

pub record UdpDatagram : Type 0 where
  pub frag : ℕ
  pub address : Address
  pub payload : List ℕ

pub data UdpError : Type 0 where
  truncated : UdpError
  addr : AddrError → UdpError

abbrev pub min_header : ℕ
min_header = 4

unfoldable pub decap_ref : List ℕ → Result UdpDatagram UdpError
decap_ref buf = if ltb (length buf) min_header then err truncated else do
  (address, consumed) ← map_err addr (decode (drop 3 buf))
  ok (record { frag = get_or buf 2 0; address = address; payload = drop (3 + consumed) buf })

unfoldable pub decap : List ℕ → Result UdpDatagram UdpError
unfolding decap_ref
decap buf = do
  d ← decap_ref buf
  ok (record { frag = d.frag; address = d.address; payload = d.payload })

unfoldable pub encap : Address → List ℕ → List ℕ → List ℕ
encap address payload out = encode address (out ++ 0x00 ∷ 0x00 ∷ 0x00 ∷ []) ++ payload
