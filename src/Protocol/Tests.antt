-- ===== src/Protocol/Tests.antt =====
-- The handshake, request, reply and datagram theorems at concrete messages.
use next_socks.Prelude.{ok, ℕ, ◌≡◌, refl, List, [], ◌∷◌, ◌++◌, arith}
use next_socks.Wire.{is_utf8}
use next_socks.Protocol.Address.{Address, v4, decode, encode, IsAddress}
use next_socks.Protocol.Handshake.{parse_userpass}
use next_socks.Protocol.Request.{connect, Request, parse_request}
use next_socks.Protocol.Udp.{UdpDatagram, decap_ref, decap, encap}
use next_socks.Protocol.Udp.Laws.{decap-encap, decap_ref-append}

abbrev target : Address
target = v4 (9 ∷ 8 ∷ 7 ∷ 6 ∷ []) 80

abbrev connect_target : Request
connect_target = record { command = connect; address = target }

target-IsAddress : IsAddress target
target-IsAddress = (ground arith, refl, omega arith)

abbrev alice : List ℕ
alice = 1 ∷ 2 ∷ 0x61 ∷ 0x62 ∷ 1 ∷ 0x63 ∷ []

parse_alice : parse_userpass alice ≡ ok (0x61 ∷ 0x62 ∷ [], 0x63 ∷ [])
unfolding parse_userpass is_utf8
parse_alice = refl

abbrev connect_bytes : List ℕ
connect_bytes = 5 ∷ 1 ∷ 7 ∷ 1 ∷ 9 ∷ 8 ∷ 7 ∷ 6 ∷ 0 ∷ 80 ∷ 0x47 ∷ []

parse_connect : parse_request connect_bytes ≡ ok connect_target
unfolding parse_request decode
parse_connect = refl

decap-encap_example :
    decap (encap target (1 ∷ 2 ∷ []) [])
    ≡ ok (record { frag = 0; address = target; payload = 1 ∷ 2 ∷ [] })
decap-encap_example = decap-encap target (1 ∷ 2 ∷ []) target-IsAddress

abbrev datagram : List ℕ
datagram = 3 ∷ 4 ∷ 1 ∷ 1 ∷ 9 ∷ 8 ∷ 7 ∷ 6 ∷ 0 ∷ 80 ∷ 0x47 ∷ []

abbrev split : UdpDatagram
split = record { frag = 1; address = target; payload = 0x47 ∷ [] }

decap_datagram : decap_ref datagram ≡ ok split
unfolding decap_ref decode
decap_datagram = refl

decap_ref-append_example :
    (datagram ≡ 3 ∷ 4 ∷ 1 ∷ (encode target [] ++ 0x47 ∷ [])) × IsAddress target
decap_ref-append_example = decap_ref-append datagram split (ground arith) decap_datagram
