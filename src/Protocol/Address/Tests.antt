-- ===== src/Protocol/Address/Tests.antt =====
-- The cases of src/protocol/address.rs's own tests, and the theorems at concrete addresses.
use next_socks.Prelude.{ok, err, length, take, ℕ, ◌≤◌, ◌≡◌, refl, List, [], ◌∷◌, ◌++◌, arith}
use next_socks.Wire.{is_utf8}
use next_socks.Protocol.Address.{
  Address, v4, domain, truncated, bad_atyp, bad_domain, decode, encode, IsAddress,
}
use next_socks.Protocol.Address.RoundTrip.{decode-encode}
use next_socks.Protocol.Address.Sound.{decode-Reads}

abbrev loopback : Address
loopback = v4 (127 ∷ 0 ∷ 0 ∷ 1 ∷ []) 1080

abbrev example : Address
example = domain (0x61 ∷ 0x2e ∷ 0x62 ∷ []) 80

abbrev example_bytes : List ℕ
example_bytes = 0x03 ∷ 0x03 ∷ 0x61 ∷ 0x2e ∷ 0x62 ∷ 0 ∷ 80 ∷ 0xaa ∷ []

truncated_v4 : decode (0x01 ∷ 0x7f ∷ 0 ∷ []) ≡ err truncated
unfolding decode
truncated_v4 = refl

bad_atyp_nine : decode (0x09 ∷ 0 ∷ 0 ∷ []) ≡ err (bad_atyp 9)
unfolding decode
bad_atyp_nine = refl

domain_invalid_utf8 : decode (0x03 ∷ 0x02 ∷ 0xff ∷ 0xfe ∷ 0 ∷ 0x50 ∷ []) ≡ err bad_domain
unfolding decode is_utf8
domain_invalid_utf8 = refl

decode_example : decode example_bytes ≡ ok (example, 7)
unfolding decode is_utf8
decode_example = refl

decode-encode_example :
    decode (encode loopback [] ++ 0xaa ∷ []) ≡ ok (loopback, length (encode loopback []))
decode-encode_example = decode-encode loopback (0xaa ∷ []) (omega arith, refl, omega arith)

decode-Reads_example : (7 ≤ 8) × (encode example [] ≡ take 7 example_bytes) × IsAddress example
decode-Reads_example = decode-Reads example_bytes example 7 (omega arith) decode_example
