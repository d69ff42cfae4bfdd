-- ===== src/Protocol/Address/RoundTrip.antt =====
-- Decoding what was encoded, and encoding what was decoded.
use next_socks.Prelude.{
  ok, length, length-append, take-append_of_length, get_or-append_right, ℕ, suc, ◌+◌, ◌-◌, ◌%◌, ◌≤◌,
  ◌≡◌, sym, ap, ◌∙◌, true, List, [], ◌++◌, append_assoc, arith,
}
use next_socks.Wire.{to_be_bytes, is_utf8, be16-div-mod}
use next_socks.Protocol.Address.{Address, v4, v6, domain, decode, wire, encode, IsAddress}

length-wire_v4 : (ip : List ℕ) (p : ℕ) → length ip ≡ 4 → length (wire (v4 ip p)) ≡ 7
unfolding wire
length-wire_v4 ip p e = omega (arith, length-append ip (to_be_bytes p))

length-wire_v6 : (ip : List ℕ) (p : ℕ) → length ip ≡ 16 → length (wire (v6 ip p)) ≡ 19
unfolding wire
length-wire_v6 ip p e = omega (arith, length-append ip (to_be_bytes p))

length-wire_domain : (name : List ℕ) (p : ℕ) → length (wire (domain name p)) ≡ 2 + length name + 2
unfolding wire
length-wire_domain name p = omega (arith, length-append name (to_be_bytes p))

-- Each kind of address reads back, whatever follows it.
decode-wire_v4 :
    (ip : List ℕ) (p : ℕ) (rest : List ℕ)
    → length ip ≡ 4
    → decode (wire (v4 ip p) ++ rest) ≡ ok (v4 ip p, 7)
unfolding decode wire
decode-wire_v4 ip p rest e = rw (append_assoc ip (to_be_bytes p) rest) (
    ground (
      arith,
      length-append ip (to_be_bytes p ++ rest),
      take-append_of_length 4 ip (to_be_bytes p ++ rest),
      get_or-append_right 4 0 ip (to_be_bytes p ++ rest) 0,
      get_or-append_right 4 1 ip (to_be_bytes p ++ rest) 0,
      be16-div-mod p,
    ))

decode-wire_v6 :
    (ip : List ℕ) (p : ℕ) (rest : List ℕ)
    → length ip ≡ 16
    → decode (wire (v6 ip p) ++ rest) ≡ ok (v6 ip p, 19)
unfolding decode wire
decode-wire_v6 ip p rest e = rw (append_assoc ip (to_be_bytes p) rest) (
    ground (
      arith,
      length-append ip (to_be_bytes p ++ rest),
      take-append_of_length 16 ip (to_be_bytes p ++ rest),
      get_or-append_right 16 0 ip (to_be_bytes p ++ rest) 0,
      get_or-append_right 16 1 ip (to_be_bytes p ++ rest) 0,
      be16-div-mod p,
    ))

decode-wire_domain :
    (name : List ℕ) (p : ℕ) (rest : List ℕ)
    → is_utf8 name ≡ true
    → length name ≤ 255
    → decode (wire (domain name p) ++ rest) ≡ ok (domain name p, 2 + length name + 2)
unfolding decode wire
decode-wire_domain name p rest u e =
    let m : length name % 256 ≡ length name = omega arith in
    let i : 2 + length name ≡ suc (suc (length name + 0)) = omega arith in
    let j : 2 + length name + 1 ≡ suc (suc (length name + 1)) = omega arith in
    let k : 2 + length name - 2 ≡ length name = omega arith in
    rw (append_assoc name (to_be_bytes p) rest, m, k, j, i)
      (ground (
        arith,
        u,
        length-append name (to_be_bytes p ++ rest),
        take-append_of_length (length name) name (to_be_bytes p ++ rest),
        get_or-append_right (length name) 0 name (to_be_bytes p ++ rest) 0,
        get_or-append_right (length name) 1 name (to_be_bytes p ++ rest) 0,
        be16-div-mod p,
      ))

-- What `encode` writes of a well-formed address, `decode` reads back from the start of any buffer
-- that begins with it: the same address, and as many bytes as were written.
pub decode-encode :
    (a : Address) (rest : List ℕ)
    → IsAddress a
    → decode (encode a [] ++ rest) ≡ ok (a, length (encode a []))
unfolding encode
decode-encode (v4 ip p) rest (b, e, q) =
    decode-wire_v4 ip p rest e ∙ ap (λ n. ok (v4 ip p, n)) (sym (length-wire_v4 ip p e))
decode-encode (v6 ip p) rest (b, e, q) =
    decode-wire_v6 ip p rest e ∙ ap (λ n. ok (v6 ip p, n)) (sym (length-wire_v6 ip p e))
decode-encode (domain name p) rest (b, u, e, q) =
    decode-wire_domain name p rest u e
    ∙ ap (λ n. ok (domain name p, n)) (sym (length-wire_domain name p))

pub length-encode_pos : (a : Address) → 1 ≤ length (encode a [])
unfolding encode
length-encode_pos (v4 ip p) = omega arith
length-encode_pos (v6 ip p) = omega arith
length-encode_pos (domain name p) = omega arith
