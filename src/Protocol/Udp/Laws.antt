-- ===== src/Protocol/Udp/Laws.antt =====
-- Encapsulation and decapsulation of datagrams.
use next_socks.Prelude.{
  ge→ltb, ok, Result-cases, length, get_or, drop, length-append, take-append-drop,
  drop-length_append, ℕ, suc, ◌+◌, ◌≡◌, refl, sym, ap, ◌∙◌, subst, inl, inr, List, [], ◌∷◌, ◌++◌,
  arith,
}
use next_socks.Wire.{IsBytes}
use next_socks.Protocol.Udp.{UdpDatagram, min_header, decap_ref, decap, encap}
use next_socks.Protocol.Address.{Address, decode, encode, IsAddress}
use next_socks.Protocol.Address.RoundTrip.{decode-encode, length-encode_pos}
use next_socks.Protocol.Address.Sound.{decode-Reads}

pub decap-eq-decap_ref : (buf : List ℕ) → decap buf ≡ decap_ref buf
unfolding decap
decap-eq-decap_ref buf = ground arith

encap_lem :
    (a : Address) (payload : List ℕ) → encap a payload [] ≡ 0 ∷ 0 ∷ 0 ∷ (encode a [] ++ payload)
unfolding encap encode
encap_lem a payload = refl

-- What the relay encapsulates, a client that decapsulates gets back: an unfragmented datagram with
-- the address and the payload, also where either is empty or the payload looks like a header.
pub decap-encap :
    (a : Address) (payload : List ℕ)
    → IsAddress a
    → decap (encap a payload []) ≡ ok (record { frag = 0; address = a; payload = payload })
unfolding decap
decap-encap a payload h =
    let e = decode-encode a payload h in
    let l = length-encode_pos a in
    rw
      (
        encap_lem a payload,
        ge→ltb (suc (suc (suc (length (encode a [] ++ payload))))) min_header
            (omega (arith, length-append (encode a []) payload)),
        e,
      )
      (ground (arith, drop-length_append (encode a []) payload))

-- A datagram that is read is split without loss: two reserved bytes, the fragment number, the
-- encoding of the address and the payload make up the buffer, and the address is well formed.
pub decap_ref-append :
    (buf : List ℕ) (d : UdpDatagram)
    → IsBytes buf
    → decap_ref buf ≡ ok d
    → (buf ≡ get_or buf 0 0 ∷ get_or buf 1 0 ∷ d.frag ∷ (encode d.address [] ++ d.payload))
      × IsAddress d.address
unfolding decap_ref
decap_ref-append [] d b h = cc
decap_ref-append (x ∷ []) d b h = cc
decap_ref-append (x ∷ y ∷ []) d b h = cc
decap_ref-append (x ∷ y ∷ z ∷ xs) d b h = elim (Result-cases (decode xs)) [
  | inl ((a, n), e) ↦
      let (fits, same, good) = decode-Reads xs a n b.1.1.1 e in
      let k : 3 + n ≡ suc (suc (suc n)) = omega arith in
      let whole : xs ≡ encode a [] ++ drop n xs =
        sym (take-append-drop n xs) ∙ ap (λ t. t ++ drop n xs) (sym same) in
      let parts : (z ≡ d.frag) × (a ≡ d.address) × (drop n xs ≡ d.payload) =
        (ground arith, ground arith, ground arith) in
      (
        rw (← parts.0, ← parts.1, ← parts.2) (ap (λ t. x ∷ y ∷ z ∷ t) whole),
        subst IsAddress parts.1 good,
      )
  | inr (f, e) ↦ absurd (ground arith)
]
