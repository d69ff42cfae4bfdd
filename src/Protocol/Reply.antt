-- ===== src/Protocol/Reply.antt =====
-- src/protocol/reply.rs: the reply of RFC 1928, section 6.
use next_socks.Prelude.{
  ok, length, get_elem?, drop, ℕ, ◌-◌, ◌≡◌, refl, ap, ◌∙◌, some, List, [], ◌∷◌, ◌++◌, append_assoc,
  arith,
}
use next_socks.Protocol.Address.{Address, decode, wire, encode, IsAddress}
use next_socks.Protocol.Address.RoundTrip.{decode-encode}

abbrev pub rep_succeeded : ℕ
rep_succeeded = 0x00

abbrev version : ℕ
version = 0x05

abbrev rsv : ℕ
rsv = 0x00

unfoldable pub encode_reply : ℕ → Address → List ℕ → List ℕ
encode_reply code bind out = encode bind (out ++ version ∷ code ∷ rsv ∷ [])

pub encode_reply_lem :
    (code : ℕ) (bind : Address) (out : List ℕ)
    → encode_reply code bind out ≡ out ++ version ∷ code ∷ rsv ∷ encode bind []
unfolding encode_reply encode
encode_reply_lem code bind out = append_assoc out (version ∷ code ∷ rsv ∷ []) (wire bind)

-- A client that skips the three header bytes of a reply and decodes the address reads the bound
-- address that the server put in, and learns where the reply ends.
pub decode-encode_reply :
    (code : ℕ) (bind : Address) (rest : List ℕ)
    → IsAddress bind
    → (get_elem? (encode_reply code bind []) 1 ≡ some code)
      × (decode (drop 3 (encode_reply code bind [] ++ rest))
          ≡ ok (bind, length (encode_reply code bind []) - 3))
decode-encode_reply code bind rest h =
    rw encode_reply_lem (refl, decode-encode bind rest h ∙ ap (λ n. ok (bind, n)) (omega arith))
