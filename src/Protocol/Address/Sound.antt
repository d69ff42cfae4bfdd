-- ===== src/Protocol/Address/Sound.antt =====
-- What a successful `decode` says of its buffer.
use next_socks.Prelude.{
  ltb, ltb→ge, Bool-cases, ok, ok-injective, length, get_or, take, length-take, take_two, All-take,
  ℕ, zero, suc, ◌+◌, ◌-◌, ◌%◌, ◌≤◌, ◌<◌, ◌≡◌, sym, ap, ap₂, ◌∙◌, subst, subst₂, inl, inr, true,
  List, [], ◌∷◌, ◌++◌, arith,
}
use next_socks.Wire.{IsByte, IsBytes, be16, to_be_bytes, is_utf8, div-mod-be16}
use next_socks.Protocol.Address.{
  Address, domain, atyp_v4, atyp_domain, atyp_v6, decode_v4, decode_v6, decode_domain, decode, wire,
  encode, IsAddress,
}

All-get_or : (xs : List ℕ) (i : ℕ) → IsBytes xs → get_or xs i 0 < 256
All-get_or [] i h = omega arith
All-get_or (x ∷ xs) zero h = h.0
All-get_or (x ∷ xs) (suc i) h = All-get_or xs i h.1

-- The address is a well-formed value, and the bytes consumed are its encoding.
abbrev pub Reads : List ℕ → Address → ℕ → Type 0
Reads buf a n = (n ≤ length buf) × (take n buf ≡ wire a) × IsAddress a

abbrev port_at : ℕ → List ℕ → ℕ
port_at k xs = be16 (get_or xs k 0) (get_or xs (suc k) 0)

port_at-lt : (k : ℕ) (xs : List ℕ) → IsBytes xs → port_at k xs < 65536
port_at-lt k xs b = omega (arith, All-get_or xs k b, All-get_or xs (suc k) b)

-- A body of `k` bytes and a port behind it.
take-body :
    (k : ℕ) (xs : List ℕ)
    → IsBytes xs
    → k + 2 ≤ length xs
    → take (suc (suc k)) xs ≡ take k xs ++ to_be_bytes (port_at k xs)
take-body k xs b h =
    take_two k xs 0 h
    ∙ ap (◌++◌ (take k xs))
        (sym (div-mod-be16 (get_or xs k 0) (get_or xs (suc k) 0) (All-get_or xs (suc k) b)))

Reads-fixed :
    (x k : ℕ) (xs : List ℕ)
    → IsBytes xs
    → k + 2 ≤ length xs
    → (take (suc (suc k)) xs ≡ take k xs ++ to_be_bytes (port_at k xs))
      × IsBytes (take k xs)
      × (length (take k xs) ≡ k)
      × (port_at k xs < 65536)
Reads-fixed x k xs b h =
    (take-body k xs b h, All-take IsByte k xs b, length-take k xs (omega arith), port_at-lt k xs b)

decode_v4-Reads :
    (xs : List ℕ) (a : Address) (n : ℕ)
    → IsBytes xs
    → decode_v4 (atyp_v4 ∷ xs) ≡ ok (a, n)
    → Reads (atyp_v4 ∷ xs) a n
unfolding decode_v4 wire
decode_v4-Reads xs a n b h = elim (Bool-cases (ltb (suc (length xs)) 7)) [
  | inl short ↦ cc (rw short at h)
  | inr long ↦
      let fits : 4 + 2 ≤ length xs = omega (arith, ltb→ge _ _ long) in
      let (e, i, l, p) = Reads-fixed atyp_v4 4 xs b fits in
      subst (λ (r : Address × ℕ). Reads (atyp_v4 ∷ xs) r.0 r.1) (ok-injective (rw long at h))
        (omega arith, ap (◌∷◌ atyp_v4) e, (i, l, p))
]

decode_v6-Reads :
    (xs : List ℕ) (a : Address) (n : ℕ)
    → IsBytes xs
    → decode_v6 (atyp_v6 ∷ xs) ≡ ok (a, n)
    → Reads (atyp_v6 ∷ xs) a n
unfolding decode_v6 wire
decode_v6-Reads xs a n b h = elim (Bool-cases (ltb (suc (length xs)) 19)) [
  | inl short ↦ cc (rw short at h)
  | inr long ↦
      let fits : 16 + 2 ≤ length xs = omega (arith, ltb→ge _ _ long) in
      let (e, i, l, p) = Reads-fixed atyp_v6 16 xs b fits in
      subst (λ (r : Address × ℕ). Reads (atyp_v6 ∷ xs) r.0 r.1) (ok-injective (rw long at h))
        (omega arith, ap (◌∷◌ atyp_v6) e, (i, l, p))
]

Reads-domain :
    (l : ℕ) (xs : List ℕ)
    → l < 256
    → IsBytes xs
    → l + 2 ≤ length xs
    → is_utf8 (take l xs) ≡ true
    → Reads (atyp_domain ∷ l ∷ xs) (domain (take l xs) (port_at l xs)) (suc (suc (suc (suc l))))
unfolding wire
Reads-domain l xs small b fits u =
    let (e, i, n, p) = Reads-fixed atyp_domain l xs b fits in
    let m : l ≡ length (take l xs) % 256 = omega arith in
    (omega arith, ap₂ (λ k (t : List ℕ). atyp_domain ∷ k ∷ t) m e, (i, u, omega arith, p))

-- The offsets of the source, one constructor at a time.
decode_domain_lem :
    (l : ℕ) (xs : List ℕ) (a : Address) (n : ℕ)
    → decode_domain (atyp_domain ∷ l ∷ xs) ≡ ok (a, n)
    → (l + 2 ≤ length xs)
      × (is_utf8 (take l xs) ≡ true)
      × (domain (take l xs) (port_at l xs) ≡ a)
      × (suc (suc (suc (suc l))) ≡ n)
unfolding decode_domain
decode_domain_lem l xs a n h =
    let i : 2 + l + 1 ≡ suc (suc (suc l)) = omega arith in
    let j : 2 + l ≡ suc (suc l) = omega arith in
    let k : 2 + l - 2 ≡ l = omega arith in
    let m : 2 + l + 2 ≡ suc (suc (suc (suc l))) = omega arith in
    let h' = rw (i, k, m, j) at h in ground arith

decode_domain-Reads :
    (xs : List ℕ) (a : Address) (n : ℕ)
    → IsBytes xs
    → decode_domain (atyp_domain ∷ xs) ≡ ok (a, n)
    → Reads (atyp_domain ∷ xs) a n
decode_domain-Reads [] a n b h = unfold decode_domain in cc
decode_domain-Reads (l ∷ xs) a n b h =
    let (fits, u, e, m) = decode_domain_lem l xs a n h in
    subst₂ (λ a' n'. Reads (atyp_domain ∷ l ∷ xs) a' n') e m (Reads-domain l xs b.0 b.1 fits u)

-- A successful `decode` of a buffer of bytes consumes no more than is there, returns a well-formed
-- address, and the bytes that it consumed are the encoding of that address.
pub decode-Reads :
    (buf : List ℕ) (a : Address) (n : ℕ)
    → IsBytes buf
    → decode buf ≡ ok (a, n)
    → (n ≤ length buf) × (encode a [] ≡ take n buf) × IsAddress a
unfolding decode encode
decode-Reads [] a n b h = cc
decode-Reads (t ∷ xs) a n b h =
    ground (
      arith,
      decode_v4-Reads xs a n b.1,
      decode_v6-Reads xs a n b.1,
      decode_domain-Reads xs a n b.1,
    )
