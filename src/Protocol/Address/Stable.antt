-- ===== src/Protocol/Address/Stable.antt =====
-- How `decode` behaves on a buffer that is still being filled.
use next_socks.Prelude.{
  Result, ok, err, length, take, drop, length-append, length-take, take-append-drop, get_or_append,
  slice_append, All-take, ℕ, ◌+◌, ◌<◌, ◌≡◌, refl, sym, ap, ◌∙◌, ◌≢◌, ◌⊎◌, inl, inr, List, [], ◌∷◌,
  ◌++◌, arith,
}
use next_socks.Wire.{IsByte, IsBytes}
use next_socks.Protocol.Address.Sound.{decode-Reads}
use next_socks.Protocol.Address.{
  Address, AddrError, truncated, bad_atyp, bad_domain, decode_v4, decode_v6, decode_domain, decode,
}

decode_v4_append :
    (buf more : List ℕ) → decode_v4 buf ≢ err truncated → decode_v4 (buf ++ more) ≡ decode_v4 buf
unfolding decode_v4
decode_v4_append buf more h = ground (
  arith,
  length-append buf more,
  slice_append 1 5 buf more,
  get_or_append 5 buf more 0,
  get_or_append 6 buf more 0,
)

decode_v6_append :
    (buf more : List ℕ) → decode_v6 buf ≢ err truncated → decode_v6 (buf ++ more) ≡ decode_v6 buf
unfolding decode_v6
decode_v6_append buf more h = ground (
  arith,
  length-append buf more,
  slice_append 1 17 buf more,
  get_or_append 17 buf more 0,
  get_or_append 18 buf more 0,
)

decode_domain_append :
    (buf more : List ℕ)
    → decode_domain buf ≢ err truncated
    → decode_domain (buf ++ more) ≡ decode_domain buf
unfolding decode_domain
decode_domain_append [] more h = absurd (h refl)
decode_domain_append (t ∷ []) more h = absurd (h refl)
decode_domain_append (t ∷ l ∷ xs) more h = ground (
  arith,
  length-append xs more,
  slice_append 2 (2 + l) (t ∷ l ∷ xs) more,
  get_or_append (2 + l) (t ∷ l ∷ xs) more 0,
  get_or_append (2 + l + 1) (t ∷ l ∷ xs) more 0,
)

-- Once a buffer holds enough to decide, the bytes that follow change nothing: neither an address
-- nor an error other than `Truncated` is taken back.
pub decode_append :
    (buf more : List ℕ) → decode buf ≢ err truncated → decode (buf ++ more) ≡ decode buf
unfolding decode
decode_append [] more h = absurd (h refl)
decode_append (t ∷ xs) more h = ground (
  arith,
  decode_v4_append (t ∷ xs) more,
  decode_v6_append (t ∷ xs) more,
  decode_domain_append (t ∷ xs) more,
)

-- A buffer of bytes that `decode` calls truncated is shorter than the longest address.
pub decode_truncated-lt :
    (buf : List ℕ) → IsBytes buf → decode buf ≡ err truncated → length buf < 259
unfolding decode decode_v4 decode_v6 decode_domain
decode_truncated-lt [] b h = omega arith
decode_truncated-lt (t ∷ []) b h = omega arith
decode_truncated-lt (t ∷ l ∷ xs) b h = ground arith

is_truncated : (r : Result (Address × ℕ) AddrError) → (r ≡ err truncated) ⊎ (r ≢ err truncated)
is_truncated (ok r) = inr (λ e. cc)
is_truncated (err truncated) = inl refl
is_truncated (err (bad_atyp t)) = inr (λ e. cc)
is_truncated (err bad_domain) = inr (λ e. cc)

-- An address is reported only once its last byte has arrived: every shorter prefix of a buffer
-- that decodes is truncated.
pub decode-take :
    (buf : List ℕ) (a : Address) (n k : ℕ)
    → IsBytes buf
    → decode buf ≡ ok (a, n)
    → k < n
    → decode (take k buf) ≡ err truncated
decode-take buf a n k b h lt = elim (is_truncated (decode (take k buf))) [
  | inl e ↦ e
  | inr settled ↦
      let same : decode (take k buf) ≡ ok (a, n) =
        sym (decode_append (take k buf) (drop k buf) settled)
        ∙ ap decode (take-append-drop k buf)
        ∙ h in
      let fits = (decode-Reads buf a n b h).0 in
      let early = (decode-Reads (take k buf) a n (All-take IsByte k buf b) same).0 in
      absurd (omega (arith, length-take k buf (omega arith)))
]
