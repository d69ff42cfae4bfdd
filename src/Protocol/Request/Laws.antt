-- ===== src/Protocol/Request/Laws.antt =====
-- The request as a parser of a buffer that is still being filled.
use next_socks.Prelude.{
  ge→ltb, ok, err, Result-cases, length, get_or, take, drop, length-append, length-take,
  length-drop, drop_append, get_or_append, All-drop, ℕ, suc, ◌+◌, ◌≤◌, ◌<◌, ◌≡◌, refl, ap, ◌∙◌, ◌≢◌,
  ◌⊎◌, inl, inr, List, [], ◌∷◌, ◌++◌, arith,
}
use next_socks.Protocol.Address.Sound.{decode-Reads}
use next_socks.Protocol.Request.{
  Command, connect, bind, udp_associate, Request, truncated, addr, version, cmd_connect, cmd_bind,
  cmd_udp_associate, parse_command, parse_request,
}
use next_socks.Protocol.Address.{AddrError, decode, encode, IsAddress}
use next_socks.Wire.{IsByte, IsBytes}
use next_socks.Protocol.Address.RoundTrip.{decode-encode, length-encode_pos}
use next_socks.Protocol.Address.Stable.{decode_append, decode_truncated-lt}

-- The byte of a command.
abbrev pub code : Command → ℕ
code connect = cmd_connect
code bind = cmd_bind
code udp_associate = cmd_udp_associate

-- A request on the wire; the reserved byte may be anything.
abbrev pub message : Request → ℕ → List ℕ
message r rsv = version ∷ code r.command ∷ rsv ∷ encode r.address []

parse_command-code : (c : Command) → parse_command (code c) ≡ ok c
unfolding parse_command
parse_command-code connect = refl
parse_command-code bind = refl
parse_command-code udp_associate = refl

-- Every request with a well-formed address is read back, whatever its reserved byte and whatever
-- the client sent behind it.
pub parse_request-message :
    (r : Request) (rsv : ℕ) (rest : List ℕ)
    → IsAddress r.address
    → parse_request (message r rsv ++ rest) ≡ ok r
unfolding parse_request
parse_request-message r rsv rest h =
    let e = decode-encode r.address rest h in
    let long = length-encode_pos r.address in
    let c = parse_command-code r.command in
    rw (
      ge→ltb (length (message r rsv ++ rest)) 4
          (omega (arith, length-append (encode r.address []) rest)),
      c,
      e,
    )

code_of-parse_command : (b : ℕ) (c : Command) → parse_command b ≡ ok c → b ≡ code c
unfolding parse_command
code_of-parse_command b c h = ground arith

-- What each step of an accepted request found.
parse_request-eq-ok :
    (buf : List ℕ) (r : Request)
    → parse_request buf ≡ ok r
    → (4 ≤ length buf)
      × (get_or buf 0 0 ≡ version)
      × (get_or buf 1 0 ≡ code r.command)
      × ((n : ℕ) × (decode (drop 3 buf) ≡ ok (r.address, n)))
unfolding parse_request
parse_request-eq-ok buf r h = elim (Result-cases (decode (drop 3 buf))) [
  | inl ((a, n), e) ↦ (
    ground arith,
    ground arith,
    ground (arith, code_of-parse_command (get_or buf 1 0) r.command),
    (n, ground arith),
  )
  | inr (x, e) ↦ absurd (ground arith)
]

take-three :
    (buf : List ℕ) (k : ℕ)
    → 3 ≤ length buf
    → take (3 + k) buf ≡ get_or buf 0 0 ∷ get_or buf 1 0 ∷ get_or buf 2 0 ∷ take k (drop 3 buf)
take-three [] k h = absurd (omega arith)
take-three (x ∷ []) k h = absurd (omega arith)
take-three (x ∷ y ∷ []) k h = absurd (omega arith)
take-three (x ∷ y ∷ z ∷ xs) k h = let e : 3 + k ≡ suc (suc (suc k)) = omega arith in rw e

-- A request that is accepted stands at the start of the buffer, byte for byte: the caller, which
-- drops three bytes and the length of the re-encoded address, drops exactly the request.
pub parse_request-take :
    (buf : List ℕ) (r : Request)
    → IsBytes buf
    → parse_request buf ≡ ok r
    → let size = 3 + length (encode r.address []) in
      (size ≤ length buf) × (take size buf ≡ message r (get_or buf 2 0)) × IsAddress r.address
parse_request-take buf r b h =
    let (long, v, c, found) = parse_request-eq-ok buf r h in
    let n = found.0 in
    let (fits, same, good) =
      decode-Reads (drop 3 buf) r.address n (All-drop IsByte 3 buf b) found.1 in
    let size : length (encode r.address []) ≡ n =
      ap length same ∙ length-take n (drop 3 buf) fits in
    (omega (arith, length-drop 3 buf), rw (size, take-three buf n (omega arith), v, c, same), good)

pub parse_request_append :
    (buf more : List ℕ)
    → parse_request buf ≢ err truncated
    → parse_request buf ≢ err (addr AddrError.truncated)
    → parse_request (buf ++ more) ≡ parse_request buf
unfolding parse_request
parse_request_append buf more h k = ground (
  arith,
  length-append buf more,
  get_or_append 0 buf more 0,
  get_or_append 1 buf more 0,
  drop_append 3 buf more,
  decode_append (drop 3 buf) more,
)

pub parse_request_truncated-lt :
    (buf : List ℕ)
    → IsBytes buf
    → (parse_request buf ≡ err truncated) ⊎ (parse_request buf ≡ err (addr AddrError.truncated))
    → length buf < 262
unfolding parse_request
parse_request_truncated-lt buf b (inl h) = ground arith
parse_request_truncated-lt buf b (inr h) =
    ground (arith, length-drop 3 buf, decode_truncated-lt (drop 3 buf) (All-drop IsByte 3 buf b))
