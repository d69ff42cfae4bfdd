-- ===== src/Server/Connection/Attempts.antt =====
-- The three parsers, as the read loop uses them.
use next_socks.Server.Connection.{
  Verdict, done, more, greeting_verdict, greeting_attempt, userpass_verdict, userpass_attempt,
  request_verdict, request_attempt, read_loop,
}
use next_socks.Server.Connection.Loop.{received, IsIncremental, Agrees, read_loop-Agrees}
use next_socks.Wire.{IsBytes, Str}
use next_socks.Prelude.{
  Result, ok, err, length, ℕ, ◌+◌, ◌≡◌, refl, ◌⊎◌, inl, inr, List, [], ◌++◌, arith,
}
use next_socks.Protocol.Handshake.{HandshakeError, parse_greeting, parse_userpass}
use next_socks.Protocol.Handshake.Greeting.{
  parse_greeting-take, parse_greeting_append, parse_greeting_truncated-lt,
}
use next_socks.Protocol.Handshake.Userpass.{
  parse_userpass-take, parse_userpass_append, parse_userpass_truncated-lt,
}
use next_socks.Protocol.Request.{Request, RequestError, addr, parse_request}
use next_socks.Protocol.Request.Laws.{
  parse_request-take, parse_request_append, parse_request_truncated-lt,
}
use next_socks.Protocol.Address.{AddrError, encode}

greeting_more :
    (r : Result (List ℕ) HandshakeError)
    → greeting_verdict r ≡ more
    → r ≡ err HandshakeError.truncated
unfolding greeting_verdict
greeting_more (ok m) h = cc
greeting_more (err HandshakeError.truncated) h = refl
greeting_more (err _) h = cc

pub greeting_done :
    (r : Result (List ℕ) HandshakeError) {m : List ℕ} {n : ℕ}
    → greeting_verdict r ≡ done m n
    → (r ≡ ok m) × (n ≡ 2 + length m)
unfolding greeting_verdict
greeting_done (ok m) h = ground arith
greeting_done (err HandshakeError.truncated) h = cc
greeting_done (err _) h = cc

pub greeting_attempt-IsIncremental : IsIncremental greeting_attempt
unfolding greeting_attempt
greeting_attempt-IsIncremental = record {
  stable = λ buf rest h. rw (parse_greeting_append buf rest (λ e. h (rw e)));
  small = λ buf b h.
      omega (arith, parse_greeting_truncated-lt buf b (greeting_more (parse_greeting buf) h));
  fits = λ buf {a} {n} b h.
      let (p, e) = greeting_done (parse_greeting buf) h in
      omega (arith, parse_greeting-take buf a p);
}

userpass_more :
    (r : Result (Str × Str) HandshakeError)
    → userpass_verdict r ≡ more
    → r ≡ err HandshakeError.truncated
unfolding userpass_verdict
userpass_more (ok (u, p)) h = cc
userpass_more (err HandshakeError.truncated) h = refl
userpass_more (err _) h = cc

pub userpass_done :
    (r : Result (Str × Str) HandshakeError) {m : Str × Str} {n : ℕ}
    → userpass_verdict r ≡ done m n
    → (r ≡ ok m) × (n ≡ 2 + length m.0 + 1 + length m.1)
unfolding userpass_verdict
userpass_done (ok (u, p)) h = ground arith
userpass_done (err HandshakeError.truncated) h = cc
userpass_done (err _) h = cc

pub userpass_attempt-IsIncremental : IsIncremental userpass_attempt
unfolding userpass_attempt
userpass_attempt-IsIncremental = record {
  stable = λ buf rest h. rw (parse_userpass_append buf rest (λ e. h (rw e)));
  small = λ buf b h.
      omega (arith, parse_userpass_truncated-lt buf b (userpass_more (parse_userpass buf) h));
  fits = λ buf {a} {n} b h.
      let (p, e) = userpass_done (parse_userpass buf) h in
      omega (arith, parse_userpass-take buf a.0 a.1 p);
}

request_more :
    (r : Result Request RequestError)
    → request_verdict r ≡ more
    → (r ≡ err RequestError.truncated) ⊎ (r ≡ err (addr AddrError.truncated))
unfolding request_verdict
request_more (ok r) h = cc
request_more (err RequestError.truncated) h = inl refl
request_more (err (addr AddrError.truncated)) h = inr refl
request_more (err (addr (AddrError.bad_atyp t))) h = cc
request_more (err (addr AddrError.bad_domain)) h = cc
request_more (err (RequestError.bad_command c)) h = cc
request_more (err (RequestError.bad_version v)) h = cc

pub request_done :
    (r : Result Request RequestError) {m : Request} {n : ℕ}
    → request_verdict r ≡ done m n
    → (r ≡ ok m) × (n ≡ 3 + length (encode m.address []))
unfolding request_verdict
request_done (ok r) h = ground arith
request_done (err RequestError.truncated) h = cc
request_done (err (addr AddrError.truncated)) h = cc
request_done (err (addr (AddrError.bad_atyp t))) h = cc
request_done (err (addr AddrError.bad_domain)) h = cc
request_done (err (RequestError.bad_command c)) h = cc
request_done (err (RequestError.bad_version v)) h = cc

pub request_attempt-IsIncremental : IsIncremental request_attempt
unfolding request_attempt
request_attempt-IsIncremental = record {
  stable = λ buf rest h. rw (parse_request_append buf rest (λ e. h (rw e)) (λ e. h (rw e)));
  small = λ buf b h.
      omega (arith, parse_request_truncated-lt buf b (request_more (parse_request buf) h));
  fits = λ buf {a} {n} b h.
      let (p, e) = request_done (parse_request buf) h in
      omega (arith, parse_request-take buf a b p);
}

-- The loop returns what a single look at all the bytes that arrive returns.
abbrev pub Single : {A : Type 0} → (List ℕ → Verdict A) → List ℕ → List (List ℕ) → Type 0
Single attempt buf reads =
    let (o, reads') = read_loop attempt buf reads in
    Agrees (attempt (buf ++ received reads)) (buf ++ received reads) o reads'

-- For each of the three messages, whatever is in the buffer and for every way in which the bytes are
-- cut into chunks: the loop returns what a single look at all of them returns, the same message with
-- the bytes behind it, or the same refusal. In particular its limit on the buffer, 512 bytes, never
-- cuts a message off.
pub read_loop-Single :
    (buf : List ℕ) (reads : List (List ℕ))
    → IsBytes (buf ++ received reads)
    → Single greeting_attempt buf reads
      × Single userpass_attempt buf reads
      × Single request_attempt buf reads
read_loop-Single buf reads b = (
  read_loop-Agrees greeting_attempt greeting_attempt-IsIncremental buf reads b,
  read_loop-Agrees userpass_attempt userpass_attempt-IsIncremental buf reads b,
  read_loop-Agrees request_attempt request_attempt-IsIncremental buf reads b,
)
