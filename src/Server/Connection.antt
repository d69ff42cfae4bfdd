-- ===== src/Server/Connection.antt =====
-- src/server/connection.rs: what happens on a connection before the relay.
-- The stream is the script of the reads and writes to come: a read returns the next chunk, and an
-- empty chunk or the end of the script is the end of the stream or an error; each write succeeds or
-- fails as the script says. The bytes of a failed write are not counted as sent.
pub mod Loop
pub mod Messages
pub mod Session
pub mod Attempts
pub mod Reading
pub mod Complete
mod Tests
use next_socks.Prelude.{
  ltb, ◌==◌, if◌then◌else◌, Result, ok, err, length, drop, ℕ, ◌+◌, Bool, true, false, not, Option,
  none, some, List, [], ◌∷◌, ◌++◌,
}
use next_socks.Wire.{Str}
use next_socks.Errors.{
  Socks5Error, general, command_not_supported, address_not_supported, reply_code,
}
use next_socks.Metrics.{Event, auth, error}
use next_socks.Protocol.Address.{Address, v4, AddrError, encode}
use next_socks.Protocol.Handshake.{
  method_userpass, method_none_acceptable, HandshakeError, parse_greeting, select_method,
  method_reply, parse_userpass, userpass_reply,
}
use next_socks.Protocol.Request.{Request, RequestError, bad_command, addr, parse_request}
use next_socks.Config.{none_required, password_required, Config}
use next_socks.Auth.{verify_credentials}
use next_socks.Protocol.Reply.{encode_reply}

pub record Stream : Type 0 where
  pub reads : List (List ℕ)
  pub writes : List Bool
  pub sent : List ℕ

pub record Conn : Type 0 where
  pub stream : Stream
  pub events : List Event

-- Why a connection is given up, with what is said to the client.
pub data Refusal : Type 0 where
  close : Refusal
  auth_failure : Refusal
  request_error : Socks5Error → Refusal

-- What one look at the buffer says.
pub data Verdict {ℓ} (A : Type ℓ) : Type ℓ where
  done : A → ℕ → Verdict A
  more : Verdict A
  reject : Refusal → Verdict A

pub data Outcome {ℓ} (A : Type ℓ) : Type ℓ where
  got : A → List ℕ → Outcome A
  failed : Refusal → Outcome A

abbrev pub read_buf : ℕ
read_buf = 512

pub greeting_verdict : Result (List ℕ) HandshakeError → Verdict (List ℕ)
greeting_verdict (ok methods) = done methods (2 + length methods)
greeting_verdict (err HandshakeError.truncated) = more
greeting_verdict (err e) = reject close

unfoldable pub greeting_attempt : List ℕ → Verdict (List ℕ)
unfolding greeting_verdict
greeting_attempt buf = greeting_verdict (parse_greeting buf)

pub userpass_verdict : Result (Str × Str) HandshakeError → Verdict (Str × Str)
userpass_verdict (ok (u, p)) = done (u, p) (2 + length u + 1 + length p)
userpass_verdict (err HandshakeError.truncated) = more
userpass_verdict (err e) = reject auth_failure

unfoldable pub userpass_attempt : List ℕ → Verdict (Str × Str)
unfolding userpass_verdict
userpass_attempt buf = userpass_verdict (parse_userpass buf)

pub request_verdict : Result Request RequestError → Verdict Request
request_verdict (ok req) = done req (3 + length (encode req.address []))
request_verdict (err RequestError.truncated) = more
request_verdict (err (addr AddrError.truncated)) = more
request_verdict (err (bad_command c)) = reject (request_error command_not_supported)
request_verdict (err (addr (AddrError.bad_atyp t))) = reject (request_error address_not_supported)
request_verdict (err (addr AddrError.bad_domain)) = reject (request_error general)
request_verdict (err (RequestError.bad_version v)) = reject close

unfoldable pub request_attempt : List ℕ → Verdict Request
unfolding request_verdict
request_attempt buf = request_verdict (parse_request buf)

-- The loop around each parser: drop what was parsed, read one more chunk, or give up.
unfoldable pub read_loop {ℓ} :
    {A : Type ℓ} → (List ℕ → Verdict A) → List ℕ → List (List ℕ) → Outcome A × List (List ℕ)
read_loop attempt buf [] = elim (attempt buf) [
  | done a n ↦ (got a (drop n buf), [])
  | reject r ↦ (failed r, [])
  | more ↦ (failed close, [])
]
read_loop attempt buf ([] ∷ cs) = elim (attempt buf) [
  | done a n ↦ (got a (drop n buf), [] ∷ cs)
  | reject r ↦ (failed r, [] ∷ cs)
  | more ↦ if ltb read_buf (length buf) then (failed close, [] ∷ cs) else (failed close, cs)
]
read_loop attempt buf ((b ∷ bs) ∷ cs) = elim (attempt buf) [
  | done a n ↦ (got a (drop n buf), (b ∷ bs) ∷ cs)
  | reject r ↦ (failed r, (b ∷ bs) ∷ cs)
  | more ↦
      let rest = read_loop attempt (buf ++ b ∷ bs) cs in
      if ltb read_buf (length buf) then (failed close, (b ∷ bs) ∷ cs) else rest
]

-- `write_all`: whether it succeeded.
unfoldable pub write_all : List ℕ → Conn → Bool × Conn
write_all bytes c = elim c.stream.writes [
  | [] ↦ (false, c)
  | true ∷ ws ↦
      (true, record c { stream = record c.stream { writes = ws; sent = c.stream.sent ++ bytes } })
  | false ∷ ws ↦ (false, record c { stream = record c.stream { writes = ws } })
]

unfoldable pub emit : Event → Conn → Conn
emit ev c = record c { events = c.events ++ ev ∷ [] }

-- The zeroed IPv4 address of failure replies.
abbrev pub unspecified : Address
unspecified = v4 (0 ∷ 0 ∷ 0 ∷ 0 ∷ []) 0

unfoldable pub reply_failure : Socks5Error → Conn → Conn
unfolding write_all
reply_failure e c = (write_all (encode_reply (reply_code e) unspecified []) c).1

unfoldable pub reply_request_error : Socks5Error → Conn → Conn
unfolding reply_failure emit
reply_request_error e c = emit (error (reply_code e)) (reply_failure e c)

-- What each refusal does before the connection is closed.
unfoldable pub refuse : Refusal → Conn → Conn
unfolding write_all reply_request_error
refuse close c = c
refuse auth_failure c = (write_all (userpass_reply false) c).1
refuse (request_error e) c = reply_request_error e c

-- A handler that may close the connection, as `none`.
abbrev pub Handler {ℓ} : Type ℓ → Type ℓ
Handler A = Conn → Option A × Conn

abbrev pub resume {ℓ κ} : {A : Type ℓ} {B : Type κ} → Option A → (A → Handler B) → Handler B
resume none f c = (none, c)
resume (some a) f c = f a c

infixl 5 ◌>>=◌ ◌>>◌
abbrev pub ◌>>=◌ {ℓ κ} : {A : Type ℓ} {B : Type κ} → Handler A → (A → Handler B) → Handler B
◌>>=◌ m f c = let (a, c') = m c in resume a f c'

abbrev pub ◌>>◌ {ℓ κ} : {A : Type ℓ} {B : Type κ} → Handler A → Handler B → Handler B
m >> n = m >>= λ _. n

abbrev pub pure {ℓ} : {A : Type ℓ} → A → Handler A
pure a c = (some a, c)

settle {ℓ} : {A : Type ℓ} → Outcome A → Handler (A × List ℕ)
unfolding refuse
settle (got a rest) c = (some (a, rest), c)
settle (failed r) c = (none, refuse r c)

-- One message, from the bytes left of the one before.
unfoldable pub read_message {ℓ} :
    {A : Type ℓ} → (List ℕ → Verdict A) → List ℕ → Handler (A × List ℕ)
unfolding read_loop settle
read_message attempt buf c =
    let (outcome, reads) = read_loop attempt buf c.stream.reads in
    settle outcome (record c { stream = record c.stream { reads = reads } })

-- A write whose failure closes the connection.
unfoldable pub send : List ℕ → Handler (Unit {0})
unfolding write_all
send bytes c = let (sent, c') = write_all bytes c in (if sent then some tt else none, c')

unfoldable pub tell : Event → Handler (Unit {0})
unfolding emit
tell ev c = (some tt, emit ev c)

abbrev pub require : Bool → Handler (Unit {0})
require b c = (if b then some tt else none, c)

unfoldable pub requires_userpass : Config → Bool
requires_userpass cfg = elim cfg.auth.method [ none_required ↦ false | password_required ↦ true ]

-- The answer to credentials, and the bytes behind them where they are right.
unfoldable pub answer_credentials : Config → (Str × Str) × List ℕ → Handler (List ℕ)
unfolding send tell
answer_credentials cfg m = do
  let accepted = verify_credentials cfg.auth.users m.0.0 m.0.1
  tell (auth accepted m.0.0)
  send (userpass_reply accepted)
  require accepted
  pure m.1

unfoldable pub authenticate : Config → ℕ → List ℕ → Handler (List ℕ)
unfolding read_message userpass_attempt answer_credentials
authenticate cfg chosen buf =
    if chosen == method_userpass
    then read_message userpass_attempt buf >>= answer_credentials cfg
    else pure buf

-- The method chosen for a greeting, where there is one.
unfoldable pub answer_greeting : Config → List ℕ → Handler ℕ
unfolding send requires_userpass
answer_greeting cfg offered = do
  let chosen = select_method offered (requires_userpass cfg)
  send (method_reply chosen)
  require (not (chosen == method_none_acceptable))
  pure chosen

unfoldable pub after_greeting : Config → List ℕ × List ℕ → Handler (Request × List ℕ)
unfolding read_message answer_greeting authenticate request_attempt
after_greeting cfg m = do
  chosen ← answer_greeting cfg m.0
  buf ← authenticate cfg chosen m.1
  read_message request_attempt buf

-- The request and the bytes that the client sent behind it.
unfoldable pub negotiate : Config → Handler (Request × List ℕ)
unfolding read_message after_greeting greeting_attempt
negotiate cfg = read_message greeting_attempt [] >>= after_greeting cfg
