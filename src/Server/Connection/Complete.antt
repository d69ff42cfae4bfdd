-- ===== src/Server/Connection/Complete.antt =====
-- A client that keeps to the protocol is served.
use next_socks.Server.Connection.Reading.{
  bind-some, greeting-Reads, userpass-Reads, request-Reads, wrote, answer_greeting-some,
  answer_credentials-some,
}
use next_socks.Server.Connection.{
  Conn, greeting_attempt, userpass_attempt, request_attempt, emit, ◌>>=◌, read_message,
  requires_userpass, answer_credentials, authenticate, answer_greeting, after_greeting, negotiate,
}
use next_socks.Prelude.{
  ℕ, ◌≡◌, refl, sym, ◌∙◌, subst, Bool, true, false, some, List, [], ◌∷◌, ◌++◌, Mem,
}
use next_socks.Wire.{IsBytes, is_utf8}
use next_socks.Config.{none_required, password_required, Config}
use next_socks.Metrics.{Event, auth}
use next_socks.Auth.{verify_credentials}
use next_socks.Auth.Laws.{verify_credentials_iff}
use next_socks.Protocol.Address.{IsAddress}
use next_socks.Protocol.Handshake.{
  method_no_auth, method_userpass, select_method, method_reply, userpass_reply,
}
use next_socks.Protocol.Handshake.Greeting.{greeting, select_method_lem}
use next_socks.Protocol.Handshake.Userpass.{credentials}
use next_socks.Protocol.Request.{Request}
use next_socks.Protocol.Request.Laws.{message}
use next_socks.Server.Connection.Loop.{received}
use next_socks.Server.Connection.Messages.{with_reads, incoming}
use next_socks.Server.Connection.Session.{IsBytes-right}

-- A session's end: the request was read, the client was told `sent` and the events are those given,
-- and what is behind the request is left over or still to come.
abbrev pub Serves : Config → Conn → Request → List ℕ → List Bool → List ℕ → List Event → Type 0
Serves cfg c r behind later sent events =
    (rest : List ℕ) × (reads : List (List ℕ)) × (negotiate cfg c ≡ (
      some (r, rest),
      record { stream = record { reads = reads; writes = later; sent = sent }; events = events },
    ))
    × (rest ++ received reads ≡ behind)

-- From where the greeting was answered.
authenticated :
    (cfg : Config) (c : Conn) (buf user pass : List ℕ) (r : Request) (rsv : ℕ) (behind : List ℕ)
    (later : List Bool)
    → IsBytes (buf ++ incoming c)
    → buf ++ incoming c ≡ credentials user pass ++ (message r rsv ++ behind)
    → is_utf8 user ≡ true
    → is_utf8 pass ≡ true
    → verify_credentials cfg.auth.users user pass ≡ true
    → IsAddress r.address
    → c.stream.writes ≡ true ∷ later
    → (rest : List ℕ) × (reads : List (List ℕ)) × ((authenticate cfg method_userpass buf
            >>= read_message request_attempt)
          c
        ≡ (
          some (r, rest),
          with_reads reads (wrote (userpass_reply true) later (emit (auth true user) c)),
        ))
      × (rest ++ received reads ≡ behind)
unfolding authenticate emit
authenticated cfg c buf user pass r rsv behind later b split u p known good w =
    let request = message r rsv ++ behind in
    let (rest, reads, e, d) = userpass-Reads buf c user pass request b split u p in
    let told = wrote (userpass_reply true) later (emit (auth true user) (with_reads reads c)) in
    let all = IsBytes-right (buf ++ incoming c) (credentials user pass) request b split in
    let (rest', reads', e', d') =
      request-Reads rest told r rsv behind (subst IsBytes (sym d) all) d good in
    (
      rest',
      reads',
      bind-some (authenticate cfg method_userpass buf) (read_message request_attempt) c told rest (
            bind-some (read_message userpass_attempt buf) (answer_credentials cfg) c
              (with_reads reads c) ((user, pass), rest) e
            ∙ answer_credentials-some cfg user pass rest (with_reads reads c) later known w)
          ∙ e',
      d',
    )

-- Where a password is required: a client whose bytes are a greeting that offers the username and
-- password method, the credentials of a configured user and a request with a well-formed address is
-- served that request, however the bytes are cut into chunks, if both answers can be written; the
-- client is told the method and its success, one event tells of it, and the bytes behind the request
-- are kept for the relay.
pub negotiate-Serves :
    (cfg : Config) (c : Conn) (methods user pass : List ℕ) (r : Request) (rsv : ℕ) (behind : List ℕ)
    (later : List Bool)
    → cfg.auth.method ≡ password_required
    → IsBytes (incoming c)
    → incoming c ≡ greeting methods ++ (credentials user pass ++ (message r rsv ++ behind))
    → Mem method_userpass methods
    → is_utf8 user ≡ true
    → is_utf8 pass ≡ true
    → Mem (record { username = user; password = pass }) cfg.auth.users
    → IsAddress r.address
    → c.stream.writes ≡ true ∷ true ∷ later
    → Serves cfg c r behind later
        ((c.stream.sent ++ method_reply method_userpass) ++ userpass_reply true)
        (c.events ++ auth true user ∷ [])
unfolding negotiate after_greeting requires_userpass emit
negotiate-Serves cfg c methods user pass r rsv behind later q b split offered u p known good w =
    let session = credentials user pass ++ (message r rsv ++ behind) in
    let (rest, reads, e, d) = greeting-Reads c methods session b split in
    let greeted = with_reads reads c in
    let answered = wrote (method_reply method_userpass) (true ∷ later) greeted in
    let chosen : select_method methods (requires_userpass cfg) ≡ method_userpass =
      rw q ((select_method_lem methods true).0.1 offered) in
    let bytes =
      subst IsBytes (sym d) (IsBytes-right (incoming c) (greeting methods) session b split) in
    let (rest', reads', e', d') =
      authenticated cfg answered rest user pass r rsv behind later bytes d u p
        ((verify_credentials_iff cfg.auth.users user pass).1 known) good refl in
    (
      rest',
      reads',
      bind-some (read_message greeting_attempt []) (after_greeting cfg) c greeted (methods, rest) e
          ∙ bind-some (answer_greeting cfg methods)
              (λ chosen. authenticate cfg chosen rest >>= read_message request_attempt) greeted
              answered method_userpass
              (answer_greeting-some cfg methods greeted method_userpass (true ∷ later) chosen refl
                w)
          ∙ e',
      d',
    )

-- The same where no password is required, with the method without authentication.
pub negotiate-Serves_open :
    (cfg : Config) (c : Conn) (methods : List ℕ) (r : Request) (rsv : ℕ) (behind : List ℕ)
    (later : List Bool)
    → cfg.auth.method ≡ none_required
    → IsBytes (incoming c)
    → incoming c ≡ greeting methods ++ (message r rsv ++ behind)
    → Mem method_no_auth methods
    → IsAddress r.address
    → c.stream.writes ≡ true ∷ later
    → Serves cfg c r behind later (c.stream.sent ++ method_reply method_no_auth) c.events
unfolding negotiate after_greeting requires_userpass authenticate
negotiate-Serves_open cfg c methods r rsv behind later q b split offered good w =
    let request = message r rsv ++ behind in
    let (rest, reads, e, d) = greeting-Reads c methods request b split in
    let greeted = with_reads reads c in
    let answered = wrote (method_reply method_no_auth) later greeted in
    let chosen : select_method methods (requires_userpass cfg) ≡ method_no_auth =
      rw q ((select_method_lem methods false).0.1 offered) in
    let bytes =
      subst IsBytes (sym d) (IsBytes-right (incoming c) (greeting methods) request b split) in
    let (rest', reads', e', d') = request-Reads rest answered r rsv behind bytes d good in
    (
      rest',
      reads',
      bind-some (read_message greeting_attempt []) (after_greeting cfg) c greeted (methods, rest) e
          ∙ bind-some (answer_greeting cfg methods)
              (λ chosen. authenticate cfg chosen rest >>= read_message request_attempt) greeted
              answered method_no_auth
              (answer_greeting-some cfg methods greeted method_no_auth later chosen refl w)
          ∙ e',
      d',
    )
