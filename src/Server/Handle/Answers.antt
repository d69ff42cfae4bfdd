-- ===== src/Server/Handle/Answers.antt =====
-- What a client that keeps to the protocol is answered from its first byte to its last.
use next_socks.Protocol.Request.{Command, Request}
use next_socks.Metrics.{ConnKind, Event, connected, closed, auth, error, register}
use next_socks.Server.Connect.{serve as connect_serve, run as connect_run}
use next_socks.Server.Connect.Dial.{Established, gave_up, establish}
use next_socks.Server.Connect.{
  Upstream, Served, error_of, fail, bind_address, serve_registered, after_reply,
}
use next_socks.Prelude.{
  ℕ, ◌≡◌, refl, Bool, true, Option, some, List, [], ◌∷◌, ◌++◌, append_assoc, Mem,
}
use next_socks.Wire.{IsBytes, Str, is_utf8}
use next_socks.Net.{SocketAddr}
use next_socks.Errors.{reply_code}
use next_socks.Config.{password_required, Config}
use next_socks.Protocol.Reply.{rep_succeeded, encode_reply}
use next_socks.Server.Connection.{Conn, write_all, emit, unspecified, reply_failure}
use next_socks.Protocol.Address.{Address, IsAddress}
use next_socks.Protocol.Handshake.{method_userpass, method_reply, userpass_reply}
use next_socks.Protocol.Handshake.Greeting.{greeting}
use next_socks.Protocol.Handshake.Userpass.{credentials}
use next_socks.Protocol.Request.Laws.{message}
use next_socks.Server.Connection.Messages.{incoming}
use next_socks.Server.Connection.Complete.{negotiate-Serves}
use next_socks.Server.Handle.{Surroundings, serve_request, dispatch, handle}

-- The reply to a CONNECT, by how the search for its target ends.
abbrev pub reply_to : Option SocketAddr → Established → List ℕ
reply_to local (Established.connected a) = encode_reply rep_succeeded (bind_address local) []
reply_to local (gave_up e) = encode_reply (reply_code (error_of e)) unspecified []

-- The events that it causes.
abbrev pub told : ℕ → SocketAddr → Str → Established → List Event
told id peer target (Established.connected a) =
    connected id peer target ConnKind.connect ∷ closed id ∷ []
told id peer target (gave_up e) = error (reply_code (error_of e)) ∷ []

-- What is sent and told after what was sent and told before.
abbrev pub Adds : Conn → List ℕ → List Event → Conn → Type 0
Adds c sent events c' = (c'.stream.sent ≡ c.stream.sent ++ sent) × (c'.events ≡ c.events ++ events)

serve-Adds :
    (cfg : Config) (peer : SocketAddr) (target : Str) (initial : List ℕ) (up : Upstream)
    (outcome : Established) (s : Served) (later : List Bool)
    → s.conn.stream.writes ≡ true ∷ later
    → Adds s.conn
        (reply_to up.local_addr outcome)
        (told s.metrics.next_id peer target outcome)
        (connect_serve cfg peer target initial up (some outcome) s).conn
unfolding connect_serve after_reply serve_registered fail write_all reply_failure emit register
serve-Adds cfg peer target initial up (Established.connected a) s later w =
    rw w (refl, append_assoc s.conn.events _ _)
serve-Adds cfg peer target initial up (gave_up e) s later w = rw w (refl, refl)

-- A client that offers username and password, sends the credentials of a configured user and a
-- well-formed request to CONNECT in time, and can be written to, gets, in this order, the method, the
-- acceptance of its credentials, and the reply that belongs to how the search for its target ended:
-- the success reply with the address of the upstream socket, or the code of the error. The events say
-- the same. This holds however its bytes are cut into chunks.
pub handle-Answers :
    (cfg : Config) (env : Surroundings) (s : Served) (methods user pass : List ℕ) (target : Address)
    (rsv : ℕ) (behind : List ℕ) (later : List Bool) (outcome : Established)
    → cfg.auth.method ≡ password_required
    → env.in_time ≡ true
    → IsBytes (incoming s.conn)
    → incoming s.conn
      ≡ greeting methods
        ++ (credentials user pass
            ++ (message (record { command = Command.connect; address = target }) rsv ++ behind))
    → Mem method_userpass methods
    → is_utf8 user ≡ true
    → is_utf8 pass ≡ true
    → Mem (record { username = user; password = pass }) cfg.auth.users
    → IsAddress target
    → s.conn.stream.writes ≡ true ∷ true ∷ true ∷ later
    → (establish cfg.egress env.deadline target env.upstream.dial_result env.upstream.turns).0
      ≡ some outcome
    → let c' = (handle cfg env s).conn in
      (c'.stream.sent
        ≡ ((s.conn.stream.sent ++ method_reply method_userpass) ++ userpass_reply true)
          ++ reply_to env.upstream.local_addr outcome)
      × (c'.events
          ≡ (s.conn.events ++ auth true user ∷ [])
            ++ told s.metrics.next_id env.peer (env.address_to_string target) outcome)
unfolding handle dispatch serve_request connect_run
handle-Answers cfg env s methods user pass target rsv behind later outcome q in_time b split offered
      u p known good w found =
    let r : Request = record { command = Command.connect; address = target } in
    let (rest, reads, served, left) =
      negotiate-Serves cfg s.conn methods user pass r rsv behind (true ∷ later) q b split offered u
        p known good w in
    let c : Conn = record {
      stream = record {
        reads = reads;
        writes = true ∷ later;
        sent = (s.conn.stream.sent ++ method_reply method_userpass) ++ userpass_reply true;
      };
      events = s.conn.events ++ auth true user ∷ [];
    } in
    let adds =
      serve-Adds cfg env.peer (env.address_to_string target) rest env.upstream outcome
        (record { conn = c; metrics = s.metrics }) later refl in
    rw in_time (rw served (rw found adds))
