-- ===== src/Server/Handle.antt =====
-- src/server/connection.rs: `handle`, from the handshake to the end of what the client asked for.
pub mod Answers
pub mod Leaves
use next_socks.Protocol.Request.{Command, bind, udp_associate, Request}
use next_socks.Server.Connect.{run as connect_run}
use next_socks.Server.Udp.{run as udp_run, start as udp_start}
use next_socks.Server.Connect.{Upstream, Served}
use next_socks.Prelude.{
  ◌==◌, if◌then◌else◌, if_elim, Result, ok, err, ℕ, ◌≡◌, refl, ◌≢◌, Bool, true, false, Option, none,
  some, List, ◌++◌, Mem,
}
use next_socks.Wire.{IsBytes, Str}
use next_socks.Net.{IpAddr, SocketAddr, to_canonical}
use next_socks.Errors.{command_not_supported, reply_code, IoErrorKind}
use next_socks.Config.{password_required, Config}
use next_socks.Dns.{DnsResolver}
use next_socks.Metrics.{error, Metrics}
use next_socks.Protocol.Address.{Address, wire}
use next_socks.Protocol.Handshake.{method_userpass}
use next_socks.Protocol.Handshake.Greeting.{greeting}
use next_socks.Protocol.Handshake.Userpass.{credentials}
use next_socks.Protocol.Request.Laws.{message}
use next_socks.Server.Connection.{Conn, emit, reply_failure, negotiate}
use next_socks.Server.Connection.Messages.{incoming}
use next_socks.Server.Connection.Session.{negotiate-authenticated}
use next_socks.Server.Udp.{Setup, Input, tear_down}
use next_socks.Server.Udp.Advertise.{Control, open_association}
use next_socks.Server.Udp.Bind.{bind_with_retry}

-- What the rest of the world does while one connection is handled: whether the handshake ends before
-- its deadline, what a CONNECT meets, and what a UDP association meets, whose socket may have no
-- known address.
pub record Surroundings : Type 0 where
  pub peer : SocketAddr
  pub in_time : Bool
  pub address_to_string : Address → Str
  pub deadline : ℕ
  pub upstream : Upstream
  pub resolver : DnsResolver
  pub local_addr : Option IpAddr
  pub bind_port : ℕ → Option IoErrorKind
  pub cursor : ℕ
  pub relay_named : Bool
  pub system_port : ℕ
  pub relay_start : ℕ
  pub inputs : List Input

unfoldable pub refuse_bind : Served → Served
unfolding reply_failure emit
refuse_bind s = record s {
  conn =
      emit (error (reply_code command_not_supported)) (reply_failure command_not_supported s.conn);
}

-- The relay of an association that was opened, with the events of the connection.
unfoldable pub relay_association : Config → Surroundings → IpAddr → Option ℕ × Control → Served
unfolding udp_run tear_down
relay_association cfg env local (none, control) = record {
  conn = control.conn;
  metrics = control.metrics;
}
relay_association cfg env local (some id, control) =
    let setup : Setup = record {
      config = cfg;
      bind_ip = local;
      client_ip = to_canonical env.peer.ip;
      id = id;
    } in
    let begun = udp_start env.relay_start control.metrics control.conn.events in
    let ended = tear_down setup (udp_run setup env.inputs begun) in
    record { conn = record control.conn { events = ended.events }; metrics = ended.metrics }

-- The relay socket on an address of the control connection, as far as its `local_addr` tells; the
-- system chooses a port where port 0 is bound.
abbrev pub socket_on :
    Bool → ℕ → IpAddr → Result ℕ IoErrorKind → Result (Option SocketAddr) IoErrorKind
socket_on named system_port local (err e) = err e
socket_on false system_port local (ok port) = ok none
socket_on true system_port local (ok port) =
    ok (some (record { ip = local; port = if port == 0 then system_port else port }))

unfoldable pub serve_udp : Config → Surroundings → Option IpAddr → Served → Served
unfolding relay_association open_association bind_with_retry
serve_udp cfg env none s = s
serve_udp cfg env (some address) s =
    let local = to_canonical address in
    let bound = bind_with_retry env.bind_port cfg.udp.port_range env.cursor in
    relay_association cfg env local (
      open_association cfg env.resolver env.peer
        (socket_on env.relay_named env.system_port local bound.0)
        (record { conn = s.conn; metrics = s.metrics }))

unfoldable pub serve_request : Config → Surroundings → Command → Address → List ℕ → Served → Served
unfolding connect_run serve_udp refuse_bind
serve_request cfg env Command.connect address initial s =
    connect_run cfg env.address_to_string address initial env.peer env.deadline env.upstream s
serve_request cfg env udp_associate address initial s = serve_udp cfg env env.local_addr s
serve_request cfg env bind address initial s = refuse_bind s

-- What the handshake leads to.
unfoldable pub dispatch :
    Config → Surroundings → Option (Request × List ℕ) × Conn → Metrics → Served
unfolding serve_request
dispatch cfg env (none, c) m = record { conn = c; metrics = m }
dispatch cfg env (some (request, initial), c) m =
    serve_request cfg env request.command request.address initial (record { conn = c; metrics = m })

-- `handle`. A handshake that misses its deadline ends the connection; what it had sent until then
-- is left out.
unfoldable pub handle : Config → Surroundings → Served → Served
unfolding dispatch negotiate
handle cfg env s = if env.in_time then dispatch cfg env (negotiate cfg s.conn) s.metrics else s

-- What the connection's bytes must be for the counters and the registry to change.
abbrev pub Authenticated : Config → Conn → Type 0
Authenticated cfg c =
    (user : Str) × (pass : Str) × (methods : List ℕ) × (after : List ℕ) × Mem
      (record { username = user; password = pass }) cfg.auth.users
    × Mem method_userpass methods
    × (incoming c ≡ greeting methods ++ (credentials user pass ++ after))

dispatch-Authenticated :
    (cfg : Config) (env : Surroundings) (c c' : Conn) (r : Option (Request × List ℕ)) (m : Metrics)
    → cfg.auth.method ≡ password_required
    → IsBytes (incoming c)
    → negotiate cfg c ≡ (r, c')
    → (dispatch cfg env (r, c') m).metrics ≢ m
    → Authenticated cfg c
unfolding dispatch
dispatch-Authenticated cfg env c c' none m p b e n = absurd (n refl)
dispatch-Authenticated cfg env c c' (some (request, tail)) m p b e n =
    let (methods, user, pass, rsv, offered, known, wire, told) =
      negotiate-authenticated cfg c c' request tail p b e in
    (user, pass, methods, message request rsv ++ (tail ++ incoming c'), known, offered, wire)

-- Where a password is required, a connection whose handling changes any counter or the registry has
-- sent the credentials of a configured user, behind a greeting that offers them.
pub handle-Authenticated :
    (cfg : Config) (env : Surroundings) (s : Served)
    → cfg.auth.method ≡ password_required
    → IsBytes (incoming s.conn)
    → (handle cfg env s).metrics ≢ s.metrics
    → Authenticated cfg s.conn
unfolding handle
handle-Authenticated cfg env s p b n =
    let r = negotiate cfg s.conn in
    if_elim (λ (x : Served). x.metrics ≢ s.metrics → Authenticated cfg s.conn) env.in_time
      (dispatch cfg env r s.metrics) s
      (λ e. dispatch-Authenticated cfg env s.conn r.1 r.0 s.metrics p b refl)
      (λ e same. absurd (same refl)) n
