-- ===== src/Server/Connect.antt =====
-- src/server/connect.rs: the CONNECT command, from its target to the end of its relay. The client's
-- stream is that of Server/Connection; what the upstream stream does is part of the arguments.
pub mod Dial
pub mod Relay
mod Tests
pub mod Laws
use next_socks.Prelude.{length, ℕ, ◌*◌, Bool, true, false, Option, none, some, List, [], ◌∷◌}
use next_socks.Wire.{Str}
use next_socks.Net.{ip_v4, ip_v6, SocketAddr}
use next_socks.Errors.{Socks5Error, not_allowed, host_unreachable, reply_code, IoErrorKind, from_io}
use next_socks.Config.{Config}
use next_socks.Metrics.{
  ConnKind, connected, closed, error, Metrics, register, unregister, add_up, record_error,
  record_success,
}
use next_socks.Protocol.Address.{Address, v4, v6}
use next_socks.Protocol.Reply.{rep_succeeded, encode_reply}
use next_socks.Server.Connection.{Conn, write_all, emit, unspecified, reply_failure}
use next_socks.Server.Connect.Dial.{
  EstablishError, dns, blocked, dial, Established, gave_up, Turn, establish,
}
use next_socks.Server.Connect.Relay.{Direction, Activity, open_pair, relay}

unfoldable pub socket_addr_to_address : SocketAddr → Address
socket_addr_to_address a = elim a.ip [ ip_v4 o ↦ v4 o a.port | ip_v6 o ↦ v6 o a.port ]

-- What the other side of a CONNECT does: the turns of the search or the end of a literal's dial, the
-- upstream's local address, whether the first bytes were written to it, the time then, and the
-- activity of the relay up to its end.
pub record Upstream : Type 0 where
  pub dial_result : Option IoErrorKind
  pub turns : List Turn
  pub local_addr : Option SocketAddr
  pub initial_written : Bool
  pub started : ℕ
  pub activity : List (Direction × Activity)

-- The client's side with the counters.
pub record Served : Type 0 where
  pub conn : Conn
  pub metrics : Metrics

-- The reply code that a failure to connect is answered with.
unfoldable pub error_of : EstablishError → Socks5Error
error_of dns = host_unreachable
error_of blocked = not_allowed
error_of (dial e) = from_io e

unfoldable pub fail : EstablishError → Served → Served
unfolding error_of
fail e s =
    let code = reply_code (error_of e) in
    record {
      conn = emit (error code) (reply_failure (error_of e) s.conn);
      metrics = record_error s.metrics code;
    }

abbrev pub bind_address : Option SocketAddr → Address
bind_address none = unspecified
bind_address (some a) = socket_addr_to_address a

-- The bytes behind the request go first; whether the relay may start, with the counters.
unfoldable pub send_initial : ℕ → List ℕ → Bool → Metrics → Bool × Metrics
send_initial id [] written m = (true, m)
send_initial id (b ∷ bs) true m = (true, add_up m id (length (b ∷ bs)))
send_initial id (b ∷ bs) false m = (false, m)

unfoldable pub relay_through : Config → ℕ → Upstream → Bool × Metrics → Metrics
relay_through cfg id up (true, m) =
    (relay (cfg.timeouts.tcp_idle_ms * 1_000_000) id up.activity (open_pair up.started m)).metrics
relay_through cfg id up (false, m) = m

-- After the success reply.
unfoldable pub serve_registered :
    Config → SocketAddr → Str → List ℕ → Upstream → ℕ × Metrics → Conn → Served
unfolding send_initial relay_through
serve_registered cfg peer target initial up (id, m) c =
    let relayed = relay_through cfg id up (send_initial id initial up.initial_written m) in
    record {
      conn = emit (closed id) (emit (connected id peer target ConnKind.connect) c);
      metrics = unregister (record_success relayed) id;
    }

-- Whether the success reply was written.
unfoldable pub after_reply :
    Config → SocketAddr → Str → List ℕ → Upstream → Metrics → Bool × Conn → Served
unfolding serve_registered
after_reply cfg peer target initial up m (false, c) = record { conn = c; metrics = m }
after_reply cfg peer target initial up m (true, c) =
    serve_registered cfg peer target initial up (register m peer target ConnKind.connect) c

unfoldable pub serve :
    Config → SocketAddr → Str → List ℕ → Upstream → Option Established → Served → Served
unfolding fail after_reply
serve cfg peer target initial up none s = s
serve cfg peer target initial up (some (gave_up e)) s = fail e s
serve cfg peer target initial up (some (Established.connected a)) s =
    after_reply cfg peer target initial up s.metrics
      (write_all (encode_reply rep_succeeded (bind_address up.local_addr) []) s.conn)

-- `run`. The text of the target, which only logs and the dashboard show, is a parameter.
unfoldable pub run :
    Config → (Address → Str) → Address → List ℕ → SocketAddr → ℕ → Upstream → Served → Served
unfolding establish serve
run cfg address_to_string target initial peer deadline up s =
    serve cfg peer (address_to_string target) initial up
      (establish cfg.egress deadline target up.dial_result up.turns).0 s
