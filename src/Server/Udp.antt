-- ===== src/Server/Udp.antt =====
-- src/server/udp.rs: the relay loop of a UDP association.
-- One pass of `tokio::select!` is one step on an input: what arrived, together with what the clock,
-- the resolver and the socket answer while it is handled. The set of known targets keeps the order
-- of insertion here; the source reads only whether an address is in it.

pub mod Filter
pub mod Targets
pub mod Budget
pub mod Rate
pub mod Quiet
pub mod Bind
pub mod Advertise
mod Tests
use next_socks.Prelude.{
  ltb, leb, ◌==◌, if◌then◌else◌, Result, ok, err, length, ℕ, ◌+◌, ◌-◌, max, Bool, true, false, ◌&&◌,
  not, Option, none, some, List, [], ◌∷◌, ◌++◌,
}
use next_socks.Wire.{Str}
use next_socks.Net.{IpAddr, ip_v4, ip_v6, SocketAddr, is_ipv4, same_ip, same_socket, has, discard}
use next_socks.Errors.{host_unreachable, reply_code}
use next_socks.Metrics.{Event, closed, error, Metrics, unregister, add_up, add_down, record_success}
use next_socks.Config.{Config}
use next_socks.Config.Policy.{is_blocked}
use next_socks.Protocol.Address.{Address, v4, v6}
use next_socks.Protocol.Udp.{UdpDatagram, UdpError, decap_ref, encap}

-- `known` is `HashSet<SocketAddr>`, `order` is `VecDeque<SocketAddr>`; `sends` lists the datagrams
-- handed to the socket, the newest last. Times are in milliseconds.
pub record Relay : Type 0 where
  pub client : Option SocketAddr
  pub known : List SocketAddr
  pub order : List SocketAddr
  pub last_dns_error : Option ℕ
  pub window_start : ℕ
  pub window_count : ℕ
  pub sends : List (SocketAddr × List ℕ)
  pub metrics : Metrics
  pub events : List Event

-- What stays fixed for an association.
pub record Setup : Type 0 where
  pub config : Config
  pub bind_ip : IpAddr
  pub client_ip : IpAddr
  pub id : ℕ

-- The answers of the clock, of the resolver and of `send_to`.
pub record Answers : Type 0 where
  pub now : ℕ
  pub lookup : Str → ℕ → Option (List SocketAddr)
  pub sent : Bool

pub data Input : Type 0 where
  datagram : List ℕ → SocketAddr → Answers → Input
  receive_failed : Input
  control_data : Input
  control_closed : Input
  shutdown_changed : Bool → Input

unfoldable pub addr_from_socket : SocketAddr → Address
addr_from_socket a = elim a.ip [ ip_v4 o ↦ v4 o a.port | ip_v6 o ↦ v6 o a.port ]

unfoldable pub is_client : Setup → SocketAddr → Relay → Bool
is_client s src r = elim r.client [
  | some known ↦ same_socket src known
  | none ↦ same_ip src.ip s.client_ip
]

unfoldable pub lock_client : SocketAddr → Relay → Relay
lock_client src r = elim r.client [ none ↦ record r { client = some src } | some known ↦ r ]

-- The one-second window; whether the budget lets another datagram through.
unfoldable pub roll_window : ℕ → Relay → Relay
roll_window now r =
    if leb 1000 (now - r.window_start) then record r { window_start = now; window_count = 0 } else r

unfoldable pub check_rate : Option ℕ → ℕ → Relay → Bool × Relay
unfolding roll_window
check_rate none now r = (true, r)
check_rate (some limit) now r = let r' = roll_window now r in (ltb r'.window_count limit, r')

abbrev pub same_family : IpAddr → IpAddr → Bool
same_family (ip_v4 a) b = is_ipv4 b
same_family (ip_v6 a) b = not (is_ipv4 b)

-- `addresses.into_iter().find(..)`.
unfoldable pub usable : Setup → List SocketAddr → Option SocketAddr
usable s [] = none
usable s (a ∷ rest) =
    let later = usable s rest in
    if same_family a.ip s.bind_ip && not (is_blocked s.config.egress a.ip) then some a else later

-- The error event of a failed lookup, at most one a second.
unfoldable pub note_dns_error : ℕ → Relay → Relay
note_dns_error now r =
    let due : Bool = elim r.last_dns_error [ none ↦ true | some at ↦ leb 1000 (now - at) ] in
    if due
    then record r {
      last_dns_error = some now;
      events = r.events ++ error (reply_code host_unreachable) ∷ [];
    }
    else r

unfoldable pub resolve_target : Setup → Answers → Address → Relay → Option SocketAddr × Relay
unfolding usable note_dns_error
resolve_target s ans (v4 o port) r = (some (record { ip = ip_v4 o; port = port }), r)
resolve_target s ans (v6 o port) r = (some (record { ip = ip_v6 o; port = port }), r)
resolve_target s ans (Address.domain host port) r = elim (ans.lookup host port) [
  | some addresses ↦ (usable s addresses, r)
  | none ↦ (none, note_dns_error ans.now r)
]

unfoldable pub max_targets : Setup → ℕ
max_targets s = max s.config.limits.udp_max_targets 1

unfoldable pub drop_oldest : List SocketAddr → Relay → Relay
drop_oldest [] r = r
drop_oldest (old ∷ rest) r = record r { order = rest; known = discard old r.known }

-- The oldest target goes when there are too many.
unfoldable pub evict : ℕ → Relay → Relay
unfolding drop_oldest
evict limit r = if ltb limit (length r.order) then drop_oldest r.order r else r

unfoldable pub track : ℕ → SocketAddr → Relay → Relay
unfolding evict
track limit target r =
    if has target r.known
    then r
    else evict limit (record r { known = r.known ++ target ∷ []; order = r.order ++ target ∷ [] })

unfoldable pub push_send : SocketAddr → List ℕ → Relay → Relay
push_send dst bytes r = record r { sends = r.sends ++ (dst, bytes) ∷ [] }

-- A successful send counts against the budget.
unfoldable pub count_send : Setup → Relay → Relay
count_send s r = elim s.config.limits.udp_rate_pps [
  | none ↦ r
  | some limit ↦ record r { window_count = r.window_count + 1 }
]

-- What follows a successful send.
unfoldable pub after_send : Setup → SocketAddr → List ℕ → Relay → Relay
unfolding track max_targets count_send
after_send s target payload r =
    let tracked = track (max_targets s) target (count_send s r) in
    record tracked { metrics = add_up tracked.metrics s.id (length payload) }

unfoldable pub forward : Setup → Answers → SocketAddr → List ℕ → Relay → Relay
unfolding push_send after_send
forward s ans target payload r =
    if is_blocked s.config.egress target.ip
    then r
    else (let r' = push_send target payload r in
        if ans.sent then after_send s target payload r' else r')

unfoldable pub forward_resolved : Setup → Answers → List ℕ → Option SocketAddr × Relay → Relay
unfolding forward
forward_resolved s ans payload (none, r) = r
forward_resolved s ans payload (some target, r) = forward s ans target payload r

unfoldable pub within_budget : Setup → Answers → UdpDatagram → Bool × Relay → Relay
unfolding resolve_target forward_resolved
within_budget s ans d (true, r) =
    forward_resolved s ans d.payload (resolve_target s ans d.address r)
within_budget s ans d (false, r) = r

-- A datagram of the client, once its header is read.
unfoldable pub relay_out : Setup → Answers → Result UdpDatagram UdpError → Relay → Relay
unfolding check_rate within_budget
relay_out s ans (err e) r = r
relay_out s ans (ok d) r =
    if d.frag == 0
    then within_budget s ans d (check_rate s.config.limits.udp_rate_pps ans.now r)
    else r

unfoldable pub from_client : Setup → Answers → List ℕ → Relay → Relay
unfolding relay_out
from_client s ans bytes r = relay_out s ans (decap_ref bytes) r

-- A reply of a known target.
unfoldable pub from_target : Setup → List ℕ → SocketAddr → Relay → Relay
unfolding push_send addr_from_socket
from_target s bytes src r = elim r.client [
  | none ↦ r
  | some dst ↦
      let r' = push_send dst (encap (addr_from_socket src) bytes []) r in
      record r' { metrics = add_down r'.metrics s.id (length bytes) }
]

unfoldable pub on_datagram : Setup → List ℕ → SocketAddr → Answers → Relay → Relay
unfolding is_client lock_client from_client from_target
on_datagram s bytes src ans r =
    if is_client s src r
    then from_client s ans bytes (lock_client src r)
    else if has src r.known
    then from_target s bytes src r
    else r

-- One pass of the loop: whether it goes on.
unfoldable pub step : Setup → Input → Relay → Bool × Relay
unfolding on_datagram
step s (datagram bytes src ans) r = (true, on_datagram s bytes src ans r)
step s receive_failed r = (false, r)
step s control_data r = (true, r)
step s control_closed r = (false, r)
step s (shutdown_changed stop) r = (not stop, r)

unfoldable pub start : ℕ → Metrics → List Event → Relay
start now m events = record {
  client = none;
  known = [];
  order = [];
  last_dns_error = none;
  window_start = now;
  window_count = 0;
  sends = [];
  metrics = m;
  events = events;
}

-- The loop over the inputs until one ends it.
unfoldable pub run : Setup → List Input → Relay → Relay
unfolding step
run s [] r = r
run s (i ∷ is) r =
    let next = step s i r in let rest = run s is next.1 in if next.0 then rest else next.1

-- The end of the association.
unfoldable pub tear_down : Setup → Relay → Relay
tear_down s r = record r {
  metrics = unregister (record_success r.metrics) s.id;
  events = r.events ++ closed s.id ∷ [];
}
