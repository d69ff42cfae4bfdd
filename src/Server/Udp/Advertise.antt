-- ===== src/Server/Udp/Advertise.antt =====
-- src/server/udp.rs: the address that a UDP association advertises, and the start of an association.
use next_socks.Prelude.{
  if◌then◌else◌, Result, ok, err, ℕ, Bool, true, false, ◌&&◌, not, Option, none, some, List, [],
  ◌∷◌,
}
use next_socks.Wire.{Str}
use next_socks.Net.{IpAddr, SocketAddr, is_ipv4, is_unspecified}
use next_socks.Errors.{Socks5Error, general, host_unreachable, reply_code, IoErrorKind}
use next_socks.Config.{AdvertiseHost, Config}
use next_socks.Dns.{Reason, DnsResolver, lookup}
use next_socks.Metrics.{udp, connected, error, Metrics, register, record_error}
use next_socks.Protocol.Reply.{rep_succeeded, encode_reply}
use next_socks.Server.Connection.{Conn, write_all, emit, reply_failure}
use next_socks.Server.Udp.{addr_from_socket, same_family}

-- `find(|ip| !ip.is_unspecified() && ip.is_ipv4() == bind_ip.is_ipv4())`.
unfoldable pub fitting : IpAddr → List SocketAddr → Option IpAddr
fitting bind_ip [] = none
fitting bind_ip (a ∷ rest) =
    let later = fitting bind_ip rest in
    if not (is_unspecified a.ip) && same_family a.ip bind_ip then some a.ip else later

abbrev pub of_lookup : IpAddr → Result (List SocketAddr) Reason → Option (Option IpAddr)
of_lookup bind_ip (err e) = none
of_lookup bind_ip (ok found) = elim (fitting bind_ip found) [
  | none ↦ none
  | some chosen ↦ some (some chosen)
]

-- `Ok(None)` is `some none`, and an error is `none`.
unfoldable pub resolve_advertise_ip :
    Option AdvertiseHost → IpAddr → DnsResolver → Option (Option IpAddr)
unfolding fitting lookup
resolve_advertise_ip none bind_ip resolver = some none
resolve_advertise_ip (some (AdvertiseHost.ip a)) bind_ip resolver =
    if is_unspecified a then some none else some (some a)
resolve_advertise_ip (some (AdvertiseHost.domain host)) bind_ip resolver =
    of_lookup bind_ip (lookup resolver host 0 (is_ipv4 bind_ip))

-- The client's connection and the counters, before the relay.
pub record Control : Type 0 where
  pub conn : Conn
  pub metrics : Metrics

unfoldable pub refuse_association : Bool → Socks5Error → Control → Control
refuse_association counted e s = record {
  conn = emit (error (reply_code e)) (reply_failure e s.conn);
  metrics = if counted then record_error s.metrics (reply_code e) else s.metrics;
}

abbrev pub udp_target : Str
udp_target =
    0x75 ∷ 0x64 ∷ 0x70 ∷ 0x2d ∷ 0x61 ∷ 0x73 ∷ 0x73 ∷ 0x6f ∷ 0x63 ∷ 0x69 ∷ 0x61 ∷ 0x74 ∷ 0x65 ∷ []

abbrev pub or_bound : Option IpAddr → IpAddr → IpAddr
or_bound none bound = bound
or_bound (some chosen) bound = chosen

unfoldable pub announce : SocketAddr → Bool × Conn → Metrics → Option ℕ × Control
announce peer (false, c) m = (none, record { conn = c; metrics = m })
announce peer (true, c) m =
    let (id, m') = register m peer udp_target udp in
    (some id, record { conn = emit (connected id peer udp_target udp) c; metrics = m' })

unfoldable pub advertise :
    SocketAddr → SocketAddr → Option (Option IpAddr) → Control → Option ℕ × Control
unfolding refuse_association announce
advertise peer bound none s = (none, refuse_association true host_unreachable s)
advertise peer bound (some chosen) s =
    let address : SocketAddr = record { ip = or_bound chosen bound.ip; port = bound.port } in
    announce peer (write_all (encode_reply rep_succeeded (addr_from_socket address) []) s.conn)
      s.metrics

-- The start of `run`, from the relay socket or the error of binding it: the id under which the
-- association is registered, where it starts. The address of the socket may be unknown.
unfoldable pub open_association :
    Config
    → DnsResolver
    → SocketAddr
    → Result (Option SocketAddr) IoErrorKind
    → Control
    → Option ℕ × Control
unfolding advertise resolve_advertise_ip
open_association cfg resolver peer (err e) s = (none, refuse_association false general s)
open_association cfg resolver peer (ok none) s = (none, s)
open_association cfg resolver peer (ok (some bound)) s =
    advertise peer bound (resolve_advertise_ip cfg.udp.advertise bound.ip resolver) s
