-- ===== src/Server/Handle/Leaves.antt =====
-- What is left of a connection in the counters and the registry, once it was handled.
use next_socks.Server.Connect.{}
use next_socks.Server.Udp.{run as udp_run, start as udp_start}
use next_socks.Protocol.Request.{Command, bind, udp_associate, Request}
use next_socks.Server.Udp.{Setup, addr_from_socket, tear_down}
use next_socks.Metrics.{
  ConnKind, connected, Metrics, u64_mod, register, record_error, connections, active,
}
use next_socks.Metrics.Registry.{register-unregister}
use next_socks.Server.Connect.{Served}
use next_socks.Server.Connect.Laws.{LeavesNothing, run-LeavesNothing}
use next_socks.Prelude.{
  if_elim, Result, ok, err, ℕ, ◌<◌, refl, Bool, true, false, Option, none, some, List, [],
}
use next_socks.Net.{IpAddr, SocketAddr, to_canonical}
use next_socks.Errors.{host_unreachable, reply_code, IoErrorKind}
use next_socks.Config.{Config}
use next_socks.Protocol.Reply.{rep_succeeded, encode_reply}
use next_socks.Server.Connection.{Conn, write_all, emit, negotiate}
use next_socks.Server.Udp.Quiet.{run-Quiet}
use next_socks.Server.Udp.Advertise.{
  resolve_advertise_ip, Control, refuse_association, udp_target, or_bound, announce, advertise,
  open_association,
}
use next_socks.Server.Udp.Bind.{bind_with_retry}
use next_socks.Server.Handle.{
  Surroundings, refuse_bind, relay_association, socket_on, serve_udp, serve_request, dispatch,
  handle,
}
use next_socks.Protocol.Address.{Address}

nothing : (m : Metrics) → LeavesNothing m m
nothing m = (refl, (λ k n. refl), (λ e. e))

error_counted : (m : Metrics) (code : ℕ) → LeavesNothing m (record_error m code)
unfolding record_error active connections
error_counted m code = (refl, (λ k n. refl), (λ e. e))

module _ (cfg : Config) (env : Surroundings) (local : IpAddr) where
  announce-LeavesNothing :
      (x : Bool × Conn) (m : Metrics)
      → active m < u64_mod
      → LeavesNothing m (relay_association cfg env local (announce env.peer x m)).metrics
  unfolding relay_association announce register tear_down udp_start
  announce-LeavesNothing (false, c) m small = nothing m
  announce-LeavesNothing (true, c) m small =
      let (id, m1) = register m env.peer udp_target ConnKind.udp in
      let control = emit (connected id env.peer udp_target ConnKind.udp) c in
      let setup : Setup = record {
        config = cfg;
        bind_ip = local;
        client_ip = to_canonical env.peer.ip;
        id = id;
      } in
      let begun = udp_start env.relay_start m1 control.events in
      let after = udp_run setup env.inputs begun in
      let (same, others, gone) =
        register-unregister m after.metrics env.peer udp_target ConnKind.udp small
          (run-Quiet setup env.inputs begun) in
      (same, others, λ e. gone)

  advertise-LeavesNothing :
      (bound : SocketAddr) (chosen : Option (Option IpAddr)) (s : Control)
      → active s.metrics < u64_mod
      → LeavesNothing s.metrics
          (relay_association cfg env local (advertise env.peer bound chosen s)).metrics
  unfolding advertise relay_association refuse_association
  advertise-LeavesNothing bound none s small = error_counted s.metrics (reply_code host_unreachable)
  advertise-LeavesNothing bound (some chosen) s small =
      let address : SocketAddr = record { ip = or_bound chosen bound.ip; port = bound.port } in
      announce-LeavesNothing
        (write_all (encode_reply rep_succeeded (addr_from_socket address) []) s.conn) s.metrics
        small

  open_association-LeavesNothing :
      (bound : Result (Option SocketAddr) IoErrorKind) (s : Control)
      → active s.metrics < u64_mod
      → LeavesNothing s.metrics
          (relay_association cfg env local
            (open_association cfg env.resolver env.peer bound s)).metrics
  unfolding open_association relay_association refuse_association
  open_association-LeavesNothing (err e) s small = nothing s.metrics
  open_association-LeavesNothing (ok none) s small = nothing s.metrics
  open_association-LeavesNothing (ok (some bound)) s small =
      advertise-LeavesNothing bound (resolve_advertise_ip cfg.udp.advertise bound.ip env.resolver) s
        small

module _ (cfg : Config) (env : Surroundings) where
  serve_udp-LeavesNothing :
      (address : Option IpAddr) (s : Served)
      → active s.metrics < u64_mod
      → LeavesNothing s.metrics (serve_udp cfg env address s).metrics
  unfolding serve_udp
  serve_udp-LeavesNothing none s small = nothing s.metrics
  serve_udp-LeavesNothing (some address) s small =
      let local = to_canonical address in
      let bound = bind_with_retry env.bind_port cfg.udp.port_range env.cursor in
      open_association-LeavesNothing cfg env local
        (socket_on env.relay_named env.system_port local bound.0)
        (record { conn = s.conn; metrics = s.metrics }) small

  serve_request-LeavesNothing :
      (command : Command) (target : Address) (initial : List ℕ) (s : Served)
      → active s.metrics < u64_mod
      → LeavesNothing s.metrics (serve_request cfg env command target initial s).metrics
  unfolding serve_request refuse_bind
  serve_request-LeavesNothing Command.connect target initial s small =
      run-LeavesNothing cfg env.address_to_string target initial env.peer env.deadline env.upstream
        s small
  serve_request-LeavesNothing udp_associate target initial s small =
      serve_udp-LeavesNothing env.local_addr s small
  serve_request-LeavesNothing bind target initial s small = nothing s.metrics

  dispatch-LeavesNothing :
      (x : Option (Request × List ℕ) × Conn) (m : Metrics)
      → active m < u64_mod
      → LeavesNothing m (dispatch cfg env x m).metrics
  unfolding dispatch
  dispatch-LeavesNothing (none, c) m small = nothing m
  dispatch-LeavesNothing (some (request, initial), c) m small =
      serve_request-LeavesNothing request.command request.address initial
        (record { conn = c; metrics = m }) small

-- Whatever a client sends and whatever happens while it is served, by CONNECT, by UDP ASSOCIATE or not
-- at all: once its connection was handled, as many connections are counted as active as before, no
-- other entry of the registry was touched, and none of its own is left.
pub handle-LeavesNothing :
    (cfg : Config) (env : Surroundings) (s : Served)
    → active s.metrics < u64_mod
    → LeavesNothing s.metrics (handle cfg env s).metrics
unfolding handle
handle-LeavesNothing cfg env s small =
    if_elim (λ (x : Served). LeavesNothing s.metrics x.metrics) env.in_time
      (dispatch cfg env (negotiate cfg s.conn) s.metrics) s
      (λ b. dispatch-LeavesNothing cfg env (negotiate cfg s.conn) s.metrics small)
      (λ b. nothing s.metrics)
