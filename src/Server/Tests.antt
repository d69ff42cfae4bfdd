-- ===== src/Server/Tests.antt =====
-- The accept loop under a cap of one connection, and the handling of an authenticated CONNECT.
use next_socks.Server.Handle.Leaves.{handle-LeavesNothing}
use next_socks.Server.Connect.Laws.{LeavesNothing}
use next_socks.Protocol.Request.{parse_request}
use next_socks.Server.Handle.Answers.{reply_to, told, handle-Answers}
use next_socks.Server.Connect.Dial.{Established, establish}
use next_socks.Protocol.Address.{Address, v4, decode, encode, IsAddress}
use next_socks.Protocol.Handshake.{
  method_userpass, parse_greeting, contains, select_method, method_reply, parse_userpass,
  userpass_reply,
}
use next_socks.Wire.{IsBytes, is_utf8}
use next_socks.Server.Connect.{run as connect_run}
use next_socks.Server.Admission.{new as admission_new}
use next_socks.Server.Admission.History.{run as history_run}
use next_socks.Prelude.{
  ◌<◌, ◌≡◌, refl, ap, ◌≢◌, true, none, some, [], ◌∷◌, ◌++◌, mem-cons, or_inl, arith, ℕ_discrete,
}
use next_socks.Server.Connect.Relay.{relay}
use next_socks.Server.Connect.{socket_addr_to_address, Served}
use next_socks.Dns.{no_records_found}
use next_socks.Metrics.{auth, Metrics, u64_mod, new, register, unregister, record_success, active}
use next_socks.Auth.{ct_eq, verify_credentials}
use next_socks.Protocol.Reply.{encode_reply}
use next_socks.Config.Policy.{is_blocked}
use next_socks.Net.{ip_v4, SocketAddr, IpAddr-discrete}
use next_socks.Config.{password_required, Config, default_limits, default_config}
use next_socks.Server.Admission.History.{run-Sound}
use next_socks.Server.Accept.{
  accepted, task_ended, shutdown_changed, listen_with, accept_loop, Bounded, accept_loop-Bounded,
}
use next_socks.Server.Connection.{negotiate}
use next_socks.Server.Connection.Messages.{incoming}
use next_socks.Server.Handle.{Surroundings, handle, Authenticated, handle-Authenticated}

abbrev capped : Config
capped = record default_config {
  limits = record default_limits { max_connections = some 1; max_per_ip = some 1 };
}

abbrev peer : SocketAddr
peer = record { ip = ip_v4 (5 ∷ 6 ∷ 7 ∷ 8 ∷ []); port = 4000 }

accept_loop-Bounded_example : Bounded capped (
    accept_loop
      (accepted peer
        ∷ accepted peer
        ∷ shutdown_changed true
        ∷ accepted peer
        ∷ task_ended peer.ip
        ∷ [])
      (listen_with capped))
unfolding history_run admission_new
accept_loop-Bounded_example =
    accept_loop-Bounded capped
      (accepted peer
        ∷ accepted peer
        ∷ shutdown_changed true
        ∷ accepted peer
        ∷ task_ended peer.ip
        ∷ [])
      (listen_with capped) (run-Sound (some 1) (some 1) [])

abbrev guarded : Config
guarded = record default_config {
  auth = record {
    method = password_required;
    users = record { username = 0x75 ∷ []; password = 0x70 ∷ [] } ∷ [];
  };
}

abbrev client : Served
client = record {
  conn = record {
    stream = record {
      reads =
          (5 ∷ 1 ∷ 2 ∷ 1 ∷ 1 ∷ [])
          ∷ (0x75 ∷ 1 ∷ 0x70 ∷ 5 ∷ 1 ∷ 0 ∷ 1 ∷ 9 ∷ 8 ∷ 7 ∷ 6 ∷ 0 ∷ 80 ∷ [])
          ∷ [];
      writes = true ∷ true ∷ true ∷ [];
      sent = [];
    };
    events = [];
  };
  metrics = new;
}

abbrev surroundings : Surroundings
surroundings = record {
  peer = peer;
  in_time = true;
  address_to_string = λ a. [];
  deadline = 100;
  upstream = record {
    dial_result = none;
    turns = [];
    local_addr = none;
    initial_written = true;
    started = 0;
    activity = [];
  };
  resolver = record { ipv4 = λ host. no_records_found true; ipv6 = λ host. no_records_found true };
  local_addr = none;
  bind_port = λ port. none;
  cursor = 0;
  relay_named = true;
  system_port = 40000;
  relay_start = 0;
  inputs = [];
}

served : (handle guarded surroundings client).metrics.counters.successes ≡ 1
unfolding handle negotiate is_utf8 verify_credentials ct_eq parse_greeting select_method contains
    parse_userpass parse_request decode encode method_reply userpass_reply connect_run establish
    is_blocked register unregister record_success new IpAddr-discrete ℕ_discrete
    socket_addr_to_address encode_reply relay
served = refl

client-IsBytes : IsBytes (incoming client.conn)
client-IsBytes = ground arith

changes : (handle guarded surroundings client).metrics ≢ client.metrics
unfolding new
changes e = let same = ap (λ (m : Metrics). m.counters.successes) e in omega (arith, same, served)

handle-Authenticated_example : Authenticated guarded client.conn
handle-Authenticated_example =
    handle-Authenticated guarded surroundings client refl client-IsBytes changes

abbrev web : SocketAddr
web = record { ip = ip_v4 (9 ∷ 8 ∷ 7 ∷ 6 ∷ []); port = 80 }

abbrev target : Address
target = v4 (9 ∷ 8 ∷ 7 ∷ 6 ∷ []) 80

found : (establish guarded.egress 100 target none []).0 ≡ some (Established.connected web)
unfolding establish is_blocked
found = refl

utf8_user : is_utf8 (0x75 ∷ []) ≡ true
unfolding is_utf8
utf8_user = refl

utf8_pass : is_utf8 (0x70 ∷ []) ≡ true
unfolding is_utf8
utf8_pass = refl

target-IsAddress : IsAddress target
target-IsAddress = (ground arith, refl, ground arith)

handle-Answers_example :
    let c' = (handle guarded surroundings client).conn in
    (c'.stream.sent
      ≡ (([] ++ method_reply method_userpass) ++ userpass_reply true)
        ++ reply_to none (Established.connected web))
    × (c'.events
        ≡ ([] ++ auth true (0x75 ∷ []) ∷ [])
          ++ told client.metrics.next_id peer [] (Established.connected web))
unfolding encode
handle-Answers_example =
    handle-Answers guarded surroundings client (method_userpass ∷ []) (0x75 ∷ []) (0x70 ∷ []) target
      0 [] [] (Established.connected web) refl refl client-IsBytes refl (mem-cons.1 (or_inl refl))
      utf8_user utf8_pass (mem-cons.1 (or_inl refl)) target-IsAddress refl found

few : active client.metrics < u64_mod
unfolding active new
few = omega arith

handle-LeavesNothing_example :
    LeavesNothing client.metrics (handle guarded surroundings client).metrics
handle-LeavesNothing_example = handle-LeavesNothing guarded surroundings client few
