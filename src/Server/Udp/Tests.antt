-- ===== src/Server/Udp/Tests.antt =====
-- An association in which the client sends to two targets, one of them blocked, and gets a reply.
use next_socks.Prelude.{
  length, ◌+◌, ◌-◌, ◌≤◌, ◌≡◌, refl, true, none, some, List, [], ◌∷◌, arith, ℕ_discrete,
}
use next_socks.Server.Udp.Budget.{from_others, unsent}
use next_socks.Server.Udp.Rate.{run-Limited}
use next_socks.Net.{ip_v4, SocketAddr, IpAddr-discrete, SocketAddr-discrete}
use next_socks.Metrics.{new, add_up, add_down}
use next_socks.Server.Udp.{Relay, Setup, Answers, Input, datagram, max_targets, start, run}
use next_socks.Server.Udp.Filter.{SendsPermitted, run-Holds}
use next_socks.Server.Udp.Targets.{Tracked, run-Tracked}
use next_socks.Config.{default_config}
use next_socks.Config.Policy.{is_blocked}
use next_socks.Protocol.Address.{decode, encode}
use next_socks.Protocol.Udp.{decap_ref, encap}

abbrev home : SocketAddr
home = record { ip = ip_v4 (5 ∷ 6 ∷ 7 ∷ 8 ∷ []); port = 4000 }

abbrev public : SocketAddr
public = record { ip = ip_v4 (9 ∷ 8 ∷ 7 ∷ 6 ∷ []); port = 53 }

abbrev stranger : SocketAddr
stranger = record { ip = ip_v4 (5 ∷ 6 ∷ 7 ∷ 9 ∷ []); port = 4000 }

abbrev setup : Setup
setup = record { config = default_config; bind_ip = home.ip; client_ip = home.ip; id = 1 }

abbrev answers : Answers
answers = record { now = 7; lookup = λ host port. none; sent = true }

abbrev begun : Relay
begun = start 0 new []

abbrev inputs : List Input
inputs =
    datagram (0 ∷ 0 ∷ 0 ∷ 1 ∷ 9 ∷ 8 ∷ 7 ∷ 6 ∷ 0 ∷ 53 ∷ 1 ∷ []) home answers
    ∷ datagram (0 ∷ 0 ∷ 0 ∷ 1 ∷ 127 ∷ 0 ∷ 0 ∷ 1 ∷ 0 ∷ 53 ∷ 1 ∷ []) home answers
    ∷ datagram (2 ∷ []) public answers
    ∷ datagram (3 ∷ []) stranger answers
    ∷ []

-- One datagram goes out and one reply goes back.
relayed :
    (run setup inputs begun).sends
    ≡ (public, 1 ∷ []) ∷ (home, 0 ∷ 0 ∷ 0 ∷ 1 ∷ 9 ∷ 8 ∷ 7 ∷ 6 ∷ 0 ∷ 53 ∷ 2 ∷ []) ∷ []
unfolding run start IpAddr-discrete SocketAddr-discrete decap_ref decode encap encode is_blocked
    add_up add_down new ℕ_discrete
relayed = refl

run-Holds_example :
    SendsPermitted setup (run setup inputs begun)
    × ((a : SocketAddr) → begun.client ≡ some a → (run setup inputs begun).client ≡ some a)
unfolding start
run-Holds_example = run-Holds setup inputs begun tt

run-Tracked_example : Tracked (max_targets setup) (run setup inputs begun)
unfolding start max_targets
run-Tracked_example = run-Tracked setup inputs begun (refl, tt, omega arith)

-- A limit of one datagram in a second: the second of two is dropped.
abbrev limited : Setup
limited = record setup {
  config = record default_config {
    limits = record default_config.limits { udp_rate_pps = some 1 };
  };
}

abbrev known : Relay
known = record begun { client = some home; window_start = 7 }

abbrev pair : List Input
pair =
    datagram (0 ∷ 0 ∷ 0 ∷ 1 ∷ 9 ∷ 8 ∷ 7 ∷ 6 ∷ 0 ∷ 53 ∷ 1 ∷ []) home answers
    ∷ datagram (0 ∷ 0 ∷ 0 ∷ 1 ∷ 9 ∷ 8 ∷ 7 ∷ 6 ∷ 0 ∷ 53 ∷ 2 ∷ []) home answers
    ∷ []

run-Limited_example :
    let after = run limited pair known in
    (length after.sends ≤ 0 + (1 - 0) + from_others home pair + unsent pair)
    × (after.window_count ≤ 1)
unfolding start
run-Limited_example = run-Limited limited 1 home pair known refl refl (ground arith) (omega arith)
