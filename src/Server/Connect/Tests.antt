-- ===== src/Server/Connect/Tests.antt =====
-- A CONNECT to a name with one public and one blocked address, and the relay behind it.
use next_socks.Prelude.{
  ℕ, ◌≡◌, refl, inl, inr, true, false, none, some, List, [], ◌∷◌, ◌++◌, arith, ℕ_discrete,
}
use next_socks.Net.{ip_v4, SocketAddr, IpAddr-discrete, SocketAddr-discrete}
use next_socks.Config.Policy.{is_blocked}
use next_socks.Config.{default_egress}
use next_socks.Errors.{timed_out}
use next_socks.Metrics.{new, add_up, add_down}
use next_socks.Protocol.Address.{Address}
use next_socks.Server.Connect.{Upstream, Served}
use next_socks.Server.Connect.Dial.{
  dial, Established, gave_up, Search, begin, answer_a, answer_aaaa, attempt_ended, attempt_expired,
  budget_expired, Turn, search, establish,
}
use next_socks.Server.Connect.Dial.Candidates.{Lawful, establish-Lawful}
use next_socks.Server.Connect.Dial.Outcomes.{Explained, search-Explained}
use next_socks.Server.Connect.Dial.Ends.{search_ends}
use next_socks.Server.Connect.Relay.Counts.{Counts}
use next_socks.Server.Connect.Relay.{
  Direction, upload, download, whole, cut, Activity, chunk, timeout, eof, open_pair, half,
  relay_step, relay,
}
use next_socks.Server.Connect.Relay.Laws.{received, StartsWith, relay-StartsWith, relay_idle}

abbrev public : SocketAddr
public = record { ip = ip_v4 (9 ∷ 8 ∷ 7 ∷ 6 ∷ []); port = 80 }

abbrev loopback : SocketAddr
loopback = record { ip = ip_v4 (127 ∷ 0 ∷ 0 ∷ 1 ∷ []); port = 80 }

abbrev peer : SocketAddr
peer = record { ip = ip_v4 (5 ∷ 6 ∷ 7 ∷ 8 ∷ []); port = 4000 }

abbrev name : Address
name = Address.domain (0x68 ∷ []) 80

-- Both lookups answer, the first attempt fails, and no candidate is left.
abbrev turns : List Turn
turns =
    record { top = 0; ready = answer_a (some (loopback ∷ public ∷ public ∷ [])); now = 1 }
    ∷ record { top = 1; ready = answer_aaaa none; now = 2 }
    ∷ record { top = 2; ready = attempt_expired; now = 3 }
    ∷ record { top = 3; ready = budget_expired; now = 4 }
    ∷ []

established :
    establish default_egress 100 name none turns ≡ (some (gave_up (dial timed_out)), public ∷ [])
unfolding establish IpAddr-discrete SocketAddr-discrete is_blocked ℕ_discrete
established = refl

establish-Lawful_example : Lawful default_egress (establish default_egress 100 name none turns)
establish-Lawful_example = establish-Lawful default_egress 100 name none turns

search-Explained_example :
    let r = search default_egress 100 turns (begin 100) in Explained r.0 r.1.dialled
search-Explained_example = search-Explained default_egress 100 turns (begin 100) refl

-- One attempt runs and one candidate waits.
abbrev waiting : Search
waiting = record {
  done_a = true;
  done_aaaa = true;
  queue = public ∷ [];
  seen = peer ∷ public ∷ [];
  refused = false;
  active = some peer;
  attempt_deadline = 50;
  last_error = none;
  dialled = peer ∷ [];
}

abbrev failures : List Turn
failures =
    record { top = 2; ready = attempt_ended (some timed_out); now = 3 }
    ∷ record { top = 3; ready = attempt_expired; now = 4 }
    ∷ record { top = 4; ready = attempt_expired; now = 5 }
    ∷ []

search_ends_example : (r : Established) × ((search default_egress 100 failures waiting).0 ≡ some r)
search_ends_example =
    search_ends default_egress 100 failures waiting refl
      (inl (timed_out, refl), (inr refl, (inr refl, tt))) (omega arith)

abbrev activity : List (Direction × Activity)
activity =
    (upload, chunk (1 ∷ 2 ∷ []) 5 whole)
    ∷ (download, chunk (3 ∷ []) 6 whole)
    ∷ (upload, eof)
    ∷ (download, chunk (4 ∷ 5 ∷ []) 7 (cut 1))
    ∷ []

relayed : (half upload (relay 10 1 activity (open_pair 0 new))).delivered ≡ 1 ∷ 2 ∷ []
unfolding relay half add_up add_down
relayed = refl

-- The write of the second chunk of the download stops after one byte, which is not counted.
relayed_down :
    let after = relay 10 1 activity (open_pair 0 new) in
    ((half download after).delivered ≡ 3 ∷ 4 ∷ []) × (after.metrics.counters.bytes_down ≡ 1)
unfolding relay half add_up add_down new
relayed_down = (refl, refl)

relay-StartsWith_example :
    (part : List ℕ) × ((half upload (relay 10 1 activity (open_pair 0 new))).delivered
      ≡ (half upload (open_pair 0 new)).delivered ++ part)
    × StartsWith (received upload activity) part
relay-StartsWith_example = relay-StartsWith 10 1 upload activity (open_pair 0 new)

relay_idle_example :
    let p' = relay_step 10 1 (download, chunk (3 ∷ []) 6 whole) (open_pair 0 new) in
    relay 10 1 ((upload, timeout 12) ∷ (download, timeout 15) ∷ []) p' ≡ p'
unfolding half
relay_idle_example =
    relay_idle 10 1 download (3 ∷ []) 6 ((upload, timeout 12) ∷ (download, timeout 15) ∷ [])
      (open_pair 0 new) refl ((12, refl, omega arith), ((15, refl, omega arith), tt))

abbrev upstream : Upstream
upstream = record {
  dial_result = none;
  turns = [];
  local_addr = some peer;
  initial_written = true;
  started = 0;
  activity = activity;
}

abbrev client : Served
client = record {
  conn = record { stream = record { reads = []; writes = true ∷ []; sent = [] }; events = [] };
  metrics = new;
}
