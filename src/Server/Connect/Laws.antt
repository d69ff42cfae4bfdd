-- ===== src/Server/Connect/Laws.antt =====
-- What serving a CONNECT request leaves behind, and what the client is told where it fails.
use next_socks.Server.Connect.{
  Upstream, Served, fail, bind_address, send_initial, relay_through, serve_registered, after_reply,
  serve, run,
}
use next_socks.Prelude.{
  leb, if_elim, length, take, ℕ, ◌-◌, ◌*◌, ◌<◌, ◌≡◌, refl, sym, subst, Bool, true, false, Option,
  none, some, List, [], ◌∷◌, ◌++◌,
}
use next_socks.Config.{Config}
use next_socks.Metrics.{
  ConnKind, Metrics, u64_mod, find, register, record_error, connections, active,
}
use next_socks.Metrics.Registry.{
  SameElsewhere, Quiet, Quiet-refl, Quiet-trans, add_up-Quiet, add_down-Quiet, register-unregister,
}
use next_socks.Server.Connect.Relay.{
  Direction, upload, download, whole, cut, Activity, chunk, timeout, eof, read_error, broken, Half,
  Pair, open_pair, half, set_half, count_bytes, close_half, advance, is_running, relay_step, relay,
}
use next_socks.Wire.{Str}
use next_socks.Net.{SocketAddr}
use next_socks.Protocol.Address.{Address}
use next_socks.Protocol.Reply.{rep_succeeded, encode_reply}
use next_socks.Server.Connection.{Conn, write_all}
use next_socks.Server.Connect.Dial.{Established, gave_up, establish}

count_bytes-Quiet : (d : Direction) (id n : ℕ) (m : Metrics) → Quiet id m (count_bytes d id n m)
unfolding count_bytes
count_bytes-Quiet upload id n m = add_up-Quiet m id n
count_bytes-Quiet download id n m = add_down-Quiet m id n

set_half-metrics : (d : Direction) (h : Half) (p : Pair) → (set_half d h p).metrics ≡ p.metrics
unfolding set_half
set_half-metrics upload h p = refl
set_half-metrics download h p = refl

set_half-Quiet :
    (d : Direction) (h : Half) (id : ℕ) (p : Pair) → Quiet id p.metrics (set_half d h p).metrics
set_half-Quiet d h id p =
    subst (Quiet id p.metrics) (sym (set_half-metrics d h p)) (Quiet-refl id p.metrics)

advance-Quiet :
    (idle id : ℕ) (d : Direction) (a : Activity) (p : Pair)
    → Quiet id p.metrics (advance idle id d a p).metrics
unfolding advance
advance-Quiet idle id d (chunk bytes now whole) p = count_bytes-Quiet d id (length bytes) p.metrics
advance-Quiet idle id d (chunk bytes now (cut n)) p =
    let h = half d p in
    set_half-Quiet d (record h { status = broken; delivered = h.delivered ++ take n bytes }) id p
advance-Quiet idle id d (timeout now) p =
    if_elim (λ (x : Pair). Quiet id p.metrics x.metrics) (leb idle (now - p.last_activity))
      (set_half d (close_half (half d p)) p) p (λ b. set_half-Quiet d (close_half (half d p)) id p)
      (λ b. Quiet-refl id p.metrics)
advance-Quiet idle id d eof p = set_half-Quiet d (close_half (half d p)) id p
advance-Quiet idle id d read_error p = set_half-Quiet d (record (half d p) { status = broken }) id p

relay_step-Quiet :
    (idle id : ℕ) (x : Direction × Activity) (p : Pair)
    → Quiet id p.metrics (relay_step idle id x p).metrics
unfolding relay_step
relay_step-Quiet idle id (d, a) p =
    if_elim (λ (x : Pair). Quiet id p.metrics x.metrics) (is_running (half d p))
      (advance idle id d a p) p (λ b. advance-Quiet idle id d a p) (λ b. Quiet-refl id p.metrics)

relay-Quiet :
    (idle id : ℕ) (activity : List (Direction × Activity)) (p : Pair)
    → Quiet id p.metrics (relay idle id activity p).metrics
unfolding relay
relay-Quiet idle id [] p = Quiet-refl id p.metrics
relay-Quiet idle id (x ∷ later) p =
    let p' = relay_step idle id x p in
    Quiet-trans id p.metrics p'.metrics (relay idle id later p').metrics
      (relay_step-Quiet idle id x p) (relay-Quiet idle id later p')

send_initial-Quiet :
    (id : ℕ) (bytes : List ℕ) (written : Bool) (m : Metrics)
    → Quiet id m (send_initial id bytes written m).1
unfolding send_initial
send_initial-Quiet id [] written m = Quiet-refl id m
send_initial-Quiet id (b ∷ bs) true m = add_up-Quiet m id (length (b ∷ bs))
send_initial-Quiet id (b ∷ bs) false m = Quiet-refl id m

relay_through-Quiet :
    (cfg : Config) (id : ℕ) (up : Upstream) (x : Bool × Metrics)
    → Quiet id x.1 (relay_through cfg id up x)
unfolding relay_through
relay_through-Quiet cfg id up (true, m) =
    relay-Quiet (cfg.timeouts.tcp_idle_ms * 1_000_000) id up.activity (open_pair up.started m)
relay_through-Quiet cfg id up (false, m) = Quiet-refl id m

-- What is left of a connection that has ended.
abbrev pub LeavesNothing : Metrics → Metrics → Type 0
LeavesNothing m m' =
    (active m' ≡ active m)
    × SameElsewhere m.next_id m m'
    × (find m.next_id (connections m) ≡ none → find m.next_id (connections m') ≡ none)

serve_registered-LeavesNothing :
    (cfg : Config) (peer : SocketAddr) (target : Str) (initial : List ℕ) (up : Upstream)
    (m : Metrics) (c : Conn)
    → active m < u64_mod
    → LeavesNothing m
        (serve_registered cfg peer target initial up
          (register m peer target ConnKind.connect)
          c).metrics
unfolding serve_registered register
serve_registered-LeavesNothing cfg peer target initial up m c small =
    let (id, m1) = register m peer target ConnKind.connect in
    let sent = send_initial id initial up.initial_written m1 in
    let m2 = relay_through cfg id up sent in
    let quiet =
      Quiet-trans id m1 sent.1 m2 (send_initial-Quiet id initial up.initial_written m1)
        (relay_through-Quiet cfg id up sent) in
    let (same, others, gone) = register-unregister m m2 peer target ConnKind.connect small quiet in
    (same, others, λ e. gone)

after_reply-LeavesNothing :
    (cfg : Config) (peer : SocketAddr) (target : Str) (initial : List ℕ) (up : Upstream)
    (m : Metrics) (x : Bool × Conn)
    → active m < u64_mod
    → LeavesNothing m (after_reply cfg peer target initial up m x).metrics
unfolding after_reply
after_reply-LeavesNothing cfg peer target initial up m (true, c) small =
    serve_registered-LeavesNothing cfg peer target initial up m c small
after_reply-LeavesNothing cfg peer target initial up m (false, c) small =
    (refl, (λ k n. refl), (λ e. e))

serve-LeavesNothing :
    (cfg : Config) (peer : SocketAddr) (target : Str) (initial : List ℕ) (up : Upstream)
    (r : Option Established) (s : Served)
    → active s.metrics < u64_mod
    → LeavesNothing s.metrics (serve cfg peer target initial up r s).metrics
unfolding serve fail record_error active connections
serve-LeavesNothing cfg peer target initial up none s small = (refl, (λ k n. refl), (λ e. e))
serve-LeavesNothing cfg peer target initial up (some (gave_up e)) s small =
    (refl, (λ k n. refl), (λ e. e))
serve-LeavesNothing cfg peer target initial up (some (Established.connected a)) s small =
    after_reply-LeavesNothing cfg peer target initial up s.metrics
      (write_all (encode_reply rep_succeeded (bind_address up.local_addr) []) s.conn) small

-- However a CONNECT request ends, it leaves the number of active connections as it was, if that was a
-- 64-bit number, changes no entry of the registry under another id than the next one, and leaves no
-- entry under that one where there was none.
pub run-LeavesNothing :
    (cfg : Config) (address_to_string : Address → Str) (target : Address) (initial : List ℕ)
    (peer : SocketAddr) (deadline : ℕ) (up : Upstream) (s : Served)
    → active s.metrics < u64_mod
    → LeavesNothing s.metrics (run cfg address_to_string target initial peer deadline up s).metrics
unfolding run
run-LeavesNothing cfg address_to_string target initial peer deadline up s small =
    serve-LeavesNothing cfg peer (address_to_string target) initial up
      (establish cfg.egress deadline target up.dial_result up.turns).0 s small
