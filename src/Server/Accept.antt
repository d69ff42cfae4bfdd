-- ===== src/Server/Accept.antt =====
-- src/server/mod.rs: the accept loop. A pass of it is one step on what is ready: a connection, an
-- error of `accept`, the end of a connection's task, or a change of the shutdown signal.
use next_socks.Server.Admission.{Admission, new, try_admit, release}
use next_socks.Prelude.{
  ltb, if◌then◌else◌, if_elim, ◌≡◌, refl, sym, subst, Bool, true, false, List, [], ◌∷◌, ◌++◌,
}
use next_socks.Net.{IpAddr, SocketAddr}
use next_socks.Metrics.{Event, log}
use next_socks.Config.{Config}
use next_socks.Server.Admission.Laws.{count, take_out}
use next_socks.Server.Admission.History.{act, Sound, arrive-Sound, leave-Sound}

pub data Ready : Type 0 where
  accepted : SocketAddr → Ready
  accept_error : Ready
  task_ended : IpAddr → Ready
  shutdown_changed : Bool → Ready

-- `admission` stands with the addresses of the permits that are out; each belongs to a task that runs.
pub record Listening : Type 0 where
  pub admission : Admission
  pub tasks : List IpAddr
  pub events : List Event
  pub accepting : Bool

abbrev pub listen_with : Config → Listening
listen_with cfg = record {
  admission = new cfg.limits.max_connections cfg.limits.max_per_ip;
  tasks = [];
  events = [];
  accepting = true;
}

unfoldable pub add_log : Listening → Listening
add_log l = record l { events = l.events ++ log ∷ [] }

-- A connection that is not admitted is dropped.
unfoldable pub admit : IpAddr → Bool × Admission → Listening → Listening
unfolding add_log
admit ip (true, a) l = record l { admission = a; tasks = ip ∷ l.tasks }
admit ip (false, a) l = add_log (record l { admission = a })

-- A task drops its permit when it ends.
unfoldable pub end_task : IpAddr → Listening → Listening
end_task ip l =
    if ltb 0 (count ip l.tasks)
    then record l { admission = release ip l.admission; tasks = take_out ip l.tasks }
    else l

unfoldable pub pass : Ready → Listening → Listening
unfolding admit end_task add_log
pass (accepted peer) l = admit peer.ip (try_admit peer.ip l.admission) l
pass accept_error l = add_log l
pass (task_ended ip) l = end_task ip l
pass (shutdown_changed stop) l = if stop then record l { accepting = false } else l

-- After the shutdown the loop only drains: it waits for tasks to end.
unfoldable pub open_to : Ready → Listening → Bool
open_to (task_ended ip) l = true
open_to r l = l.accepting

unfoldable pub accept_loop : List Ready → Listening → Listening
unfolding pass open_to
accept_loop [] l = l
accept_loop (r ∷ rest) l = accept_loop rest (if open_to r l then pass r l else l)

-- The tasks that run are those that the admission control counts, and they stay within the caps.
abbrev pub Bounded : Config → Listening → Type 0
Bounded cfg l = Sound cfg.limits.max_connections cfg.limits.max_per_ip (l.admission, l.tasks)

abbrev counts : Listening → Admission × List IpAddr
counts l = (l.admission, l.tasks)

admit-counts :
    (ip : IpAddr) (r : Bool × Admission) (l : Listening)
    → counts (admit ip r l) ≡ (r.1, if r.0 then ip ∷ l.tasks else l.tasks)
unfolding admit add_log
admit-counts ip (true, a) l = refl
admit-counts ip (false, a) l = refl

module _ (cfg : Config) where
  abbrev InBounds : Admission × List IpAddr → Type 0
  InBounds = Sound cfg.limits.max_connections cfg.limits.max_per_ip

  admit-Bounded :
      (ip : IpAddr) (l : Listening)
      → Bounded cfg l
      → Bounded cfg (admit ip (try_admit ip l.admission) l)
  unfolding act
  admit-Bounded ip l h =
      subst InBounds (sym (admit-counts ip (try_admit ip l.admission) l))
        (arrive-Sound cfg.limits.max_connections cfg.limits.max_per_ip (counts l) ip h)

  end_task-Bounded : (ip : IpAddr) (l : Listening) → Bounded cfg l → Bounded cfg (end_task ip l)
  unfolding end_task act
  end_task-Bounded ip l h =
      let left = leave-Sound cfg.limits.max_connections cfg.limits.max_per_ip (counts l) ip h in
      if_elim (Bounded cfg) (ltb 0 (count ip l.tasks))
        (record l { admission = release ip l.admission; tasks = take_out ip l.tasks }) l
        (λ b. rw b at left) (λ b. h)

  pass-Bounded : (r : Ready) (l : Listening) → Bounded cfg l → Bounded cfg (pass r l)
  unfolding pass add_log
  pass-Bounded (accepted peer) l h = admit-Bounded peer.ip l h
  pass-Bounded accept_error l h = h
  pass-Bounded (task_ended ip) l h = end_task-Bounded ip l h
  pass-Bounded (shutdown_changed stop) l h =
      if_elim (Bounded cfg) stop (record l { accepting = false }) l (λ b. h) (λ b. h)

  -- Whatever the loop meets, the connections whose tasks run stay those that the admission control
  -- counts, and they stay within the configured caps, in total and for each address.
  pub accept_loop-Bounded :
      (rs : List Ready) (l : Listening) → Bounded cfg l → Bounded cfg (accept_loop rs l)
  unfolding accept_loop
  accept_loop-Bounded [] l h = h
  accept_loop-Bounded (r ∷ rest) l h =
      accept_loop-Bounded rest (if open_to r l then pass r l else l)
        (if_elim (Bounded cfg) (open_to r l) (pass r l) l (λ b. pass-Bounded r l h) (λ b. h))
