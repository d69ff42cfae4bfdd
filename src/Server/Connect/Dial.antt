-- ===== src/Server/Connect/Dial.antt =====
-- src/server/connect.rs: `establish`, which looks up both address families and dials the candidates
-- at the same time. One pass of its loop is one turn: the time at its top, and the first branch of
-- the `select!` to be ready with the time then. The two DNS queries and the connection attempts are
-- the environment's: their results are part of the turns. Times are in nanoseconds. The texts of
-- DNS errors are left out.
pub mod Candidates
pub mod Outcomes
pub mod Ends
use next_socks.Prelude.{
  ltb, if◌then◌else◌, is_some, length, ℕ, ◌+◌, ◌-◌, ◌/◌, ◌^◌, min, Bool, true, false, ◌&&◌, ◌||◌,
  not, Option, none, some, List, [], ◌∷◌, ◌++◌,
}
use next_socks.Net.{ip_v4, ip_v6, SocketAddr, has}
use next_socks.Errors.{IoErrorKind, timed_out}
use next_socks.Config.{Egress}
use next_socks.Config.Policy.{is_blocked}
use next_socks.Protocol.Address.{Address, v4, v6}

pub data EstablishError : Type 0 where
  dns : EstablishError
  blocked : EstablishError
  dial : IoErrorKind → EstablishError

-- The stream is known by the address that it leads to.
pub data Established : Type 0 where
  connected : SocketAddr → Established
  gave_up : EstablishError → Established

-- The locals of the loop. `dialled` lists the calls of `TcpStream::connect` so far.
pub record Search : Type 0 where
  pub done_a : Bool
  pub done_aaaa : Bool
  pub queue : List SocketAddr
  pub seen : List SocketAddr
  pub refused : Bool
  pub active : Option SocketAddr
  pub attempt_deadline : ℕ
  pub last_error : Option IoErrorKind
  pub dialled : List SocketAddr

abbrev pub begin : ℕ → Search
begin deadline = record {
  done_a = false;
  done_aaaa = false;
  queue = [];
  seen = [];
  refused = false;
  active = none;
  attempt_deadline = deadline;
  last_error = none;
  dialled = [];
}

-- What makes a branch of the `select!` ready. A failed lookup has no addresses.
pub data Ready : Type 0 where
  answer_a : Option (List SocketAddr) → Ready
  answer_aaaa : Option (List SocketAddr) → Ready
  attempt_ended : Option IoErrorKind → Ready
  attempt_expired : Ready
  budget_expired : Ready

pub record Turn : Type 0 where
  pub top : ℕ
  pub ready : Ready
  pub now : ℕ

unfoldable pub offer : Egress → SocketAddr → Search → Search
offer egress address s =
    if is_blocked egress address.ip
    then record s { refused = true }
    else if has address s.seen
    then s
    else record s { seen = s.seen ++ address ∷ []; queue = s.queue ++ address ∷ [] }

unfoldable pub add_candidates : Egress → List SocketAddr → Search → Search
unfolding offer
add_candidates egress [] s = s
add_candidates egress (address ∷ rest) s = add_candidates egress rest (offer egress address s)

-- `u32::try_from(queue.len() + 1).unwrap_or(u32::MAX)`.
abbrev pub divisor : ℕ → ℕ
divisor n = if ltb (n + 1) (2 ^ 32) then n + 1 else 2 ^ 32 - 1

-- The end of an attempt that starts now and leaves time for the queue.
abbrev pub share : ℕ → ℕ → ℕ → ℕ
share deadline now waiting = now + (deadline - now) / divisor waiting

-- The error when no candidate is left and both lookups are done.
abbrev pub exhausted : Search → EstablishError
exhausted s = elim s.last_error [ some e ↦ dial e | none ↦ if s.refused then blocked else dns ]

unfoldable pub dial_next : ℕ → ℕ → List SocketAddr → Search → Search
dial_next deadline now [] s = s
dial_next deadline now (address ∷ rest) s = record s {
  queue = rest;
  attempt_deadline = share deadline now (length rest);
  active = some address;
  dialled = s.dialled ++ address ∷ [];
}

abbrev pub is_empty : List SocketAddr → Bool
is_empty [] = true
is_empty (x ∷ xs) = false

-- The top of the loop.
unfoldable pub launch : ℕ → ℕ → Search → Option EstablishError × Search
unfolding dial_next
launch deadline now s =
    if is_some s.active
    then (none, s)
    else if not (is_empty s.queue)
    then (none, dial_next deadline now s.queue s)
    else if s.done_a && s.done_aaaa
    then (some (exhausted s), s)
    else (none, s)

-- The answer of a lookup: new candidates, which shorten a running attempt.
unfoldable pub accept_answer : Egress → Option (List SocketAddr) → Search → Search
unfolding add_candidates
accept_answer egress none s = s
accept_answer egress (some addresses) s = add_candidates egress addresses s

unfoldable pub shorten : ℕ → ℕ → Search → Search
shorten deadline now s =
    if is_some s.active && not (is_empty s.queue)
    then record s {
      attempt_deadline = min s.attempt_deadline (share deadline now (length s.queue));
    }
    else s

unfoldable pub take_answer : Egress → ℕ → ℕ → Option (List SocketAddr) → Search → Search
unfolding accept_answer shorten
take_answer egress deadline now answer s = shorten deadline now (accept_answer egress answer s)

-- The end of the running attempt, where one runs.
unfoldable pub end_attempt :
    Option SocketAddr → Option IoErrorKind → Search → Option Established × Search
end_attempt none result s = (none, s)
end_attempt (some address) none s = (some (connected address), record s { active = none })
end_attempt (some address) (some e) s = (none, record s { active = none; last_error = some e })

-- The error when the whole budget is used up.
abbrev pub out_of_time : Search → EstablishError
out_of_time s =
    if is_some s.active || is_some s.last_error
    then dial timed_out
    else if s.refused
    then blocked
    else dns

-- One branch of the `select!`. A branch whose guard is off is not looked at.
unfoldable pub react : Egress → ℕ → Ready → ℕ → Search → Option Established × Search
unfolding take_answer end_attempt
react egress deadline (answer_a answer) now s =
    if s.done_a
    then (none, s)
    else (none, take_answer egress deadline now answer (record s { done_a = true }))
react egress deadline (answer_aaaa answer) now s =
    if s.done_aaaa
    then (none, s)
    else (none, take_answer egress deadline now answer (record s { done_aaaa = true }))
react egress deadline (attempt_ended result) now s = end_attempt s.active result s
react egress deadline attempt_expired now s = end_attempt s.active (some timed_out) s
react egress deadline budget_expired now s = (some (gave_up (out_of_time s)), s)

-- Whether a turn ends the loop, and the result of the later turns where it does not.
abbrev pub conclude :
    Option EstablishError
    → Search
    → Option Established × Search
    → Option Established × Search
    → Option Established × Search
conclude (some e) launched reacted rest = (some (gave_up e), launched)
conclude none launched (some r, reacted) rest = (some r, reacted)
conclude none launched (none, reacted) rest = rest

-- The loop over the turns: no result while it still waits.
unfoldable pub search : Egress → ℕ → List Turn → Search → Option Established × Search
unfolding launch react
search egress deadline [] s = (none, s)
search egress deadline (turn ∷ turns) s =
    let launched = launch deadline turn.top s in
    let reacted = react egress deadline turn.ready turn.now launched.1 in
    conclude launched.0 launched.1 reacted (search egress deadline turns reacted.1)

-- The address of a literal target, or none of a domain.
unfoldable pub literal : Address → Option SocketAddr
literal (v4 o port) = some (record { ip = ip_v4 o; port = port })
literal (v6 o port) = some (record { ip = ip_v6 o; port = port })
literal (Address.domain host port) = none

-- `dial_one`: how the single attempt ends, a timeout included.
abbrev pub dial_one : SocketAddr → Option IoErrorKind → Established
dial_one address none = connected address
dial_one address (some e) = gave_up (dial e)

-- A literal is dialled once, with the result given; a domain is searched. With the outcome go the
-- addresses that were dialled.
unfoldable pub establish_at :
    Egress
    → ℕ
    → Option SocketAddr
    → Option IoErrorKind
    → List Turn
    → Option Established × List SocketAddr
unfolding search
establish_at egress deadline (some address) result turns =
    if is_blocked egress address.ip
    then (some (gave_up blocked), [])
    else (some (dial_one address result), address ∷ [])
establish_at egress deadline none result turns =
    let found = search egress deadline turns (begin deadline) in (found.0, found.1.dialled)

unfoldable pub establish :
    Egress → ℕ → Address → Option IoErrorKind → List Turn → Option Established × List SocketAddr
unfolding establish_at literal
establish egress deadline target result turns =
    establish_at egress deadline (literal target) result turns
