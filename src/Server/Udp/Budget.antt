-- ===== src/Server/Udp/Budget.antt =====
-- The budget of a window, what leaves it alone, and which inputs may send beside it.
use next_socks.Server.Udp.{
  Relay, Setup, Answers, Input, datagram, receive_failed, control_data, control_closed,
  shutdown_changed, note_dns_error, resolve_target, drop_oldest, evict, track, start,
}
use next_socks.Prelude.{if◌then◌else◌, length, ℕ, ◌+◌, ◌-◌, ◌≤◌, ◌<◌, ◌≡◌, List, [], ◌∷◌, arith}
use next_socks.Net.{SocketAddr, same_socket}
use next_socks.Protocol.Address.{Address}

-- Between two states of one window: the client and the window are the same, and the sends have grown
-- by no more than the budget has shrunk, apart from `extra` others.
abbrev pub Spends : ℕ → ℕ → Relay → Relay → Type 0
Spends limit extra r r' =
    (r'.client ≡ r.client)
    × (r'.window_start ≡ r.window_start)
    × (r'.window_count ≤ limit)
    × (length r'.sends + (limit - r'.window_count)
        ≤ length r.sends + (limit - r.window_count) + extra)

-- Nothing of this changes.
abbrev pub Frame : Relay → Relay → Type 0
Frame r r' =
    (r'.client ≡ r.client)
    × (r'.window_start ≡ r.window_start)
    × (r'.window_count ≡ r.window_count)
    × (r'.sends ≡ r.sends)

pub resolve_target-Frame :
    (s : Setup) (ans : Answers) (a : Address) (r : Relay) → Frame r (resolve_target s ans a r).1
unfolding resolve_target note_dns_error
resolve_target-Frame s ans a r = ground arith

pub track-Frame : (limit : ℕ) (t : SocketAddr) (r : Relay) → Frame r (track limit t r)
unfolding track evict drop_oldest
track-Frame limit t r = ground arith

-- The time of an input, where it has one, lies in the window that began at `start`.
abbrev pub InWindow : ℕ → Input → Type 0
InWindow start (datagram bytes src ans) = ans.now - start < 1000
InWindow start _ = Unit {0}

-- How many datagrams come from others than the client.
abbrev pub from_others : SocketAddr → List Input → ℕ
from_others client [] = 0
from_others client (datagram bytes src ans ∷ rest) =
    (if same_socket src client then 0 else 1) + from_others client rest
from_others client (other ∷ rest) = from_others client rest

-- How many datagrams are answered by a send that fails.
abbrev pub unsent : List Input → ℕ
unsent [] = 0
unsent (datagram bytes src ans ∷ rest) = (if ans.sent then 0 else 1) + unsent rest
unsent (other ∷ rest) = unsent rest

-- How many sends may go beside the budget.
abbrev pub beside : SocketAddr → List Input → ℕ
beside client inputs = from_others client inputs + unsent inputs

abbrev pub failing : Answers → ℕ
failing ans = if ans.sent then 0 else 1

pub beside-cons :
    (client : SocketAddr) (i : Input) (rest : List Input)
    → beside client (i ∷ rest) ≡ beside client (i ∷ []) + beside client rest
beside-cons client (datagram bytes src ans) rest = omega arith
beside-cons client receive_failed rest = omega arith
beside-cons client control_data rest = omega arith
beside-cons client control_closed rest = omega arith
beside-cons client (shutdown_changed stop) rest = omega arith
