-- ===== src/Admin/Server.antt =====
-- src/admin/server.rs: `handle_client`, the server's end of the attach connection. Whether each write
-- to the client's stream succeeds is a script; what a write that fails had sent is left out.
pub mod Arrival
pub mod Attach
use next_socks.Prelude.{Result, ok, err, ℕ, Bool, true, false, Option, List, [], ◌∷◌, ◌++◌}
use next_socks.Wire.{Str}
use next_socks.Metrics.{ConnInfo, Snapshot, Event}
use next_socks.Admin.Ring.{Received, event, lagged, channel_closed}
use next_socks.Admin.Frames.{
  proto_version, Frame, hello, stats, frame_event, FrameError, io, Codec, write_frame,
}

-- The client's stream.
pub record Outlet : Type 0 where
  pub sent : List ℕ
  pub writes : List Bool

abbrev pub fresh_outlet : List Bool → Outlet
fresh_outlet writes = record { sent = []; writes = writes }

-- What makes a branch of the `select!` ready: the ticker, with what the source shows then, the
-- channel of events, or the shutdown signal.
pub data Happening : Type 0 where
  tick : Snapshot → List ConnInfo → Happening
  received : Received → Happening
  shutdown_changed : Bool → Happening

abbrev pub Sending : Type 0
Sending = Result (Unit {0}) FrameError × Outlet

abbrev pub deliver : List Bool → Result (List ℕ) FrameError → Outlet → Sending
deliver writes (err e) o = (err e, o)
deliver [] (ok bytes) o = (err io, o)
deliver (false ∷ later) (ok bytes) o = (err io, record o { writes = later })
deliver (true ∷ later) (ok bytes) o = (ok tt, record { sent = o.sent ++ bytes; writes = later })

unfoldable pub send_frame : Codec → Frame → Outlet → Sending
send_frame codec frame o = deliver o.writes (write_frame codec frame) o

-- The `?` after a write.
abbrev pub and_then : Sending → (Outlet → Sending) → Sending
and_then (ok u, o) next = next o
and_then (err e, o) next = (err e, o)

unfoldable pub replay_events : Codec → List Event → Outlet → Sending
unfolding send_frame
replay_events codec [] o = (ok tt, o)
replay_events codec (ev ∷ rest) o =
    and_then (send_frame codec (frame_event ev) o) (replay_events codec rest)

-- The loop, up to its end or as long as something happens.
unfoldable pub push_loop : Codec → List Happening → Outlet → Sending
unfolding send_frame
push_loop codec [] o = (ok tt, o)
push_loop codec (tick figures entries ∷ rest) o =
    and_then (send_frame codec (stats figures entries) o) (push_loop codec rest)
push_loop codec (received (event ev) ∷ rest) o =
    and_then (send_frame codec (frame_event ev) o) (push_loop codec rest)
push_loop codec (received (lagged n) ∷ rest) o = push_loop codec rest o
push_loop codec (received channel_closed ∷ rest) o = (ok tt, o)
push_loop codec (shutdown_changed true ∷ rest) o = (ok tt, o)
push_loop codec (shutdown_changed false ∷ rest) o = push_loop codec rest o

unfoldable pub handle_client : Codec → Option Str → List Event → List Happening → Outlet → Sending
unfolding send_frame replay_events push_loop
handle_client codec listen_addr history happenings o =
    and_then (send_frame codec (hello proto_version listen_addr) o)
      (λ greeted. and_then (replay_events codec history greeted) (push_loop codec happenings))
