-- ===== src/Admin/Client.antt =====
-- src/admin/client.rs: the dashboard's end of the attach connection.
pub mod Laws
use next_socks.Prelude.{
  ◌==◌, if◌then◌else◌, Result, ok, err, ℕ, zero, suc, Bool, true, false, Option, none, some, List,
  [], ◌∷◌, ◌++◌,
}
use next_socks.Wire.{Str}
use next_socks.Metrics.{ConnInfo, Snapshot, Event, snapshot, connections}
use next_socks.Admin.Frames.{
  proto_version, Frame, hello, stats, frame_event, FrameError, Codec, read_frame,
}

-- `RemoteState`, the events forwarded to the local channel, and whether the connection was lost (the
-- flag, set together with the shutdown signal).
pub record Remote : Type 0 where
  pub last_snapshot : Snapshot
  pub last_connections : List ConnInfo
  pub forwarded : List Event
  pub lost : Bool

abbrev pub empty_snapshot : Snapshot
empty_snapshot = record {
  bytes_up = 0;
  bytes_down = 0;
  total_conns = 0;
  active_conns = 0;
  successes = 0;
  failures = 0;
  error_codes = 0 ∷ 0 ∷ 0 ∷ 0 ∷ 0 ∷ 0 ∷ 0 ∷ 0 ∷ 0 ∷ [];
}

abbrev pub remote_start : Remote
remote_start = record {
  last_snapshot = empty_snapshot;
  last_connections = [];
  forwarded = [];
  lost = false;
}

-- One frame of the loop. A second Hello is ignored.
unfoldable pub apply_frame : Frame → Remote → Remote
apply_frame (stats snapshot connections) r = record r {
  last_snapshot = snapshot;
  last_connections = connections;
}
apply_frame (frame_event ev) r = record r { forwarded = r.forwarded ++ ev ∷ [] }
apply_frame (hello proto listen_addr) r = r

unfoldable pub lose : Remote → Remote
lose r = record r { lost = true }

-- The loop over a stream that ends, on fuel: each frame takes four bytes at least, so that a fuel
-- above the length of the stream is enough.
unfoldable pub decode_loop : ℕ → Codec → List ℕ → Remote → Remote
unfolding apply_frame lose
decode_loop zero codec stream r = r
decode_loop (suc fuel) codec stream r = elim (read_frame codec stream) [
  | ok (frame, rest) ↦ decode_loop fuel codec rest (apply_frame frame r)
  | err e ↦ lose r
]

-- How `attach` ends before the dashboard starts, or that it starts with what the Hello says.
pub data Attached : Type 0 where
  no_server : Attached
  version_mismatch : ℕ → Attached
  no_hello : Attached
  no_handshake : Attached
  running : Option Str → Remote → Attached

unfoldable pub greet : ℕ → Codec → Result (Frame × List ℕ) FrameError → Attached
unfolding decode_loop
greet fuel codec (ok (hello proto listen_addr, rest)) =
    if proto == proto_version
    then running listen_addr (decode_loop fuel codec rest remote_start)
    else version_mismatch proto
greet fuel codec (ok (frame, rest)) = no_hello
greet fuel codec (err e) = no_handshake

-- `attach`: nothing where the connection is refused, otherwise the stream that the server sends.
unfoldable pub attach : ℕ → Codec → Option (List ℕ) → Attached
unfolding greet
attach fuel codec none = no_server
attach fuel codec (some stream) = greet fuel codec (read_frame codec stream)
