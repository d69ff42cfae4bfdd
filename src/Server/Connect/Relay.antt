-- ===== src/Server/Connect/Relay.antt =====
-- src/server/connect.rs: `copy_bidirectional_counted`, the two directions of a relay. Its two loops
-- run at the same time over a shared instant of last activity: a run is a list of what the reads and
-- writes of either direction do, in any order. Times are in nanoseconds.
pub mod Laws
pub mod Counts
use next_socks.Prelude.{
  leb, if◌then◌else◌, length, take, ℕ, ◌-◌, Bool, true, false, Option, none, some, List, [], ◌∷◌,
  ◌++◌,
}
use next_socks.Metrics.{Metrics, add_up, add_down}

pub data Direction : Type 0 where
  upload : Direction
  download : Direction

-- How far `write_all_with_timeout` came: the whole chunk, or an error or the timeout after so many bytes.
pub data Written : Type 0 where
  whole : Written
  cut : ℕ → Written

-- The end of one pass of `copy_half`: a chunk read at the time given and how far it was written, the
-- idle timeout at the time given, the end of the stream, or a read error.
pub data Activity : Type 0 where
  chunk : List ℕ → ℕ → Written → Activity
  timeout : ℕ → Activity
  eof : Activity
  read_error : Activity

-- How a direction stands: its loop runs, or it returned, with success or an error.
pub data Status : Type 0 where
  running : Status
  finished : Status
  broken : Status

-- One direction: its status, what reached the destination, and whether that was shut down.
pub record Half : Type 0 where
  pub status : Status
  pub delivered : List ℕ
  pub shut : Bool

pub record Pair : Type 0 where
  pub up : Half
  pub down : Half
  pub last_activity : ℕ
  pub metrics : Metrics

abbrev pub fresh_half : Half
fresh_half = record { status = running; delivered = []; shut = false }

abbrev pub open_pair : ℕ → Metrics → Pair
open_pair now m = record { up = fresh_half; down = fresh_half; last_activity = now; metrics = m }

unfoldable pub half : Direction → Pair → Half
half upload p = p.up
half download p = p.down

unfoldable pub set_half : Direction → Half → Pair → Pair
set_half upload h p = record p { up = h }
set_half download h p = record p { down = h }

unfoldable pub count_bytes : Direction → ℕ → ℕ → Metrics → Metrics
count_bytes upload id n m = add_up m id n
count_bytes download id n m = add_down m id n

abbrev pub close_half : Half → Half
close_half h = record h { status = finished; shut = true }

-- The body of the loop of `copy_half`.
unfoldable pub advance : ℕ → ℕ → Direction → Activity → Pair → Pair
unfolding half set_half count_bytes
advance idle id dir (chunk bytes now whole) p =
    let h = half dir p in
    record (set_half dir (record h { delivered = h.delivered ++ bytes }) p) {
      last_activity = now;
      metrics = count_bytes dir id (length bytes) p.metrics;
    }
advance idle id dir (chunk bytes now (cut n)) p =
    let h = half dir p in
    set_half dir (record h { status = broken; delivered = h.delivered ++ take n bytes }) p
advance idle id dir (timeout now) p =
    if leb idle (now - p.last_activity) then set_half dir (close_half (half dir p)) p else p
advance idle id dir eof p = set_half dir (close_half (half dir p)) p
advance idle id dir read_error p = set_half dir (record (half dir p) { status = broken }) p

abbrev pub is_running : Half → Bool
is_running h = elim h.status [ running ↦ true | finished ↦ false | broken ↦ false ]

-- A direction that has returned does nothing any more.
unfoldable pub relay_step : ℕ → ℕ → Direction × Activity → Pair → Pair
unfolding advance
relay_step idle id (dir, activity) p =
    if is_running (half dir p) then advance idle id dir activity p else p

unfoldable pub relay : ℕ → ℕ → List (Direction × Activity) → Pair → Pair
unfolding relay_step
relay idle id [] p = p
relay idle id (a ∷ later) p = relay idle id later (relay_step idle id a p)

-- `up_res.and(down_res)`, once both have returned.
unfoldable pub joined : Pair → Option Bool
joined p = elim p.up.status [
  | running ↦ none
  | broken ↦ elim p.down.status [ running ↦ none | finished ↦ some false | broken ↦ some false ]
  | finished ↦ elim p.down.status [ running ↦ none | finished ↦ some true | broken ↦ some false ]
]
