-- ===== src/Tui/Loop.antt =====
-- src/tui/mod.rs: the state of the dashboard, and its loop as steps on what is ready. The rates are
-- floating-point numbers, so the samples made of them are inputs. Drawing is left out, and so is the
-- reading of keys, which are inputs by the action that they stand for.
pub mod Ages
use next_socks.Admin.Client.{empty_snapshot}
use next_socks.Prelude.{
  ltb, ◌==◌, if◌then◌else◌, length, ℕ, ◌+◌, ◌-◌, min, Bool, true, false, ◌||◌, Option, none, some,
  List, [], ◌∷◌,
}
use next_socks.Metrics.{ConnInfo, Snapshot}
use next_socks.Tui.Log.{
  LogRing, new_log, RateHistory, new_history, push_sample, Pending, drain_events,
}
use next_socks.Tui.View.{
  SortKey, by_id, Focus, on_connections, panel_avail, KeyAction, quit, View, apply_action,
}
use next_socks.Tui.Sort.{sort_connections}

abbrev pub log_capacity : ℕ
log_capacity = 1000

abbrev pub rate_history : ℕ
rate_history = 120

-- `first_seen` has one entry for each id. The address and the start of the dashboard only show.
pub record DashboardState : Type 0 where
  pub snapshot : Snapshot
  pub connections : List ConnInfo
  pub log : LogRing
  pub up_history : RateHistory
  pub down_history : RateHistory
  pub first_seen : List (ℕ × ℕ)
  pub sort : SortKey
  pub focus : Focus
  pub conn_scroll : ℕ
  pub log_scroll : ℕ

unfoldable pub new_dashboard : DashboardState
unfolding new_log new_history
new_dashboard = record {
  snapshot = empty_snapshot;
  connections = [];
  log = new_log log_capacity;
  up_history = new_history rate_history;
  down_history = new_history rate_history;
  first_seen = [];
  sort = by_id;
  focus = on_connections;
  conn_scroll = 0;
  log_scroll = 0;
}

abbrev pub seen_at : ℕ → List (ℕ × ℕ) → Option ℕ
seen_at id [] = none
seen_at id ((k, t) ∷ rest) = if k == id then some t else seen_at id rest

-- `entry(id).or_insert(now)`.
abbrev pub or_insert : ℕ → ℕ → List (ℕ × ℕ) → List (ℕ × ℕ)
or_insert id now seen = elim (seen_at id seen) [ some t ↦ seen | none ↦ (id, now) ∷ seen ]

unfoldable pub note_all : ℕ → List ConnInfo → List (ℕ × ℕ) → List (ℕ × ℕ)
note_all now [] seen = seen
note_all now (c ∷ cs) seen = note_all now cs (or_insert c.id now seen)

abbrev pub listed : ℕ → List ConnInfo → Bool
listed id [] = false
listed id (c ∷ cs) = c.id == id || listed id cs

-- `retain`: the ids of connections that are there.
unfoldable pub retain : List ConnInfo → List (ℕ × ℕ) → List (ℕ × ℕ)
retain conns [] = []
retain conns ((k, t) ∷ rest) =
    let kept = retain conns rest in if listed k conns then (k, t) ∷ kept else kept

-- A log that is scrolled up keeps its lines in view.
unfoldable pub anchor : ℕ → ℕ → ℕ → ℕ → ℕ
anchor scroll added lines avail = if ltb 0 scroll then min (scroll + added) (lines - avail) else 0

-- What a tick finds: the time, the source's snapshot and connections, the samples of the rates, the
-- events pending, and the height of the terminal.
pub record Sample : Type 0 where
  pub now : ℕ
  pub snapshot : Snapshot
  pub connections : List ConnInfo
  pub up_sample : ℕ
  pub down_sample : ℕ
  pub pending : List Pending
  pub height : ℕ

unfoldable pub tick : Sample → DashboardState → DashboardState
unfolding note_all retain anchor drain_events push_sample panel_avail sort_connections
tick s d =
    let drained = drain_events s.pending d.log in
    let seen = retain s.connections (note_all s.now s.connections d.first_seen) in
    record d {
      snapshot = s.snapshot;
      connections = sort_connections s.connections d.sort (λ id. seen_at id seen);
      log = drained.1;
      up_history = push_sample s.up_sample d.up_history;
      down_history = push_sample s.down_sample d.down_history;
      first_seen = seen;
      log_scroll = anchor d.log_scroll drained.0 (length drained.1.buf) (panel_avail s.height).1;
    }

-- The part of the state that keys change, and that part put back.
abbrev pub view_of : DashboardState → View
view_of d = record {
  sort = d.sort;
  focus = d.focus;
  connections = length d.connections;
  log_lines = length d.log.buf;
  conn_scroll = d.conn_scroll;
  log_scroll = d.log_scroll;
}

abbrev pub put_view : View → DashboardState → DashboardState
put_view v d = record d {
  sort = v.sort;
  focus = v.focus;
  conn_scroll = v.conn_scroll;
  log_scroll = v.log_scroll;
}

unfoldable pub press : KeyAction → ℕ → DashboardState → DashboardState
unfolding apply_action panel_avail
press action height d =
    let avail = panel_avail height in put_view (apply_action action avail.0 avail.1 (view_of d)) d

-- A branch of the `select!`: the ticker, an action with the height of the terminal, the end of the
-- reader thread, or a change of the shutdown signal.
pub data Ready : Type 0 where
  ticked : Sample → Ready
  pressed : KeyAction → ℕ → Ready
  reader_gone : Ready
  shutdown_changed : Bool → Ready

-- What a branch does to the loop: it goes on, or it ends, with whether it asked for the shutdown.
pub data Flow : Type 0 where
  on : DashboardState → Flow
  ended : Bool → DashboardState → Flow

unfoldable pub react : Ready → DashboardState → Flow
unfolding tick press
react (ticked s) d = on (tick s d)
react (pressed quit height) d = ended true d
react (pressed action height) d = on (press action height d)
react reader_gone d = ended false d
react (shutdown_changed stop) d = if stop then ended false d else on d

abbrev pub go_on : Flow → (DashboardState → Flow) → Flow
go_on (on d) next = next d
go_on (ended asked d) next = ended asked d

unfoldable pub run : List Ready → DashboardState → Flow
unfolding react
run [] d = on d
run (r ∷ rest) d = go_on (react r d) (run rest)
