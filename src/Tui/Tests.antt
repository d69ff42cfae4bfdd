-- ===== src/Tui/Tests.antt =====
-- A small log that overflows, and a scrolled view.
use next_socks.Tui.Input.{
  Polled, key, other_event, failed, Pass, input_loop, pressed_all, Quits, input_loop-Quits,
}
use next_socks.Tui.Sort.Order.{Ordered, sort_connections-Ordered}
use next_socks.Tui.Sort.{sort_connections, tally}
use next_socks.Tui.Loop.{
  new_dashboard, note_all, retain, Sample, tick, press, Ready, ticked, pressed, react, run,
}
use next_socks.Tui.Loop.Ages.{Dated, state_of, run-Dated}
use next_socks.Admin.Client.{empty_snapshot}
use next_socks.Net.{ip_v4, SocketAddr}
use next_socks.Prelude.{◌==◌, ℕ, ◌+◌, ◌≡◌, refl, inr, true, false, none, List, [], ◌∷◌, ◌++◌, arith}
use next_socks.Metrics.{connect, ConnInfo, closed, log}
use next_socks.Tui.Log.{Pending, event, lagged}
use next_socks.Tui.View.{
  by_id, by_up, on_connections, scroll_window, quit, cycle_sort, scroll_down, View, apply_action,
  char, InView, apply_action-InView,
}

abbrev pending : List Pending
pending = event log ∷ lagged 4 ∷ event log ∷ event (closed 1) ∷ []

abbrev view : View
view = record {
  sort = by_id;
  focus = on_connections;
  connections = 20;
  log_lines = 5;
  conn_scroll = 4;
  log_scroll = 0;
}

apply_action-InView_example :
    let v' = apply_action (scroll_down 10) 8 8 view in
    let w = scroll_window v'.connections 8 v'.conn_scroll in
    InView 8 8 v' × (w.start ≡ v'.conn_scroll) × (w.above + w.shown + w.below ≡ v'.connections)
apply_action-InView_example =
    apply_action-InView (scroll_down 10) 8 8 view (omega arith, omega arith)

abbrev peer : SocketAddr
peer = record { ip = ip_v4 (5 ∷ 6 ∷ 7 ∷ 8 ∷ []); port = 4000 }

abbrev connection : ℕ → ℕ → ConnInfo
connection id bytes = record {
  id = id;
  src = peer;
  target = [];
  kind = connect;
  up = bytes;
  down = 0;
}

abbrev table : List ConnInfo
table = connection 1 5 ∷ connection 2 9 ∷ connection 3 5 ∷ []

sorted :
    sort_connections table by_up (λ id. none)
    ≡ connection 2 9 ∷ connection 1 5 ∷ connection 3 5 ∷ []
unfolding sort_connections
sorted = refl

sort_connections-Ordered_example :
    Ordered by_up (λ id. none) (sort_connections table by_up (λ id. none))
    × (tally (λ c. c.id == 2) (sort_connections table by_up (λ id. none))
        ≡ tally (λ c. c.id == 2) table)
sort_connections-Ordered_example =
    sort_connections-Ordered table by_up (λ id. none) (λ c. c.id == 2)

abbrev sample : ℕ → List ConnInfo → Sample
sample now conns = record {
  now = now;
  snapshot = empty_snapshot;
  connections = conns;
  up_sample = 0;
  down_sample = 0;
  pending = pending;
  height = 40;
}

abbrev life : List Ready
life =
    ticked (sample 3 table)
    ∷ pressed cycle_sort 40
    ∷ ticked (sample 5 (connection 2 10 ∷ connection 4 0 ∷ []))
    ∷ pressed quit 40
    ∷ ticked (sample 6 [])
    ∷ []

-- Connection 2 keeps its time, and after `quit` no tick is taken.
lived : (state_of (run life new_dashboard)).first_seen ≡ (4, 5) ∷ (2, 3) ∷ []
unfolding run new_dashboard react tick press note_all retain
lived = refl

begun-Dated : Dated new_dashboard
unfolding new_dashboard
begun-Dated id = refl

run-Dated_example : Dated (state_of (run life new_dashboard))
run-Dated_example = run-Dated life new_dashboard begun-Dated

abbrev go_on_with : Polled → Pass
go_on_with polled = record { stop = false; polled = polled; listened = true }

-- `j`, an event that is no key, and Ctrl-C.
input_loop-Quits_example : Quits (
    run
      (pressed_all 40 (
        input_loop (
          (go_on_with (key true false (char 0x6a)) ∷ go_on_with other_event ∷ [])
          ++ go_on_with (key true true (char 0x63)) ∷ go_on_with failed ∷ [])))
      new_dashboard)
input_loop-Quits_example =
    input_loop-Quits (go_on_with (key true false (char 0x6a)) ∷ go_on_with other_event ∷ [])
      (go_on_with (key true true (char 0x63))) (go_on_with failed ∷ []) true (char 0x63) 40
      new_dashboard ((refl, refl, λ e. cc), ((refl, refl, λ e. cc), tt)) (refl, refl, λ e. cc) refl
      (inr (refl, refl))
