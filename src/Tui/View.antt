-- ===== src/Tui/View.antt =====
-- src/tui: the dashboard's scrolling and key handling, and the figures it shows that do not need
-- floating-point numbers.
use next_socks.Prelude.{
  ltb, ◌==◌, if◌then◌else◌, drop, ℕ, ◌+◌, ◌-◌, ◌/◌, ◌%◌, ◌≤◌, min, max, ◌≡◌, Bool, true, false,
  ◌&&◌, Option, none, some, List, [], ◌∷◌, arith,
}

pub data SortKey : Type 0 where
  by_id : SortKey
  by_up : SortKey
  by_down : SortKey
  by_age : SortKey

unfoldable pub next_sort : SortKey → SortKey
next_sort by_id = by_up
next_sort by_up = by_down
next_sort by_down = by_age
next_sort by_age = by_id

pub data Focus : Type 0 where
  on_connections : Focus
  on_log : Focus

unfoldable pub next_focus : Focus → Focus
next_focus on_connections = on_log
next_focus on_log = on_connections

-- The start of the window, the rows shown, and those hidden above and below.
pub record Window : Type 0 where
  pub start : ℕ
  pub shown : ℕ
  pub above : ℕ
  pub below : ℕ

unfoldable pub scroll_window : ℕ → ℕ → ℕ → Window
scroll_window total avail offset =
    let rows = max avail 1 in
    let start = min offset (total - rows) in
    let shown = min rows (total - start) in
    record { start = start; shown = shown; above = start; below = total - start - shown }

abbrev pub info_band_height : ℕ
info_band_height = 13

-- The rows of the connections table and of the log panel.
unfoldable pub panel_avail : ℕ → ℕ × ℕ
panel_avail term_height = let main = term_height - (1 + info_band_height) in (main - 3, main - 2)

pub data KeyAction : Type 0 where
  quit : KeyAction
  cycle_sort : KeyAction
  switch_focus : KeyAction
  scroll_up : ℕ → KeyAction
  scroll_down : ℕ → KeyAction

-- The part of `DashboardState` that keys change, with the lengths of the two lists.
pub record View : Type 0 where
  pub sort : SortKey
  pub focus : Focus
  pub connections : ℕ
  pub log_lines : ℕ
  pub conn_scroll : ℕ
  pub log_scroll : ℕ

unfoldable pub scroll_by : Focus → Bool → ℕ → ℕ → ℕ → View → View
scroll_by on_connections true n conn_max log_max v = record v { conn_scroll = v.conn_scroll - n }
scroll_by on_connections false n conn_max log_max v = record v {
  conn_scroll = min (v.conn_scroll + n) conn_max;
}
scroll_by on_log true n conn_max log_max v = record v {
  log_scroll = min (v.log_scroll + n) log_max;
}
scroll_by on_log false n conn_max log_max v = record v { log_scroll = v.log_scroll - n }

unfoldable pub apply_action : KeyAction → ℕ → ℕ → View → View
unfolding scroll_by next_sort next_focus
apply_action quit conn_avail log_avail v = v
apply_action cycle_sort conn_avail log_avail v = record v {
  sort = next_sort v.sort;
  conn_scroll = 0;
}
apply_action switch_focus conn_avail log_avail v = record v { focus = next_focus v.focus }
apply_action (scroll_up n) conn_avail log_avail v =
    scroll_by v.focus true n (v.connections - max conn_avail 1) (v.log_lines - max log_avail 1) v
apply_action (scroll_down n) conn_avail log_avail v =
    scroll_by v.focus false n (v.connections - max conn_avail 1) (v.log_lines - max log_avail 1) v

-- The keys of crossterm that are handled, by their code, and whether Control is held.
pub data KeyCode : Type 0 where
  char : ℕ → KeyCode
  tab : KeyCode
  up : KeyCode
  down : KeyCode
  page_up : KeyCode
  page_down : KeyCode
  unhandled : KeyCode

abbrev pub page : ℕ
page = 10

abbrev pub char_action : ℕ → Option KeyAction
char_action c =
    if c == 0x71
    then some quit
    else if c == 0x73
    then some cycle_sort
    else if c == 0x6b
    then some (scroll_up 1)
    else if c == 0x6a
    then some (scroll_down 1)
    else none

unfoldable pub map_key : Bool → Bool → KeyCode → Option KeyAction
map_key false control code = none
map_key true control (char c) = if c == 0x63 && control then some quit else char_action c
map_key true control tab = some switch_focus
map_key true control up = some (scroll_up 1)
map_key true control down = some (scroll_down 1)
map_key true control page_up = some (scroll_up page)
map_key true control page_down = some (scroll_down page)
map_key true control unhandled = none

-- `top_error`: the bucket with the highest count, the last of several such; none where all are 0.
abbrev pub best : Option (ℕ × ℕ) → ℕ → ℕ → Option (ℕ × ℕ)
best none code n = if n == 0 then none else some (code, n)
best (some (c, m)) code n =
    if n == 0 then some (c, m) else if ltb n m then some (c, m) else some (code, n)

unfoldable pub top_from : ℕ → List ℕ → Option (ℕ × ℕ) → Option (ℕ × ℕ)
top_from code [] found = found
top_from code (n ∷ ns) found = top_from (code + 1) ns (best found code n)

unfoldable pub top_error : List ℕ → Option (ℕ × ℕ)
unfolding top_from
top_error codes = top_from 1 (drop 1 codes) none

-- The hours, minutes and seconds of `fmt_hms`, and what `fmt_age` shows.
pub data Age : Type 0 where
  seconds : ℕ → Age
  minutes : ℕ → Age
  hours : ℕ → ℕ → Age

unfoldable pub hms : ℕ → ℕ × ℕ × ℕ
hms s = (s / 3600, s % 3600 / 60, s % 60)

unfoldable pub age : ℕ → Age
age s =
    if ltb s 60
    then seconds s
    else if ltb s 3600
    then minutes (s / 60)
    else hours (s / 3600) (s % 3600 / 60)

-- The offsets do not lie beyond the last full window.
abbrev pub InView : ℕ → ℕ → View → Type 0
InView conn_avail log_avail v =
    (v.conn_scroll ≤ v.connections - max conn_avail 1)
    × (v.log_scroll ≤ v.log_lines - max log_avail 1)

-- Whatever key is pressed, scroll offsets that do not lie beyond the last full window of their panel
-- stay so, the window of the connections table starts exactly at its offset, and it accounts for
-- every connection: above it, in it or below.
pub apply_action-InView :
    (a : KeyAction) (conn_avail log_avail : ℕ) (v : View)
    → InView conn_avail log_avail v
    → let v' = apply_action a conn_avail log_avail v in
      let w = scroll_window v'.connections conn_avail v'.conn_scroll in
      InView conn_avail log_avail v'
      × (w.start ≡ v'.conn_scroll)
      × (w.above + w.shown + w.below ≡ v'.connections)
unfolding apply_action scroll_by scroll_window
apply_action-InView a conn_avail log_avail v h = ground arith
