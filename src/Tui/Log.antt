-- ===== src/Tui/Log.antt =====
-- src/tui/widgets.rs: the log ring and the rate history of the dashboard; src/tui/mod.rs:
-- `drain_events`. The texts of lines are left out, except that a line says that its connection was
-- closed.
use next_socks.Prelude.{
  ◌==◌, if◌then◌else◌, length, push_bounded, length-push_bounded, ℕ, ◌+◌, ◌≤◌, max, ◌≡◌, refl, ◌∙◌,
  Bool, true, false, ◌&&◌, ◌||◌, not, Option, none, some, List, [], ◌∷◌, arith,
}
use next_socks.Metrics.{Event, connected, closed, auth, error, log}

pub data Severity : Type 0 where
  info : Severity
  dim : Severity
  warn : Severity
  failure : Severity

unfoldable pub severity_of : Event → Severity
severity_of (connected id src target kind) = info
severity_of log = info
severity_of (closed id) = dim
severity_of (auth good user) = if good then info else warn
severity_of (error code) = failure

abbrev pub is_dim : Severity → Bool
is_dim dim = true
is_dim _ = false

pub record LogLine : Type 0 where
  pub severity : Severity
  pub conn_id : Option ℕ
  pub says_closed : Bool

pub record LogRing : Type 0 where
  pub buf : List LogLine
  pub capacity : ℕ

unfoldable pub new_log : ℕ → LogRing
new_log capacity = record { buf = []; capacity = max capacity 1 }

unfoldable pub push_line : Severity → Option ℕ → LogRing → LogRing
push_line severity conn_id ring = record ring {
  buf =
      push_bounded ring.capacity
        (record { severity = severity; conn_id = conn_id; says_closed = false }) ring.buf;
}

abbrev pub belongs_to : ℕ → LogLine → Bool
belongs_to id line = elim line.conn_id [
  | none ↦ false
  | some k ↦ k == id && not (is_dim line.severity)
]

abbrev pub close_line : LogLine → LogLine
close_line line = record line { severity = dim; says_closed = true }

-- Whether a line of the connection is not marked yet.
abbrev pub open_line : ℕ → List LogLine → Bool
open_line id [] = false
open_line id (l ∷ ls) = belongs_to id l || open_line id ls

-- The last such line is marked: the search goes from the newest line.
unfoldable pub mark : ℕ → List LogLine → List LogLine
mark id [] = []
mark id (l ∷ ls) =
    let later = mark id ls in
    if open_line id ls then l ∷ later else if belongs_to id l then close_line l ∷ ls else l ∷ ls

unfoldable pub mark_closed : ℕ → LogRing → LogRing
unfolding mark
mark_closed id ring = record ring { buf = mark id ring.buf }

pub record RateHistory : Type 0 where
  pub samples : List ℕ
  pub window : ℕ

unfoldable pub new_history : ℕ → RateHistory
new_history window = record { samples = []; window = max window 1 }

unfoldable pub push_sample : ℕ → RateHistory → RateHistory
push_sample sample h = record h { samples = push_bounded h.window sample h.samples }

unfoldable pub peak : List ℕ → ℕ
peak [] = 0
peak (x ∷ xs) = max x (peak xs)

-- What `try_recv` answers while events are pending.
pub data Pending : Type 0 where
  event : Event → Pending
  lagged : ℕ → Pending

abbrev pub line_id : Event → Option ℕ
line_id (connected id src target kind) = some id
line_id _ = none

abbrev pub is_closed : Event → Option ℕ
is_closed (closed id) = some id
is_closed _ = none

-- One event: the ring, and whether a line was added.
unfoldable pub log_event : Event → LogRing → ℕ × LogRing
unfolding mark_closed push_line severity_of
log_event ev ring = elim (is_closed ev) [
  | some id ↦ (0, mark_closed id ring)
  | none ↦ (1, push_line (severity_of ev) (line_id ev) ring)
]

unfoldable pub drain_events : List Pending → LogRing → ℕ × LogRing
unfolding log_event push_line
drain_events [] ring = (0, ring)
drain_events (event ev ∷ rest) ring =
    let first = log_event ev ring in
    let later = drain_events rest first.1 in (first.0 + later.0, later.1)
drain_events (lagged n ∷ rest) ring =
    let later = drain_events rest (push_line warn none ring) in (1 + later.0, later.1)

length-mark : (id : ℕ) (ls : List LogLine) → length (mark id ls) ≡ length ls
unfolding mark
length-mark id [] = refl
length-mark id (l ∷ ls) = ground (arith, length-mark id ls)

-- A ring within its capacity.
abbrev pub Fits : LogRing → Type 0
Fits ring = (1 ≤ ring.capacity) × (length ring.buf ≤ ring.capacity)

-- From one ring to the next, with the number of lines added.
abbrev Grows : LogRing → ℕ × LogRing → Type 0
Grows ring (added, after) =
    Fits after × (after.capacity ≡ ring.capacity) × (length after.buf ≤ length ring.buf + added)

push_line-Grows :
    (severity : Severity) (conn_id : Option ℕ) (ring : LogRing)
    → Fits ring
    → Grows ring (1, push_line severity conn_id ring)
unfolding push_line
push_line-Grows severity conn_id ring (p, h) =
    let line : LogLine = record { severity = severity; conn_id = conn_id; says_closed = false } in
    let (fits, grown) = length-push_bounded ring.capacity line ring.buf p h in
    ((p, fits), refl, grown)

log_event-Grows : (ev : Event) (ring : LogRing) → Fits ring → Grows ring (log_event ev ring)
unfolding log_event mark_closed
log_event-Grows (closed id) ring (p, h) =
    let e = length-mark id ring.buf in ((p, omega arith), refl, omega arith)
log_event-Grows (connected id src target kind) ring h = push_line-Grows info (some id) ring h
log_event-Grows (auth good user) ring h = push_line-Grows (severity_of (auth good user)) none ring h
log_event-Grows (error code) ring h = push_line-Grows failure none ring h
log_event-Grows log ring h = push_line-Grows info none ring h

-- Draining any pending events keeps a log within its capacity, and the number returned, by which a
-- scrolled view is moved, is at least the number of lines that the log has grown by.
pub drain_events-Fits :
    (pending : List Pending) (ring : LogRing)
    → Fits ring
    → let (added, after) = drain_events pending ring in
      Fits after × (after.capacity ≡ ring.capacity) × (length after.buf ≤ length ring.buf + added)
unfolding drain_events
drain_events-Fits [] ring h = (h, refl, omega arith)
drain_events-Fits (event ev ∷ rest) ring h =
    let (fits, same, grown) = log_event-Grows ev ring h in
    let (fits', same', grown') = drain_events-Fits rest (log_event ev ring).1 fits in
    (fits', same' ∙ same, omega arith)
drain_events-Fits (lagged n ∷ rest) ring h =
    let (fits, same, grown) = push_line-Grows warn none ring h in
    let (fits', same', grown') = drain_events-Fits rest (push_line warn none ring) fits in
    (fits', same' ∙ same, omega arith)
