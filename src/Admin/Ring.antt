-- ===== src/Admin/Ring.antt =====
-- src/admin/ring.rs: the ring of recent events for a client that attaches. The lock makes each
-- operation one step. The texts of events are not modelled, see Metrics.
use next_socks.Prelude.{
  push_bounded, latest, push_bounded-latest, ℕ, ◌≡◌, sym, ap, ◌∙◌, List, [], ◌∷◌, ◌++◌, append-nil,
  append_assoc, arith,
}
use next_socks.Metrics.{Event}

abbrev pub admin_event_ring_capacity : ℕ
admin_event_ring_capacity = 500

pub record EventRing : Type 0 where
  pub inner : List Event

abbrev pub empty_ring : EventRing
empty_ring = record { inner = [] }

unfoldable pub push : Event → EventRing → EventRing
push ev ring = record { inner = push_bounded admin_event_ring_capacity ev ring.inner }

unfoldable pub replay : EventRing → List Event
replay ring = ring.inner

-- What `broadcast::Receiver::recv` answers.
pub data Received : Type 0 where
  event : Event → Received
  lagged : ℕ → Received
  channel_closed : Received

-- The task of `spawn_filler`.
unfoldable pub filler : List Received → EventRing → EventRing
unfolding push
filler [] ring = ring
filler (event ev ∷ rest) ring = filler rest (push ev ring)
filler (lagged n ∷ rest) ring = filler rest ring
filler (channel_closed ∷ rest) ring = ring

-- The events received before the channel closes.
abbrev pub events_of : List Received → List Event
events_of [] = []
events_of (event ev ∷ rest) = ev ∷ events_of rest
events_of (lagged n ∷ rest) = events_of rest
events_of (channel_closed ∷ rest) = []

filler-latest :
    (history : List Event) (rs : List Received)
    → (filler rs (record { inner = latest admin_event_ring_capacity history })).inner
      ≡ latest admin_event_ring_capacity (history ++ events_of rs)
unfolding filler push
filler-latest history [] = ap (latest admin_event_ring_capacity) (sym (append-nil history))
filler-latest history (event ev ∷ rest) =
    ap (λ xs. (filler rest (record { inner = xs })).inner)
      (push_bounded-latest admin_event_ring_capacity ev history (omega arith))
    ∙ filler-latest (history ++ ev ∷ []) rest
    ∙ ap (latest admin_event_ring_capacity) (append_assoc history (ev ∷ []) (events_of rest))
filler-latest history (lagged n ∷ rest) = filler-latest history rest
filler-latest history (channel_closed ∷ rest) =
    ap (latest admin_event_ring_capacity) (sym (append-nil history))

-- The ring refines the list of all events received: what a client is replayed is the last 500 of
-- them, all of them where there are fewer, oldest first; lag of the channel and its end leave what
-- was received before.
pub replay-filler :
    (rs : List Received)
    → replay (filler rs empty_ring) ≡ latest admin_event_ring_capacity (events_of rs)
unfolding replay
replay-filler rs = filler-latest [] rs
