-- ===== src/Tui/Loop/Ages.antt =====
-- The times at which the dashboard first saw its connections.
use next_socks.Prelude.{
  ltb, ◌==◌, if◌then◌else◌, Bool-cases, is_some, ℕ, ◌≡◌, refl, sym, ap, ◌∙◌, inl, inr, Bool, true,
  false, ◌||◌, Option, none, some, List, [], ◌∷◌, arith,
}
use next_socks.Metrics.{ConnInfo}
use next_socks.Tui.Sort.{sort_connections, tally, sort_connections-Ascending}
use next_socks.Tui.Loop.{
  DashboardState, seen_at, or_insert, note_all, listed, retain, Sample, tick, press, Ready, ticked,
  pressed, reader_gone, shutdown_changed, Flow, on, ended, react, go_on, run,
}
use next_socks.Tui.View.{SortKey, quit, cycle_sort, switch_focus, scroll_up, scroll_down}

abbrev pub or_else : Option ℕ → Option ℕ → Option ℕ
or_else none b = b
or_else (some a) b = some a

or_else-none : (a : Option ℕ) → or_else a none ≡ a
or_else-none none = refl
or_else-none (some a) = refl

or_else_assoc : (a b c : Option ℕ) → or_else (or_else a b) c ≡ or_else a (or_else b c)
or_else_assoc none b c = refl
or_else_assoc (some a) b c = refl

seen_at-or_insert :
    (id k now : ℕ) (seen : List (ℕ × ℕ))
    → seen_at id (or_insert k now seen)
      ≡ or_else (seen_at id seen) (if k == id then some now else none)
seen_at-or_insert id k now seen = elim (Bool-cases (k == id)) [
  | inl e ↦ let same : k ≡ id = ground arith in ground arith
  | inr e ↦ ground (arith, or_else-none (seen_at id seen))
]

-- A test that asks for the id of either of two.
both_ways :
    (now : ℕ) (p q : Bool)
    → or_else (if p then some now else none) (if q then some now else none)
      ≡ (if p || q then some now else none)
both_ways now true q = refl
both_ways now false q = refl

seen_at-note_all :
    (id now : ℕ) (cs : List ConnInfo) (seen : List (ℕ × ℕ))
    → seen_at id (note_all now cs seen)
      ≡ or_else (seen_at id seen) (if listed id cs then some now else none)
unfolding note_all
seen_at-note_all id now [] seen = sym (or_else-none (seen_at id seen))
seen_at-note_all id now (c ∷ cs) seen =
    let here : Option ℕ = if c.id == id then some now else none in
    let later : Option ℕ = if listed id cs then some now else none in
    seen_at-note_all id now cs (or_insert c.id now seen)
    ∙ ap (λ o. or_else o later) (seen_at-or_insert id c.id now seen)
    ∙ or_else_assoc (seen_at id seen) here later
    ∙ ap (or_else (seen_at id seen)) (both_ways now (c.id == id) (listed id cs))

seen_at-retain :
    (id : ℕ) (conns : List ConnInfo) (seen : List (ℕ × ℕ))
    → seen_at id (retain conns seen) ≡ (if listed id conns then seen_at id seen else none)
unfolding retain
seen_at-retain id conns [] = ground arith
seen_at-retain id conns ((k, t) ∷ rest) =
    let ih = seen_at-retain id conns rest in
    elim (Bool-cases (k == id)) [
      | inl e ↦ let same : k ≡ id = ground arith in rw same (ground (arith, ih))
      | inr e ↦ ground (arith, ih)
    ]

listed-tally : (id : ℕ) (cs : List ConnInfo) → listed id cs ≡ ltb 0 (tally (λ c. c.id == id) cs)
listed-tally id [] = refl
listed-tally id (c ∷ cs) = ground (arith, listed-tally id cs)

chosen :
    (b : Bool) (x y : Option ℕ)
    → (b ≡ true → x ≡ y)
    → Path (Option ℕ) (if b then x else none) (if b then y else none)
chosen true x y h = h refl
chosen false x y h = refl

-- After a tick, a connection has the time at which it was first seen, or that of the tick where it is
-- new; and an id that is no longer there has none, so that it starts anew if it comes back.
pub tick-seen_at :
    (s : Sample) (d : DashboardState) (id : ℕ)
    → seen_at id (tick s d).first_seen
      ≡ (if listed id s.connections then or_else (seen_at id d.first_seen) (some s.now) else none)
unfolding tick
tick-seen_at s d id =
    let noted = note_all s.now s.connections d.first_seen in
    seen_at-retain id s.connections noted
    ∙ chosen (listed id s.connections) (seen_at id noted)
        (or_else (seen_at id d.first_seen) (some s.now))
        (λ e. seen_at-note_all id s.now s.connections d.first_seen ∙ rw e refl)

-- The connections that are shown are exactly those that have a time.
abbrev pub Dated : DashboardState → Type 0
Dated d = (id : ℕ) → is_some (seen_at id d.first_seen) ≡ listed id d.connections

listed-sort_connections :
    (id : ℕ) (conns : List ConnInfo) (sort : SortKey) (seen : ℕ → Option ℕ)
    → listed id (sort_connections conns sort seen) ≡ listed id conns
listed-sort_connections id conns sort seen =
    listed-tally id (sort_connections conns sort seen)
    ∙ ap (ltb 0) (sort_connections-Ascending conns sort seen (λ c. c.id == id)).1
    ∙ sym (listed-tally id conns)

is_some-chosen :
    (b : Bool) (a : Option ℕ) (now : ℕ) → is_some (if b then or_else a (some now) else none) ≡ b
is_some-chosen true none now = refl
is_some-chosen true (some t) now = refl
is_some-chosen false a now = refl

listed-tick :
    (s : Sample) (d : DashboardState) (id : ℕ)
    → listed id (tick s d).connections ≡ listed id s.connections
unfolding tick
listed-tick s d id =
    listed-sort_connections id s.connections d.sort
      (λ k. seen_at k (retain s.connections (note_all s.now s.connections d.first_seen)))

tick-Dated : (s : Sample) (d : DashboardState) → Dated (tick s d)
tick-Dated s d id =
    ap is_some (tick-seen_at s d id)
    ∙ is_some-chosen (listed id s.connections) (seen_at id d.first_seen) s.now
    ∙ sym (listed-tick s d id)

abbrev pub state_of : Flow → DashboardState
state_of (on d) = d
state_of (ended asked d) = d

react-Dated : (r : Ready) (d : DashboardState) → Dated d → Dated (state_of (react r d))
unfolding react press
react-Dated (ticked s) d h = tick-Dated s d
react-Dated (pressed quit height) d h = h
react-Dated (pressed cycle_sort height) d h = h
react-Dated (pressed switch_focus height) d h = h
react-Dated (pressed (scroll_up n) height) d h = h
react-Dated (pressed (scroll_down n) height) d h = h
react-Dated reader_gone d h = h
react-Dated (shutdown_changed true) d h = h
react-Dated (shutdown_changed false) d h = h

go_on-Dated :
    (x : Flow) (next : DashboardState → Flow)
    → Dated (state_of x)
    → ((d : DashboardState) → Dated d → Dated (state_of (next d)))
    → Dated (state_of (go_on x next))
go_on-Dated (on d) next h f = f d h
go_on-Dated (ended asked d) next h f = h

-- Throughout the dashboard's life, the connections that have a time of first sight are exactly those
-- that are shown, so that each has an age and the table of times does not grow beyond them.
pub run-Dated : (rs : List Ready) (d : DashboardState) → Dated d → Dated (state_of (run rs d))
unfolding run
run-Dated [] d h = h
run-Dated (r ∷ rest) d h = go_on-Dated (react r d) (run rest) (react-Dated r d h) (run-Dated rest)
