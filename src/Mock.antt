-- ===== src/Mock.antt =====
-- src/mock.rs: the generator of synthetic connections. The throughput is a wave of floating-point
-- numbers, so the budget of each step is an input. A panic is an error here.

pub mod Removal
pub mod Cleanup
pub mod Draws
pub mod Run
mod Tests
use next_socks.Prelude.{
  ltb, if◌then◌else◌, Result, ok, err, ok_or, length, get_elem?, ℕ, zero, suc, ◌+◌, ◌*◌, ◌/◌, ◌%◌,
  ◌^◌, Bool, true, false, ◌&&◌, Option, none, some, List, [], ◌∷◌, ◌++◌, ◌>>=◌,
}
use next_socks.Wire.{Str}
use next_socks.Wire.Text.{codes}
use next_socks.Net.{ip_v4, SocketAddr}
use next_socks.Metrics.{
  ConnKind, connect, udp, Event, connected, closed, auth, error, log, Metrics, u64_mod, register,
  unregister, add_up, add_down, record_error, record_success,
}

abbrev pub max_active : ℕ
max_active = 12

abbrev pub shift_left : ℕ → ℕ → ℕ
shift_left x n = (x * 2 ^ n) % u64_mod

abbrev pub shift_right : ℕ → ℕ → ℕ
shift_right x n = x / 2 ^ n

-- `^` on numbers of so many bits.
unfoldable pub bit_xor : ℕ → ℕ → ℕ → ℕ
bit_xor zero x y = 0
bit_xor (suc bits) x y = (x + y) % 2 + 2 * bit_xor bits (x / 2) (y / 2)

-- `Rng::next_u64`: the value is also the next state.
unfoldable pub next_u64 : ℕ → ℕ
unfolding bit_xor
next_u64 seed =
    let x = bit_xor 64 seed (shift_left seed 13) in
    let y = bit_xor 64 x (shift_right x 7) in bit_xor 64 y (shift_left y 17)

abbrev pub at_least_one : ℕ → ℕ
at_least_one n = if ltb n 1 then 1 else n

-- `Rng::below`: the value, and the state after it.
unfoldable pub below : ℕ → ℕ → ℕ × ℕ
unfolding next_u64
below n seed = let x = next_u64 seed in (x % at_least_one n, x)

abbrev pub targets : List Str
targets =
    codes "example.com:443"
    ∷ codes "github.com:443"
    ∷ codes "api.ipify.org:443"
    ∷ codes "cdn.example.net:80"
    ∷ codes "db.internal:5432"
    ∷ codes "speed.example.com:443"
    ∷ []

abbrev pub users : List Str
users = codes "alice" ∷ codes "bob" ∷ codes "carol" ∷ []

-- `Generator`, with the registry that it drives and the events that it sends.
pub record Generator : Type 0 where
  pub rng : ℕ
  pub active : List (ℕ × ConnKind)
  pub metrics : Metrics
  pub sent : List Event

pub data Panic : Type 0 where
  bad_address : Panic
  out_of_range : Panic

abbrev pub first_seed : ℕ
first_seed = 0x9E3779B97F4A7C15

abbrev pub new_generator : Metrics → Generator
new_generator m = record { rng = first_seed; active = []; metrics = m; sent = [] }

-- A test that draws a number only where it is asked to: whether the number is below the bound.
unfoldable pub chance : Bool → ℕ → ℕ → Bool × ℕ
unfolding below
chance asked bound seed =
    let drawn = below 100 seed in if asked then (ltb drawn.0 bound, drawn.1) else (false, seed)

-- The text `10.0.a.b:port`, parsed.
abbrev pub synthetic_addr : ℕ → ℕ → ℕ → Option SocketAddr
synthetic_addr a b port =
    if ltb a 256 && ltb b 256 && ltb port 65536
    then some (record { ip = ip_v4 (10 ∷ 0 ∷ a ∷ b ∷ []); port = port })
    else none

-- An authentication event comes with some of the connections.
abbrev pub send_auth : Bool → ℕ × ℕ → Generator → Result Generator Panic
send_auth good (i, seed) g = do
  user ← ok_or (get_elem? users i) out_of_range
  ok (record g { rng = seed; sent = g.sent ++ auth good user ∷ [] })

unfoldable pub maybe_auth : Generator → Result Generator Panic
unfolding chance below
maybe_auth g =
    let asked = chance true 30 g.rng in
    let good = chance true 85 asked.1 in
    if asked.0
    then send_auth good.0 (below (length users) good.1) g
    else ok (record g { rng = asked.1 })

unfoldable pub open_connection : Generator → Result Generator Panic
unfolding below register maybe_auth
open_connection g = do
  let chosen = below 100 g.rng
  let kind = if ltb chosen.0 75 then connect else udp
  let a = below 256 chosen.1
  let b = below 256 a.1
  let p = below 60000 b.1
  let which = below (length targets) p.1
  addr ← ok_or (synthetic_addr a.0 b.0 (1024 + p.0)) bad_address
  target ← ok_or (get_elem? targets which.0) out_of_range
  let added = register g.metrics addr target kind
  maybe_auth (record {
    rng = which.1;
    active = g.active ++ (added.0, kind) ∷ [];
    metrics = added.1;
    sent = g.sent ++ connected added.0 addr target kind ∷ [];
  })

unfoldable pub maybe_open : Generator → Result Generator Panic
unfolding chance open_connection
maybe_open g =
    let drawn = chance (ltb (length g.active) max_active) 40 g.rng in
    let g' = record g { rng = drawn.1 } in if drawn.0 then open_connection g' else ok g'

unfoldable pub push_one : ℕ → ℕ → Generator → Generator
unfolding below add_up add_down
push_one budget id g =
    let up = below (budget / 8 + 1) g.rng in
    let down = below (budget + 1) up.1 in
    let m = add_up g.metrics id (up.0 + budget / 16) in
    record g { rng = down.1; metrics = add_down m id (down.0 + budget / 4) }

unfoldable pub push_bytes : ℕ → List (ℕ × ConnKind) → Generator → Generator
unfolding push_one
push_bytes budget [] g = g
push_bytes budget ((id, kind) ∷ rest) g = push_bytes budget rest (push_one budget id g)

-- `Vec::remove`.
abbrev pub take_at : ℕ → List (ℕ × ConnKind) → Result ((ℕ × ConnKind) × List (ℕ × ConnKind)) Panic
take_at i [] = err out_of_range
take_at zero (x ∷ xs) = ok (x, xs)
take_at (suc i) (x ∷ xs) = do (y, ys) ← take_at i xs; ok (y, x ∷ ys)

unfoldable pub close_connection : ℕ → Generator → Result Generator Panic
unfolding unregister record_success
close_connection i g = do
  (entry, rest) ← take_at i g.active
  ok (record g {
    active = rest;
    metrics = record_success (unregister g.metrics entry.0);
    sent = g.sent ++ closed entry.0 ∷ [];
  })

unfoldable pub maybe_close : Generator → Result Generator Panic
unfolding chance below close_connection
maybe_close g =
    let drawn = chance (ltb 0 (length g.active)) 30 g.rng in
    let which = below (length g.active) drawn.1 in
    if drawn.0
    then close_connection which.0 (record g { rng = which.1 })
    else ok (record g { rng = drawn.1 })

unfoldable pub maybe_fail : Generator → Generator
unfolding chance below record_error
maybe_fail g =
    let drawn = chance true 12 g.rng in
    let which = below 8 drawn.1 in
    let code = 1 + which.0 in
    if drawn.0
    then record g {
      rng = which.1;
      metrics = record_error g.metrics code;
      sent = g.sent ++ error code ∷ [];
    }
    else record g { rng = drawn.1 }

unfoldable pub step : ℕ → Generator → Result Generator Panic
unfolding maybe_open push_bytes maybe_close maybe_fail
step budget g = do
  opened ← maybe_open g
  after ← maybe_close (push_bytes budget opened.active opened)
  ok (maybe_fail after)

unfoldable pub unregister_all : List (ℕ × ConnKind) → Metrics → Metrics
unfolding unregister
unregister_all [] m = m
unregister_all ((id, kind) ∷ rest) m = unregister_all rest (unregister m id)

unfoldable pub drain : Generator → Generator
unfolding unregister_all
drain g = record g { active = []; metrics = unregister_all g.active g.metrics }

-- A branch of the `select!`: the ticker, with the budget of the step (100000 at most), or a change of the shutdown
-- signal, with whether it asks to stop.
pub data Turn : Type 0 where
  ticked : ℕ → Turn
  changed : Bool → Turn

-- The loop of `run`: whether it has ended, and the generator.
unfoldable pub turn_all : List Turn → Generator → Result (Bool × Generator) Panic
unfolding step drain
turn_all [] g = ok (false, g)
turn_all (ticked budget ∷ rest) g = do g' ← step budget g; turn_all rest g'
turn_all (changed true ∷ rest) g = ok (true, drain g)
turn_all (changed false ∷ rest) g = turn_all rest g

unfoldable pub run : List Turn → Metrics → Result (Bool × Generator) Panic
unfolding turn_all
run turns m = turn_all turns (record (new_generator m) { sent = log ∷ [] })
