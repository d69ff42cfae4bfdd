-- ===== src/Mock/Tests.antt =====
-- Two steps of the generator and the shutdown, beside a connection that is there.
use next_socks.Prelude.{Result, ok, err, ◌≡◌, refl, Bool, true, false, List, [], ◌∷◌, arith}
use next_socks.Metrics.{new}
use next_socks.Mock.{
  bit_xor, next_u64, below, Generator, Panic, first_seed, chance, maybe_auth, open_connection,
  maybe_open, push_one, push_bytes, close_connection, maybe_close, maybe_fail, step, drain, Turn,
  ticked, changed, turn_all, run,
}
use next_socks.Mock.Run.{Leaves, run-Leaves}

first_draw : next_u64 first_seed ≡ 15860402102123842989
unfolding next_u64 bit_xor
first_draw = refl

abbrev turns : List Turn
turns = ticked 5000 ∷ changed false ∷ ticked 90000 ∷ ticked 100 ∷ changed true ∷ ticked 7 ∷ []

run-Leaves_example :
    (x : Bool × Generator) × (run turns new ≡ ok x) × Leaves new.registry new.active_conns x
unfolding new
run-Leaves_example = run-Leaves turns new tt (omega arith) (omega arith)

-- After the shutdown no step is taken.
abbrev ended_of : Result (Bool × Generator) Panic → Bool
ended_of (ok (ended, g)) = ended
ended_of (err e) = false

ended : ended_of (run turns new) ≡ true
unfolding run turn_all step drain maybe_open push_bytes maybe_close maybe_fail open_connection
    chance below maybe_auth next_u64 bit_xor new push_one close_connection
ended = refl
