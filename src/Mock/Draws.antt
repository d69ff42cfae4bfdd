-- ===== src/Mock/Draws.antt =====
-- What the generator draws lies within bounds, so that it finds what it looks up.
use next_socks.Prelude.{
  if_elim, Result, ok, length, get_elem?, ℕ, zero, suc, ◌+◌, ◌≤◌, ◌<◌, ◌≡◌, refl, Bool, true, false,
  some, List, [], ◌∷◌, ◌++◌, mod-lt, arith,
}
use next_socks.Net.{ip_v4}
use next_socks.Wire.{Str}
use next_socks.Metrics.{auth}
use next_socks.Mock.{
  next_u64, at_least_one, below, users, Generator, Panic, chance, synthetic_addr, send_auth,
  maybe_auth,
}

pub below_lt : (m seed : ℕ) → 1 ≤ m → (below m seed).0 < m
unfolding below
below_lt m seed p =
    let same : at_least_one m ≡ m = ground arith in rw same (mod-lt (next_u64 seed) (omega arith))

pub port_lt : (p : ℕ) → p < 60000 → 1024 + p < 65536
port_lt p h = omega arith

-- What comes out true was asked.
pub chance-asked :
    (asked : Bool) (bound seed : ℕ) → (chance asked bound seed).0 ≡ true → asked ≡ true
unfolding chance
chance-asked true bound seed h = refl
chance-asked false bound seed h = h

pub get_elem?-some : (xs : List Str) (i : ℕ) → i < length xs → (s : Str) × (get_elem? xs i ≡ some s)
get_elem?-some [] i p = absurd (omega arith)
get_elem?-some (x ∷ xs) zero p = (x, refl)
get_elem?-some (x ∷ xs) (suc i) p = get_elem?-some xs i (omega arith)

pub synthetic_addr-some :
    (a b port : ℕ)
    → a < 256
    → b < 256
    → port < 65536
    → synthetic_addr a b port ≡ some (record { ip = ip_v4 (10 ∷ 0 ∷ a ∷ b ∷ []); port = port })
synthetic_addr-some a b port p q r = ground arith

-- A step that succeeds with what is said of the generator.
abbrev pub Succeeds : (Generator → Type 0) → Result Generator Panic → Type 0
Succeeds P r = (g : Generator) × (r ≡ ok g) × P g

-- The generator's own connections and the registry.
abbrev pub Alike : Generator → Generator → Type 0
Alike g g' = (g'.active ≡ g.active) × (g'.metrics ≡ g.metrics)

pub send_auth-Succeeds :
    (good : Bool) (i seed : ℕ) (g : Generator)
    → i < length users
    → Succeeds (Alike g) (send_auth good (i, seed) g)
send_auth-Succeeds good i seed g p =
    let (user, e) = get_elem?-some users i p in
    (record g { rng = seed; sent = g.sent ++ auth good user ∷ [] }, rw e refl, (refl, refl))

pub maybe_auth-Succeeds : (g : Generator) → Succeeds (Alike g) (maybe_auth g)
unfolding maybe_auth
maybe_auth-Succeeds g =
    let asked = chance true 30 g.rng in
    let good = chance true 85 asked.1 in
    let which = below (length users) good.1 in
    if_elim (Succeeds (Alike g)) asked.0 (send_auth good.0 which g)
      (ok (record g { rng = asked.1 }))
      (λ b.
        send_auth-Succeeds good.0 which.0 which.1 g (below_lt (length users) good.1 (omega arith)))
      (λ b. (record g { rng = asked.1 }, refl, (refl, refl)))
