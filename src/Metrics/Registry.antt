-- ===== src/Metrics/Registry.antt =====
-- The registry of connections: what the operations do to the other entries.
use native.Mathlib.Nat.{}
use next_socks.Prelude.{ℕ, ◌<◌, ◌≡◌, refl, ◌∙◌, ◌≢◌, none, List, [], ◌∷◌, arith}
use next_socks.Metrics.{
  ConnKind, ConnInfo, Metrics, u64_mod, remove, update, find, register, unregister, add_up,
  add_down, record_success, connections, active,
}
use next_socks.Net.{SocketAddr}
use next_socks.Wire.{Str}

pub find-remove : (k id : ℕ) (cs : List ConnInfo) → k ≢ id → find k (remove id cs) ≡ find k cs
find-remove k id [] n = refl
find-remove k id (c ∷ cs) n = ground (arith, find-remove k id cs n)

pub find-remove_self : (id : ℕ) (cs : List ConnInfo) → find id (remove id cs) ≡ none
find-remove_self id [] = refl
find-remove_self id (c ∷ cs) = ground (arith, find-remove_self id cs)

pub find-update :
    (f : ConnInfo → ConnInfo) (k id : ℕ) (cs : List ConnInfo)
    → ((c : ConnInfo) → (f c).id ≡ c.id)
    → k ≢ id
    → find k (update f id cs) ≡ find k cs
find-update f k id [] keeps n = refl
find-update f k id (c ∷ cs) keeps n = ground (arith, keeps c, find-update f k id cs keeps n)

-- Two states of the counters that differ only at the entry of one connection.
abbrev pub SameElsewhere : ℕ → Metrics → Metrics → Type 0
SameElsewhere id m m' = (k : ℕ) → k ≢ id → find k m'.registry ≡ find k m.registry

pub SameElsewhere-trans :
    (id : ℕ) (a b c : Metrics) → SameElsewhere id a b → SameElsewhere id b c → SameElsewhere id a c
SameElsewhere-trans id a b c f g k n = g k n ∙ f k n

pub add_up-SameElsewhere : (m : Metrics) (id n : ℕ) → SameElsewhere id m (add_up m id n)
unfolding add_up
add_up-SameElsewhere m id n k h = find-update _ k id m.registry (λ c. refl) h

pub add_down-SameElsewhere : (m : Metrics) (id n : ℕ) → SameElsewhere id m (add_down m id n)
unfolding add_down
add_down-SameElsewhere m id n k h = find-update _ k id m.registry (λ c. refl) h

pub register-SameElsewhere :
    (m : Metrics) (src : SocketAddr) (target : Str) (kind : ConnKind)
    → let (id, m') = register m src target kind in SameElsewhere id m m'
unfolding register
register-SameElsewhere m src target kind k h = ground (arith, find-remove k m.next_id m.registry h)

pub unregister-SameElsewhere : (m : Metrics) (id : ℕ) → SameElsewhere id m (unregister m id)
unfolding unregister
unregister-SameElsewhere m id k h = find-remove k id m.registry h

-- Nor is the number of active connections changed.
abbrev pub Quiet : ℕ → Metrics → Metrics → Type 0
Quiet id m m' = SameElsewhere id m m' × (m'.active_conns ≡ m.active_conns)

pub Quiet-refl : (id : ℕ) (m : Metrics) → Quiet id m m
Quiet-refl id m = (λ k n. refl, refl)

pub Quiet-trans : (id : ℕ) (a b c : Metrics) → Quiet id a b → Quiet id b c → Quiet id a c
Quiet-trans id a b c f g = (SameElsewhere-trans id a b c f.0 g.0, g.1 ∙ f.1)

pub add_up-Quiet : (m : Metrics) (id n : ℕ) → Quiet id m (add_up m id n)
unfolding add_up
add_up-Quiet m id n = (add_up-SameElsewhere m id n, refl)

pub add_down-Quiet : (m : Metrics) (id n : ℕ) → Quiet id m (add_down m id n)
unfolding add_down
add_down-Quiet m id n = (add_down-SameElsewhere m id n, refl)

-- A registration, something quiet and the end of that connection leave the number of active
-- connections and every other entry as they were.
pub register-unregister :
    (m m' : Metrics) (src : SocketAddr) (target : Str) (kind : ConnKind)
    → active m < u64_mod
    → Quiet (register m src target kind).0 (register m src target kind).1 m'
    → let id = (register m src target kind).0 in
      let after = unregister (record_success m') id in
      (active after ≡ active m) × SameElsewhere id m after × (find id (connections after) ≡ none)
unfolding register unregister record_success active connections
register-unregister m m' src target kind small (others, same) = (
  rw same (omega arith),
  λ k n. ground (
    arith,
    find-remove k m.next_id m'.registry n,
    others k n,
    find-remove k m.next_id m.registry n,
  ),
  find-remove_self m.next_id m'.registry,
)
