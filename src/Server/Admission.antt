-- ===== src/Server/Admission.antt =====
-- src/server/admission.rs: the caps on concurrent connections.
-- The lock makes each operation one step. The map from addresses to counts is a list of entries.
pub mod Laws
pub mod History
mod Tests
use next_socks.Net.{IpAddr, same_ip}
use next_socks.Prelude.{
  ltb, ◌==◌, if◌then◌else◌, ℕ, ◌+◌, ◌-◌, Bool, true, false, not, Option, none, some, List, [], ◌∷◌,
}

pub record State : Type 0 where
  pub total : ℕ
  pub per_ip : List (IpAddr × ℕ)

-- `None` stands for no bound.
pub record Admission : Type 0 where
  pub max_total : Option ℕ
  pub max_per_ip : Option ℕ
  pub state : State

-- `get(..).copied().unwrap_or(0)`.
abbrev pub get : IpAddr → List (IpAddr × ℕ) → ℕ
get ip [] = 0
get ip ((k, n) ∷ m) = if same_ip ip k then n else get ip m

-- `*entry(..).or_insert(0) += 1`.
unfoldable pub increment : IpAddr → List (IpAddr × ℕ) → List (IpAddr × ℕ)
increment ip [] = (ip, 1) ∷ []
increment ip ((k, n) ∷ m) =
    let rest = increment ip m in if same_ip ip k then (k, n + 1) ∷ m else (k, n) ∷ rest

-- The body of `if let Some(c) = get_mut(..)`.
unfoldable pub decrement : IpAddr → List (IpAddr × ℕ) → List (IpAddr × ℕ)
decrement ip [] = []
decrement ip ((k, n) ∷ m) =
    let rest = decrement ip m in
    if same_ip ip k then (if n - 1 == 0 then m else (k, n - 1) ∷ m) else (k, n) ∷ rest

unfoldable pub new : Option ℕ → Option ℕ → Admission
new max_total max_per_ip = record {
  max_total = max_total;
  max_per_ip = max_per_ip;
  state = record { total = 0; per_ip = [] };
}

abbrev pub below : ℕ → Option ℕ → Bool
below n none = true
below n (some limit) = ltb n limit

-- Whether a permit is given out, and what becomes of the counts.
unfoldable pub try_admit : IpAddr → Admission → Bool × Admission
unfolding increment
try_admit ip a =
    if not (below a.state.total a.max_total)
    then (false, a)
    else if not (below (get ip a.state.per_ip) a.max_per_ip)
    then (false, a)
    else (
      true,
      record a {
        state = record { total = a.state.total + 1; per_ip = increment ip a.state.per_ip };
      },
    )

-- `Permit::drop`.
unfoldable pub release : IpAddr → Admission → Admission
unfolding decrement
release ip a = record a {
  state = record { total = a.state.total - 1; per_ip = decrement ip a.state.per_ip };
}
