-- ===== src/Server/Admission/Laws.antt =====
-- The counts of the admission control, against the permits that are out.
use next_socks.Prelude.{
  if◌then◌else◌, length, ℕ, ◌+◌, ◌-◌, ◌≤◌, ◌≡◌, refl, Option, none, some, List, [], ◌∷◌, arith,
}
use next_socks.Net.{IpAddr, same_ip}
use next_socks.Server.Admission.{Admission, get, increment, decrement}

-- How many of the permits are for an address, and the permits without one of them.
abbrev pub count : IpAddr → List IpAddr → ℕ
count ip [] = 0
count ip (x ∷ xs) = (if same_ip ip x then 1 else 0) + count ip xs

abbrev pub take_out : IpAddr → List IpAddr → List IpAddr
take_out ip [] = []
take_out ip (x ∷ xs) = let rest = take_out ip xs in if same_ip ip x then xs else x ∷ rest

-- One entry for each address that has a permit, none of them zero.
abbrev pub WellFormed : List (IpAddr × ℕ) → Type 0
WellFormed [] = Unit {0}
WellFormed ((k, n) ∷ m) = (1 ≤ n) × (get k m ≡ 0) × WellFormed m

-- The counts are those of the permits that are out, and no cap is exceeded.
abbrev pub AtMost : ℕ → Option ℕ → Type 0
AtMost n none = Unit {0}
AtMost n (some limit) = n ≤ limit

abbrev pub Accounts : Admission → List IpAddr → Type 0
Accounts a held =
    (a.state.total ≡ length held)
    × ((ip : IpAddr) → get ip a.state.per_ip ≡ count ip held)
    × WellFormed a.state.per_ip

abbrev pub WithinCaps : Admission → List IpAddr → Type 0
WithinCaps a held =
    AtMost (length held) a.max_total × ((ip : IpAddr) → AtMost (count ip held) a.max_per_ip)

pub get-increment :
    (k ip : IpAddr) (m : List (IpAddr × ℕ))
    → get k (increment ip m) ≡ (if same_ip k ip then 1 else 0) + get k m
unfolding increment
get-increment k ip [] = ground arith
get-increment k ip ((x, n) ∷ m) = ground (arith, get-increment k ip m)

pub WellFormed-increment :
    (ip : IpAddr) (m : List (IpAddr × ℕ)) → WellFormed m → WellFormed (increment ip m)
unfolding increment
WellFormed-increment ip [] h = (omega arith, refl, tt)
WellFormed-increment ip ((x, n) ∷ m) (p, z, w) =
    ground (arith, WellFormed-increment ip m w, get-increment x ip m)

pub get-decrement :
    (k ip : IpAddr) (m : List (IpAddr × ℕ))
    → WellFormed m
    → get k (decrement ip m) ≡ get k m - (if same_ip k ip then 1 else 0)
unfolding decrement
get-decrement k ip [] h = ground arith
get-decrement k ip ((x, n) ∷ m) (p, z, w) = ground (arith, get-decrement k ip m w)

pub WellFormed-decrement :
    (ip : IpAddr) (m : List (IpAddr × ℕ)) → WellFormed m → WellFormed (decrement ip m)
unfolding decrement
WellFormed-decrement ip [] h = tt
WellFormed-decrement ip ((x, n) ∷ m) (p, z, w) =
    ground (arith, WellFormed-decrement ip m w, get-decrement x ip m w)
