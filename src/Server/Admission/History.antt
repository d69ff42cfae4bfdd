-- ===== src/Server/Admission/History.antt =====
-- Every history of arrivals and departures.
use next_socks.Prelude.{
  ltb, if◌then◌else◌, Bool-cases, length, ℕ, suc, ◌+◌, ◌-◌, ◌≤◌, ◌≡◌, refl, sym, ap, subst, ◌↔◌,
  inl, inr, true, false, Option, none, some, List, [], ◌∷◌, arith,
}
use next_socks.Net.{IpAddr, IpAddr-discrete, same_ip}
use next_socks.Server.Admission.{Admission, get, increment, new, below, try_admit, release}
use next_socks.Server.Admission.Laws.{
  count, take_out, AtMost, Accounts, WithinCaps, get-increment, WellFormed-increment, get-decrement,
  WellFormed-decrement,
}

-- A connection arrives, or the one that has a permit for an address ends; an address without a
-- permit has nothing to end.
pub data Action : Type 0 where
  arrive : IpAddr → Action
  leave : IpAddr → Action

unfoldable pub act : Action → Admission × List IpAddr → Admission × List IpAddr
unfolding try_admit release
act (arrive ip) (a, held) = let r = try_admit ip a in (r.1, if r.0 then ip ∷ held else held)
act (leave ip) (a, held) =
    if ltb 0 (count ip held) then (release ip a, take_out ip held) else (a, held)

unfoldable pub run : List Action → Admission × List IpAddr → Admission × List IpAddr
unfolding act
run [] x = x
run (e ∷ es) x = run es (act e x)

below-AtMost : (n : ℕ) (cap : Option ℕ) → (below n cap ≡ true) ↔ AtMost (suc n) cap
below-AtMost n none = (λ e. tt, λ h. refl)
below-AtMost n (some limit) = (λ e. ground arith, λ h. ground arith)

-- A connection is admitted exactly when the permits that are out leave room under both caps.
pub try_admit_iff :
    (a : Admission) (held : List IpAddr) (ip : IpAddr)
    → Accounts a held
    → ((try_admit ip a).0 ≡ true)
      ↔ (AtMost (suc (length held)) a.max_total × AtMost (suc (count ip held)) a.max_per_ip)
unfolding try_admit
try_admit_iff a held ip (total, counts, w) =
    let t = below-AtMost a.state.total a.max_total in
    let p = below-AtMost (get ip a.state.per_ip) a.max_per_ip in
    rw (sym total, sym (counts ip)) (λ e. ground (arith, t, p), λ h. ground (arith, t, p))

-- What a history keeps: the caps, the accounts and the bounds.
abbrev pub Sound : Option ℕ → Option ℕ → Admission × List IpAddr → Type 0
Sound total per_ip (a, held) =
    (a.max_total ≡ total) × (a.max_per_ip ≡ per_ip) × Accounts a held × WithinCaps a held

AtMost-zero : (cap : Option ℕ) → AtMost 0 cap
AtMost-zero none = tt
AtMost-zero (some limit) = omega arith

AtMost-le : (n k : ℕ) (cap : Option ℕ) → k ≤ n → AtMost n cap → AtMost k cap
AtMost-le n k none p h = tt
AtMost-le n k (some limit) p h = omega arith

count-take_out :
    (k ip : IpAddr) (held : List IpAddr)
    → 1 ≤ count ip held
    → count k (take_out ip held) ≡ count k held - (if same_ip k ip then 1 else 0)
count-take_out k ip [] p = absurd (omega arith)
count-take_out k ip (x ∷ xs) p = ground (arith, count-take_out k ip xs)

count-le : (ip : IpAddr) (held : List IpAddr) → count ip held ≤ length held
count-le ip [] = omega arith
count-le ip (x ∷ xs) = ground (arith, count-le ip xs)

length-take_out :
    (ip : IpAddr) (held : List IpAddr)
    → 1 ≤ count ip held
    → length (take_out ip held) ≡ length held - 1
length-take_out ip [] p = absurd (omega arith)
length-take_out ip (x ∷ xs) p = ground (arith, length-take_out ip xs, count-le ip xs)

admitted-Accounts :
    (a : Admission) (held : List IpAddr) (ip : IpAddr)
    → Accounts a held
    → Accounts
        (record a {
          state = record { total = a.state.total + 1; per_ip = increment ip a.state.per_ip };
        })
        (ip ∷ held)
admitted-Accounts a held ip (total, counts, w) = (
  omega arith,
  λ k. omega (arith, get-increment k ip a.state.per_ip, counts k),
  WellFormed-increment ip a.state.per_ip w,
)

admitted-WithinCaps :
    (a : Admission) (held : List IpAddr) (ip : IpAddr)
    → Accounts a held
    → WithinCaps a held
    → AtMost (suc a.state.total) a.max_total
    → AtMost (suc (get ip a.state.per_ip)) a.max_per_ip
    → WithinCaps a (ip ∷ held)
admitted-WithinCaps a held ip acc caps t p = (
  subst (λ n. AtMost (suc n) a.max_total) acc.0 t,
  λ k.
      elim (IpAddr-discrete k ip)
        as (λ d.
          AtMost ((if (elim d [ yes e ↦ true | no n ↦ false ]) then 1 else 0) + count k held)
            a.max_per_ip) [
              | yes e ↦
                  let same = ap (λ x. count x held) e in
                  let sum : suc (get ip a.state.per_ip) ≡ 1 + count k held =
                    omega (arith, acc.1 ip, same) in
                  subst (λ n. AtMost n a.max_per_ip) sum p
              | no n ↦
                  AtMost-le (count k held) (0 + count k held) a.max_per_ip (omega arith) (caps.1 k)
            ],
)

released-Accounts :
    (a : Admission) (held : List IpAddr) (ip : IpAddr)
    → 1 ≤ count ip held
    → Accounts a held
    → Accounts (release ip a) (take_out ip held)
unfolding release
released-Accounts a held ip here (total, counts, w) = (
  omega (arith, length-take_out ip held here),
  λ k. omega (arith, get-decrement k ip a.state.per_ip w, counts k, count-take_out k ip held here),
  WellFormed-decrement ip a.state.per_ip w,
)

released-WithinCaps :
    (a : Admission) (held : List IpAddr) (ip : IpAddr)
    → 1 ≤ count ip held
    → WithinCaps a held
    → WithinCaps a (take_out ip held)
released-WithinCaps a held ip here (t, p) = (
  AtMost-le (length held) (length (take_out ip held)) a.max_total
      (omega (arith, length-take_out ip held here)) t,
  λ k.
      AtMost-le (count k held) (count k (take_out ip held)) a.max_per_ip
        (omega (arith, count-take_out k ip held here)) (p k),
)

pub arrive-Sound :
    (total per_ip : Option ℕ) (x : Admission × List IpAddr) (ip : IpAddr)
    → Sound total per_ip x
    → Sound total per_ip (act (arrive ip) x)
unfolding act try_admit
arrive-Sound total per_ip (a, held) ip (t, p, acc, caps) =
    elim (Bool-cases (below a.state.total a.max_total)) [
      | inr e ↦ rw e (t, p, acc, caps)
      | inl e ↦ elim (Bool-cases (below (get ip a.state.per_ip) a.max_per_ip)) [
        | inr f ↦ rw (e, f) (t, p, acc, caps)
        | inl f ↦
            rw (e, f)
              (
                t,
                p,
                admitted-Accounts a held ip acc,
                admitted-WithinCaps a held ip acc caps
                    ((below-AtMost a.state.total a.max_total).0 e)
                    ((below-AtMost (get ip a.state.per_ip) a.max_per_ip).0 f),
              )
      ]
    ]

pub leave-Sound :
    (total per_ip : Option ℕ) (x : Admission × List IpAddr) (ip : IpAddr)
    → Sound total per_ip x
    → Sound total per_ip (act (leave ip) x)
unfolding act release
leave-Sound total per_ip (a, held) ip (t, p, acc, caps) =
    elim (Bool-cases (ltb 0 (count ip held))) [
      | inr e ↦ rw e (t, p, acc, caps)
      | inl e ↦
          let here : 1 ≤ count ip held = ground arith in
          rw e (t, p, released-Accounts a held ip here acc, released-WithinCaps a held ip here caps)
    ]

run-keeps :
    (total per_ip : Option ℕ) (history : List Action) (x : Admission × List IpAddr)
    → Sound total per_ip x
    → Sound total per_ip (run history x)
unfolding run
run-keeps total per_ip [] x h = h
run-keeps total per_ip (arrive ip ∷ es) x h =
    run-keeps total per_ip es (act (arrive ip) x) (arrive-Sound total per_ip x ip h)
run-keeps total per_ip (leave ip ∷ es) x h =
    run-keeps total per_ip es (act (leave ip) x) (leave-Sound total per_ip x ip h)

-- After every history that starts with no connection, the counts are those of the permits that are
-- out, in total and for each address, no entry is left for an address without one, and neither cap
-- is exceeded.
pub run-Sound :
    (total per_ip : Option ℕ) (history : List Action)
    → Sound total per_ip (run history (new total per_ip, []))
unfolding new
run-Sound total per_ip history =
    run-keeps total per_ip history (new total per_ip, [])
      (refl, refl, (refl, (λ ip. refl), tt), (AtMost-zero total, (λ ip. AtMost-zero per_ip)))
