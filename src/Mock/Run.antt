-- ===== src/Mock/Run.antt =====
-- The generator never panics, and leaves the registry as it found it.
use next_socks.Metrics.Entries.{Below, remove-Below}
use next_socks.Mock.Draws.{
  below_lt, port_lt, chance-asked, get_elem?-some, synthetic_addr-some, Succeeds,
  maybe_auth-Succeeds,
}
use next_socks.Prelude.{
  ltb, if◌then◌else◌, ltb→lt, if_elim, ok, length, All, ℕ, suc, ◌+◌, ◌<◌, ◌≡◌, refl, ◌∙◌, Bool,
  true, false, some, List, [], ◌∷◌, ◌++◌, arith,
}
use next_socks.Net.{ip_v4, SocketAddr}
use next_socks.Metrics.{
  ConnKind, connect, udp, ConnInfo, connected, closed, log, Metrics, u64_mod, register, unregister,
  record_success, active,
}
use next_socks.Mock.{
  max_active, below, targets, Generator, new_generator, chance, synthetic_addr, open_connection,
  maybe_open, push_bytes, close_connection, maybe_close, maybe_fail, step, unregister_all, drain,
  Turn, ticked, changed, turn_all, run,
}
use next_socks.Mock.Removal.{Absorbs-all, take_at-remove}
use next_socks.Mock.Cleanup.{Ours, weaken-Ours, register-Ours, push_bytes-Ours, maybe_fail-Ours}

module _ (base : List ConnInfo) (n k : ℕ) where
  abbrev Held : Generator → Type 0
  Held g = Ours base n k g.active g.metrics

  open_connection-Succeeds :
      (g : Generator)
      → length g.active < max_active
      → Ours base n (suc k) g.active g.metrics
      → Succeeds Held (open_connection g)
  unfolding open_connection
  open_connection-Succeeds g few h =
      let chosen = below 100 g.rng in
      let kind = if ltb chosen.0 75 then connect else udp in
      let a = below 256 chosen.1 in
      let b = below 256 a.1 in
      let p = below 60000 b.1 in
      let which = below (length targets) p.1 in
      let addr : SocketAddr = record { ip = ip_v4 (10 ∷ 0 ∷ a.0 ∷ b.0 ∷ []); port = 1024 + p.0 } in
      let parsed : synthetic_addr a.0 b.0 (1024 + p.0) ≡ some addr =
        synthetic_addr-some a.0 b.0 (1024 + p.0) (below_lt 256 chosen.1 (omega arith))
          (below_lt 256 a.1 (omega arith)) (port_lt p.0 (below_lt 60000 b.1 (omega arith))) in
      let (target, e) =
        get_elem?-some targets which.0 (below_lt (length targets) p.1 (omega arith)) in
      let added = register g.metrics addr target kind in
      let g' : Generator = record {
        rng = which.1;
        active = g.active ++ (added.0, kind) ∷ [];
        metrics = added.1;
        sent = g.sent ++ connected added.0 addr target kind ∷ [];
      } in
      let (g'', same, (active, metrics)) = maybe_auth-Succeeds g' in
      (
        g'',
        rw parsed (rw e same),
        rw (active, metrics) (register-Ours base n k g.active g.metrics addr target kind few h),
      )

  maybe_open-Succeeds :
      (g : Generator) → Ours base n (suc k) g.active g.metrics → Succeeds Held (maybe_open g)
  unfolding maybe_open
  maybe_open-Succeeds g h =
      let asked = ltb (length g.active) max_active in
      let drawn = chance asked 40 g.rng in
      let g' = record g { rng = drawn.1 } in
      if_elim (Succeeds Held) drawn.0 (open_connection g') (ok g')
        (λ b.
          open_connection-Succeeds g'
            (ltb→lt (length g.active) max_active (chance-asked asked 40 g.rng b)) h)
        (λ b. (g', refl, weaken-Ours base n k g.active g.metrics h))

  close_connection-Succeeds :
      (i : ℕ) (g : Generator) → i < length g.active → Held g → Succeeds Held (close_connection i g)
  unfolding close_connection unregister record_success
  close_connection-Succeeds i g p h =
      let (x, rest, e, shorter, same) = take_at-remove i g.active p in
      let m = record_success (unregister g.metrics x.0) in
      (
        record g { active = rest; metrics = m; sent = g.sent ++ closed x.0 ∷ [] },
        rw e refl,
        record {
          fresh = remove-Below g.metrics.next_id x.0 g.metrics.registry h.fresh;
          others = same g.metrics.registry ∙ h.others;
          counted = omega (arith, h.counted);
          few = omega (arith, h.few);
          room = h.room;
        },
      )

  maybe_close-Succeeds : (g : Generator) → Held g → Succeeds Held (maybe_close g)
  unfolding maybe_close
  maybe_close-Succeeds g h =
      let asked = ltb 0 (length g.active) in
      let drawn = chance asked 30 g.rng in
      let which = below (length g.active) drawn.1 in
      if_elim (Succeeds Held) drawn.0 (close_connection which.0 (record g { rng = which.1 }))
        (ok (record g { rng = drawn.1 }))
        (λ b.
          close_connection-Succeeds which.0 (record g { rng = which.1 })
            (below_lt (length g.active) drawn.1
              (ltb→lt 0 (length g.active) (chance-asked asked 30 g.rng b)))
            h)
        (λ b. (record g { rng = drawn.1 }, refl, h))

  step-Succeeds :
      (budget : ℕ) (g : Generator)
      → Ours base n (suc k) g.active g.metrics
      → Succeeds Held (step budget g)
  unfolding step
  step-Succeeds budget g h =
      let (g₁, e₁, h₁) = maybe_open-Succeeds g h in
      let g₂ = push_bytes budget g₁.active g₁ in
      let h₂ = push_bytes-Ours base n k budget g₁.active g₁ (Absorbs-all g₁.active) h₁ in
      let (g₃, e₃, h₃) = maybe_close-Succeeds g₂ h₂ in
      (maybe_fail g₃, rw e₁ (rw e₃ refl), maybe_fail-Ours base n k g₃ h₃)

  -- Draining gives the registry and the count back.
  unregister_all-Ours :
      (own : List (ℕ × ConnKind)) (m : Metrics)
      → Ours base n k own m
      → Ours base n k [] (unregister_all own m)
  unfolding unregister_all unregister
  unregister_all-Ours [] m h = h
  unregister_all-Ours ((id, kind) ∷ rest) m h = unregister_all-Ours rest (unregister m id) (record {
    fresh = remove-Below m.next_id id m.registry h.fresh;
    others = h.others;
    counted = omega (arith, h.counted);
    few = omega (arith, h.few);
    room = h.room;
  })

-- How the loop leaves things: while it runs, its own connections are in the registry beside the
-- others; once it has ended, it has none.
abbrev pub Leaves : List ConnInfo → ℕ → Bool × Generator → Type 0
Leaves base n (ended, g) = Ours base n 0 g.active g.metrics × (ended ≡ true → g.active ≡ [])

no_room :
    (base : List ConnInfo) (n k : ℕ) (own : List (ℕ × ConnKind)) (m : Metrics)
    → Ours base n k own m
    → Ours base n 0 own m
no_room base n k own m h = record {
  fresh = h.fresh;
  others = h.others;
  counted = h.counted;
  few = h.few;
  room = omega (arith, h.room);
}

turn_all-Leaves :
    (base : List ConnInfo) (n : ℕ) (turns : List Turn) (g : Generator)
    → Ours base n (length turns) g.active g.metrics
    → (x : Bool × Generator) × (turn_all turns g ≡ ok x) × Leaves base n x
unfolding turn_all drain
turn_all-Leaves base n [] g h = ((false, g), refl, (h, λ e. absurd (cc)))
turn_all-Leaves base n (ticked budget ∷ rest) g h =
    let (g', e, h') = step-Succeeds base n (length rest) budget g h in
    let (x, e', l) = turn_all-Leaves base n rest g' h' in (x, rw e e', l)
turn_all-Leaves base n (changed true ∷ rest) g h = (
  (true, drain g),
  refl,
  (
    unregister_all-Ours base n 0 g.active g.metrics
        (no_room base n (suc (length rest)) g.active g.metrics h),
    λ e. refl,
  ),
)
turn_all-Leaves base n (changed false ∷ rest) g h =
    turn_all-Leaves base n rest g (weaken-Ours base n (length rest) g.active g.metrics h)

-- The generator never panics, however many steps it takes, as long as there are ids for them: the
-- addresses that it makes parse, and it looks up targets, users and connections within bounds. While
-- it runs, it has twelve connections at most, each counted as active, and without them the registry is
-- what it was; once it has ended it has none, so that the registry and the count of active
-- connections are what they were.
pub run-Leaves :
    (turns : List Turn) (m : Metrics)
    → All (Below m.next_id) m.registry
    → m.active_conns < u64_mod
    → m.next_id + length turns < u64_mod
    → (x : Bool × Generator) × (run turns m ≡ ok x) × Leaves m.registry m.active_conns x
unfolding run
run-Leaves turns m fresh small room =
    turn_all-Leaves m.registry m.active_conns turns (record (new_generator m) { sent = log ∷ [] })
      (record {
        fresh = fresh;
        others = refl;
        counted = omega arith;
        few = omega arith;
        room = room;
      })
