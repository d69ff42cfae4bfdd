-- ===== src/Mock/Cleanup.antt =====
-- What each change of the registry by the generator keeps.
use next_socks.Prelude.{
  if_elim, length, length-append, All, ℕ, suc, ◌+◌, ◌/◌, ◌%◌, ◌≤◌, ◌<◌, ◌≡◌, refl, sym, ap, ◌∙◌,
  true, List, [], ◌∷◌, ◌++◌, arith,
}
use next_socks.Net.{SocketAddr}
use next_socks.Wire.{Str}
use next_socks.Metrics.{
  ConnKind, ConnInfo, error, Metrics, u64_mod, add_u64, remove, register, add_up, add_down,
  record_error,
}
use next_socks.Metrics.Entries.{Below, find-Below, weaken-Below, remove-absent, update-Below}
use next_socks.Mock.{max_active, below, Generator, chance, push_one, push_bytes, maybe_fail}
use next_socks.Mock.Removal.{
  remove_all, remove_all-snoc, remove_all-remove, Absorbs, remove_all-update,
}

-- `base` is the registry beside the generator's own connections, `n` the count of the active ones in
-- it, and `k` the number of steps for which there still are ids.
pub record Ours (base : List ConnInfo) (n k : ℕ) (own : List (ℕ × ConnKind)) (m : Metrics)
    : Type 0 where
  pub fresh : All (Below m.next_id) m.registry
  pub others : remove_all own m.registry ≡ base
  pub counted : m.active_conns ≡ (n + length own) % u64_mod
  pub few : length own ≤ max_active
  pub room : m.next_id + k < u64_mod

-- An entry that was not there is put in and taken out again.
remove-fresh :
    (c : ConnInfo) (cs : List ConnInfo)
    → remove c.id cs ≡ cs
    → remove c.id (c ∷ remove c.id cs) ≡ cs
remove-fresh c cs e = ground (arith, e)

module _ (base : List ConnInfo) (n k : ℕ) where
  pub weaken-Ours :
      (own : List (ℕ × ConnKind)) (m : Metrics) → Ours base n (suc k) own m → Ours base n k own m
  weaken-Ours own m h = record {
    fresh = h.fresh;
    others = h.others;
    counted = h.counted;
    few = h.few;
    room = omega (arith, h.room);
  }

  pub register-Ours :
      (own : List (ℕ × ConnKind)) (m : Metrics) (addr : SocketAddr) (target : Str) (kind : ConnKind)
      → length own < max_active
      → Ours base n (suc k) own m
      → let added = register m addr target kind in
        Ours base n k (own ++ (added.0, kind) ∷ []) added.1
  unfolding register
  register-Ours own m addr target kind few h =
      let same = remove-absent m.next_id m.registry (find-Below m.next_id m.registry h.fresh) in
      let info : ConnInfo = record {
        id = m.next_id;
        src = addr;
        target = target;
        kind = kind;
        up = 0;
        down = 0;
      } in
      let next : add_u64 m.next_id 1 ≡ m.next_id + 1 = omega (arith, h.room) in
      let longer : length (own ++ (m.next_id, kind) ∷ []) ≡ length own + 1 =
        length-append own ((m.next_id, kind) ∷ []) in
      record {
        fresh = rw same (
          (omega (arith, next)),
          weaken-Below m.next_id (add_u64 m.next_id 1) m.registry (omega (arith, next)) h.fresh,
        );
        others =
            remove_all-snoc own m.next_id kind (info ∷ remove m.next_id m.registry)
            ∙ sym (remove_all-remove own m.next_id (info ∷ remove m.next_id m.registry))
            ∙ ap (remove_all own) (remove-fresh info m.registry same)
            ∙ h.others;
        counted = omega (arith, h.counted, longer);
        few = omega (arith, longer);
        room = omega (arith, next, h.room);
      }

  add_up-Ours :
      (own : List (ℕ × ConnKind)) (m : Metrics) (x : ℕ × ConnKind) (bytes : ℕ)
      → Absorbs own x
      → Ours base n k own m
      → Ours base n k own (add_up m x.0 bytes)
  unfolding add_up
  add_up-Ours own m x bytes a h =
      let f = λ (c : ConnInfo). record c { up = add_u64 c.up bytes } in
      record {
        fresh = update-Below f (λ c. refl) m.next_id x.0 m.registry h.fresh;
        others = remove_all-update f (λ c. refl) own x m.registry a ∙ h.others;
        counted = h.counted;
        few = h.few;
        room = h.room;
      }

  add_down-Ours :
      (own : List (ℕ × ConnKind)) (m : Metrics) (x : ℕ × ConnKind) (bytes : ℕ)
      → Absorbs own x
      → Ours base n k own m
      → Ours base n k own (add_down m x.0 bytes)
  unfolding add_down
  add_down-Ours own m x bytes a h =
      let f = λ (c : ConnInfo). record c { down = add_u64 c.down bytes } in
      record {
        fresh = update-Below f (λ c. refl) m.next_id x.0 m.registry h.fresh;
        others = remove_all-update f (λ c. refl) own x m.registry a ∙ h.others;
        counted = h.counted;
        few = h.few;
        room = h.room;
      }

  pub push_bytes-Ours :
      (budget : ℕ) (xs : List (ℕ × ConnKind)) (g : Generator)
      → All (Absorbs g.active) xs
      → Ours base n k g.active g.metrics
      → (Ours base n k (push_bytes budget xs g).active (push_bytes budget xs g).metrics)
  unfolding push_bytes push_one
  push_bytes-Ours budget [] g a h = h
  push_bytes-Ours budget (x ∷ xs) g a h =
      let up = below (budget / 8 + 1) g.rng in
      let down = below (budget + 1) up.1 in
      push_bytes-Ours budget xs (push_one budget x.0 g) a.1 (
        add_down-Ours g.active (add_up g.metrics x.0 (up.0 + budget / 16)) x (down.0 + budget / 4)
          a.0 (add_up-Ours g.active g.metrics x (up.0 + budget / 16) a.0 h))

  pub maybe_fail-Ours :
      (g : Generator)
      → Ours base n k g.active g.metrics
      → Ours base n k (maybe_fail g).active (maybe_fail g).metrics
  unfolding maybe_fail record_error
  maybe_fail-Ours g h =
      let drawn = chance true 12 g.rng in
      let which = below 8 drawn.1 in
      let code = 1 + which.0 in
      if_elim (λ (x : Generator). Ours base n k x.active x.metrics) drawn.0
        (record g {
          rng = which.1;
          metrics = record_error g.metrics code;
          sent = g.sent ++ error code ∷ [];
        })
        (record g { rng = drawn.1 })
        (λ b. record {
          fresh = h.fresh;
          others = h.others;
          counted = h.counted;
          few = h.few;
          room = h.room;
        })
        (λ b. h)
