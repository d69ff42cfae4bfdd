-- ===== src/Server/Udp/Quiet.antt =====
-- What a UDP association does to the counters and the registry, up to its end.
use next_socks.Config.Policy.{is_blocked}
use next_socks.Prelude.{
  ltb, ◌==◌, if◌then◌else◌, Option-cases, if_elim, Result, ok, err, length, ℕ, ◌≡◌, refl, sym, ◌∙◌,
  subst, inl, inr, Bool, true, false, Option, none, some, List, [], ◌∷◌, ◌++◌, arith,
}
use next_socks.Net.{SocketAddr, has}
use next_socks.Metrics.{Metrics, add_up}
use next_socks.Metrics.Registry.{Quiet, Quiet-refl, Quiet-trans, add_up-Quiet, add_down-Quiet}
use next_socks.Protocol.Address.{Address, v4, v6}
use next_socks.Protocol.Udp.{UdpDatagram, UdpError, decap_ref}
use next_socks.Server.Udp.{
  Relay, Setup, Answers, Input, datagram, receive_failed, control_data, control_closed,
  shutdown_changed, is_client, lock_client, roll_window, check_rate, note_dns_error, resolve_target,
  max_targets, drop_oldest, evict, track, push_send, count_send, after_send, forward,
  forward_resolved, within_budget, relay_out, from_client, from_target, on_datagram, step, run,
}

Quiet-same : (id : ℕ) (m m' : Metrics) → m' ≡ m → Quiet id m m'
Quiet-same id m m' e = subst (Quiet id m) (sym e) (Quiet-refl id m)

-- The steps that leave the counters alone.
lock_client-metrics : (src : SocketAddr) (r : Relay) → (lock_client src r).metrics ≡ r.metrics
unfolding lock_client
lock_client-metrics src r = elim (Option-cases r.client) [
  | inr (c, e) ↦ rw e refl
  | inl e ↦ rw e refl
]

roll_window-metrics : (now : ℕ) (r : Relay) → (roll_window now r).metrics ≡ r.metrics
unfolding roll_window
roll_window-metrics now r = ground arith

check_rate-metrics :
    (limit : Option ℕ) (now : ℕ) (r : Relay) → (check_rate limit now r).1.metrics ≡ r.metrics
unfolding check_rate
check_rate-metrics none now r = refl
check_rate-metrics (some limit) now r = roll_window-metrics now r

note_dns_error-metrics : (now : ℕ) (r : Relay) → (note_dns_error now r).metrics ≡ r.metrics
unfolding note_dns_error
note_dns_error-metrics now r = ground arith

resolve_target-metrics :
    (s : Setup) (ans : Answers) (a : Address) (r : Relay)
    → (resolve_target s ans a r).1.metrics ≡ r.metrics
unfolding resolve_target
resolve_target-metrics s ans (v4 o port) r = refl
resolve_target-metrics s ans (v6 o port) r = refl
resolve_target-metrics s ans (Address.domain host port) r =
    elim (Option-cases (ans.lookup host port)) [
      | inr (found, e) ↦ rw (e, resolve_target) refl
      | inl e ↦ rw (e, resolve_target) (note_dns_error-metrics ans.now r)
    ]

drop_oldest-metrics :
    (order : List SocketAddr) (r : Relay) → (drop_oldest order r).metrics ≡ r.metrics
unfolding drop_oldest
drop_oldest-metrics [] r = refl
drop_oldest-metrics (old ∷ rest) r = refl

evict-metrics : (limit : ℕ) (r : Relay) → (evict limit r).metrics ≡ r.metrics
unfolding evict
evict-metrics limit r =
    if_elim (λ (x : Relay). x.metrics ≡ r.metrics) (ltb limit (length r.order))
      (drop_oldest r.order r) r (λ b. drop_oldest-metrics r.order r) (λ b. refl)

track-metrics :
    (limit : ℕ) (target : SocketAddr) (r : Relay) → (track limit target r).metrics ≡ r.metrics
unfolding track
track-metrics limit target r =
    let r' = record r { known = r.known ++ target ∷ []; order = r.order ++ target ∷ [] } in
    if_elim (λ (x : Relay). x.metrics ≡ r.metrics) (has target r.known) r (evict limit r')
      (λ b. refl) (λ b. evict-metrics limit r')

count_send-metrics : (s : Setup) (r : Relay) → (count_send s r).metrics ≡ r.metrics
unfolding count_send
count_send-metrics s r = elim (Option-cases s.config.limits.udp_rate_pps) [
  | inr (limit, e) ↦ rw e refl
  | inl e ↦ rw e refl
]

module _ (s : Setup) where
  abbrev Quietly : Relay → Relay → Type 0
  Quietly r r' = Quiet s.id r.metrics r'.metrics

  after_send-Quiet :
      (target : SocketAddr) (payload : List ℕ) (r : Relay)
      → Quietly r (after_send s target payload r)
  unfolding after_send
  after_send-Quiet target payload r =
      let tracked = track (max_targets s) target (count_send s r) in
      let same : tracked.metrics ≡ r.metrics =
        track-metrics (max_targets s) target (count_send s r) ∙ count_send-metrics s r in
      Quiet-trans s.id r.metrics tracked.metrics (add_up tracked.metrics s.id (length payload))
        (Quiet-same s.id r.metrics tracked.metrics same)
        (add_up-Quiet tracked.metrics s.id (length payload))

  forward-Quiet :
      (ans : Answers) (target : SocketAddr) (payload : List ℕ) (r : Relay)
      → Quietly r (forward s ans target payload r)
  unfolding forward push_send
  forward-Quiet ans target payload r =
      let r' = push_send target payload r in
      let sent = after_send s target payload r' in
      if_elim (Quietly r) (is_blocked s.config.egress target.ip) r (if ans.sent then sent else r')
        (λ b. Quiet-refl s.id r.metrics)
        (λ b.
          if_elim (Quietly r) ans.sent sent r' (λ c. after_send-Quiet target payload r')
            (λ c. Quiet-refl s.id r.metrics))

  forward_resolved-Quiet :
      (ans : Answers) (payload : List ℕ) (x : Option SocketAddr × Relay)
      → Quietly x.1 (forward_resolved s ans payload x)
  unfolding forward_resolved
  forward_resolved-Quiet ans payload (none, r) = Quiet-refl s.id r.metrics
  forward_resolved-Quiet ans payload (some target, r) = forward-Quiet ans target payload r

  within_budget-Quiet :
      (ans : Answers) (d : UdpDatagram) (x : Bool × Relay) → Quietly x.1 (within_budget s ans d x)
  unfolding within_budget
  within_budget-Quiet ans d (false, r) = Quiet-refl s.id r.metrics
  within_budget-Quiet ans d (true, r) =
      let x = resolve_target s ans d.address r in
      let after = forward_resolved s ans d.payload x in
      Quiet-trans s.id r.metrics x.1.metrics after.metrics
        (Quiet-same s.id r.metrics x.1.metrics (resolve_target-metrics s ans d.address r))
        (forward_resolved-Quiet ans d.payload x)

  relay_out-Quiet :
      (ans : Answers) (x : Result UdpDatagram UdpError) (r : Relay)
      → Quietly r (relay_out s ans x r)
  unfolding relay_out
  relay_out-Quiet ans (err e) r = Quiet-refl s.id r.metrics
  relay_out-Quiet ans (ok d) r =
      let x = check_rate s.config.limits.udp_rate_pps ans.now r in
      let after = within_budget s ans d x in
      if_elim (Quietly r) (d.frag == 0) after r
        (λ b.
          Quiet-trans s.id r.metrics x.1.metrics after.metrics
            (Quiet-same s.id r.metrics x.1.metrics
              (check_rate-metrics s.config.limits.udp_rate_pps ans.now r))
            (within_budget-Quiet ans d x))
        (λ b. Quiet-refl s.id r.metrics)

  from_target-Quiet :
      (bytes : List ℕ) (src : SocketAddr) (r : Relay) → Quietly r (from_target s bytes src r)
  unfolding from_target push_send
  from_target-Quiet bytes src r = elim (Option-cases r.client) [
    | inr (dst, e) ↦ rw e (add_down-Quiet r.metrics s.id (length bytes))
    | inl e ↦ rw e (Quiet-refl s.id r.metrics)
  ]

  on_datagram-Quiet :
      (bytes : List ℕ) (src : SocketAddr) (ans : Answers) (r : Relay)
      → Quietly r (on_datagram s bytes src ans r)
  unfolding on_datagram from_client
  on_datagram-Quiet bytes src ans r =
      let locked = lock_client src r in
      let out = relay_out s ans (decap_ref bytes) locked in
      let back = from_target s bytes src r in
      if_elim (Quietly r) (is_client s src r) out (if has src r.known then back else r)
        (λ b.
          Quiet-trans s.id r.metrics locked.metrics out.metrics
            (Quiet-same s.id r.metrics locked.metrics (lock_client-metrics src r))
            (relay_out-Quiet ans (decap_ref bytes) locked))
        (λ b.
          if_elim (Quietly r) (has src r.known) back r (λ c. from_target-Quiet bytes src r)
            (λ c. Quiet-refl s.id r.metrics))

  step-Quiet : (i : Input) (r : Relay) → Quietly r (step s i r).1
  unfolding step
  step-Quiet (datagram bytes src ans) r = on_datagram-Quiet bytes src ans r
  step-Quiet receive_failed r = Quiet-refl s.id r.metrics
  step-Quiet control_data r = Quiet-refl s.id r.metrics
  step-Quiet control_closed r = Quiet-refl s.id r.metrics
  step-Quiet (shutdown_changed stop) r = Quiet-refl s.id r.metrics

  -- The relay of an association touches no entry of the registry but its own, and leaves the number of
  -- active connections alone.
  pub run-Quiet : (inputs : List Input) (r : Relay) → Quietly r (run s inputs r)
  unfolding run
  run-Quiet [] r = Quiet-refl s.id r.metrics
  run-Quiet (i ∷ rest) r =
      let next = step s i r in
      let later = run s rest next.1 in
      if_elim (Quietly r) next.0 later next.1
        (λ b.
          Quiet-trans s.id r.metrics next.1.metrics later.metrics (step-Quiet i r)
            (run-Quiet rest next.1))
        (λ b. step-Quiet i r)
