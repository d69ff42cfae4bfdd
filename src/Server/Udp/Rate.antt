-- ===== src/Server/Udp/Rate.antt =====
-- The rate limit on what a client sends.
use next_socks.Server.Udp.Budget.{
  Spends, Frame, resolve_target-Frame, track-Frame, InWindow, from_others, unsent, beside, failing,
  beside-cons,
}
use next_socks.Server.Udp.{
  Relay, Setup, Answers, Input, datagram, receive_failed, control_data, control_closed,
  shutdown_changed, addr_from_socket, is_client, lock_client, roll_window, check_rate,
  resolve_target, max_targets, push_send, count_send, after_send, forward, forward_resolved,
  within_budget, relay_out, from_client, from_target, on_datagram, step, start, run,
}
use next_socks.Prelude.{
  ltb, ◌==◌, if◌then◌else◌, ltb→lt, Bool-cases, Option-cases, if_elim, Result, ok, err, length,
  length-append, All, ℕ, ◌+◌, ◌-◌, ◌≤◌, ◌<◌, ◌≡◌, refl, sym, ap, ◌∙◌, subst, inl, inr, Bool, true,
  false, Option, none, some, List, [], ◌∷◌, ◌++◌, arith,
}
use next_socks.Net.{SocketAddr, same_socket, has}
use next_socks.Config.Policy.{is_blocked}
use next_socks.Protocol.Udp.{UdpDatagram, UdpError, decap_ref, encap}

module _ (s : Setup) (limit : ℕ) (limited : s.config.limits.udp_rate_pps ≡ some limit) where
  count_send-some : (r : Relay) → count_send s r ≡ record r { window_count = r.window_count + 1 }
  unfolding count_send
  count_send-some r = rw limited refl

  after_send-Spends :
      (t : SocketAddr) (payload : List ℕ) (r : Relay)
      → r.window_count < limit
      → Spends limit 0 r (after_send s t payload (push_send t payload r))
  unfolding after_send push_send
  after_send-Spends t payload r p =
      let pushed : Relay = record r { sends = r.sends ++ (t, payload) ∷ [] } in
      let counted : Relay = record pushed { window_count = r.window_count + 1 } in
      let (c, w, n, e) = track-Frame (max_targets s) t counted in
      let grown = length-append r.sends ((t, payload) ∷ []) in
      let more = ap length e in rw (count_send-some pushed) (c, w, omega arith, omega arith)

  push_send-Spends :
      (t : SocketAddr) (payload : List ℕ) (r : Relay)
      → r.window_count < limit
      → Spends limit 1 r (push_send t payload r)
  unfolding push_send
  push_send-Spends t payload r p =
      let grown = length-append r.sends ((t, payload) ∷ []) in
      (refl, refl, omega arith, omega arith)

  sent-Spends :
      (sent : Bool) (t : SocketAddr) (payload : List ℕ) (r : Relay)
      → r.window_count < limit
      → let r' = push_send t payload r in
        Spends limit (if sent then 0 else 1) r (if sent then after_send s t payload r' else r')
  sent-Spends true t payload r p = after_send-Spends t payload r p
  sent-Spends false t payload r p = push_send-Spends t payload r p

  forward-Spends :
      (ans : Answers) (t : SocketAddr) (payload : List ℕ) (r : Relay)
      → r.window_count < limit
      → Spends limit (failing ans) r (forward s ans t payload r)
  unfolding forward
  forward-Spends ans t payload r p =
      if_elim (Spends limit (failing ans) r) (is_blocked s.config.egress t.ip) r
        (if ans.sent then after_send s t payload (push_send t payload r) else push_send t payload r)
        (λ b. (refl, refl, omega arith, omega arith)) (λ b. sent-Spends ans.sent t payload r p)

  forward_resolved-Spends :
      (ans : Answers) (payload : List ℕ) (x : Option SocketAddr × Relay)
      → x.1.window_count < limit
      → Spends limit (failing ans) x.1 (forward_resolved s ans payload x)
  unfolding forward_resolved
  forward_resolved-Spends ans payload (none, r) p = (refl, refl, omega arith, omega arith)
  forward_resolved-Spends ans payload (some t, r) p = forward-Spends ans t payload r p

  Frame-Spends :
      (extra : ℕ) (a b c : Relay) → Frame a b → Spends limit extra b c → Spends limit extra a c
  Frame-Spends extra a b c (x, y, z, e) (x', y', z', e') =
      let same = ap length e in (x' ∙ x, y' ∙ y, z', omega arith)

  within_budget-Spends :
      (ans : Answers) (d : UdpDatagram) (x : Bool × Relay)
      → x.1.window_count ≤ limit
      → (x.0 ≡ true → x.1.window_count < limit)
      → Spends limit (failing ans) x.1 (within_budget s ans d x)
  unfolding within_budget
  within_budget-Spends ans d (false, r) p q = (refl, refl, p, omega arith)
  within_budget-Spends ans d (true, r) p q =
      let resolved = resolve_target s ans d.address r in
      let frame = resolve_target-Frame s ans d.address r in
      let room = q refl in
      Frame-Spends (failing ans) r resolved.1 (forward_resolved s ans d.payload resolved) frame
        (forward_resolved-Spends ans d.payload resolved (omega arith))

  -- In the window the budget is not renewed.
  check_rate-eq :
      (now : ℕ) (r : Relay)
      → now - r.window_start < 1000
      → check_rate (some limit) now r ≡ (ltb r.window_count limit, r)
  unfolding check_rate roll_window
  check_rate-eq now r p = ground arith

  relay_out-Spends :
      (ans : Answers) (d : Result UdpDatagram UdpError) (r : Relay)
      → ans.now - r.window_start < 1000
      → r.window_count ≤ limit
      → Spends limit (failing ans) r (relay_out s ans d r)
  unfolding relay_out
  relay_out-Spends ans (err e) r t p = (refl, refl, p, omega arith)
  relay_out-Spends ans (ok d) r t p =
      let x = check_rate s.config.limits.udp_rate_pps ans.now r in
      let e : x ≡ (ltb r.window_count limit, r) =
        ap (λ l. check_rate l ans.now r) limited ∙ check_rate-eq ans.now r t in
      if_elim (Spends limit (failing ans) r) (d.frag == 0) (within_budget s ans d x) r
        (λ b. rw e (
          within_budget-Spends ans d (ltb r.window_count limit, r) p
            (λ h. ltb→lt r.window_count limit h)))
        (λ b. (refl, refl, p, omega arith))

  -- A reply goes out beside the budget.
  from_target-Spends :
      (bytes : List ℕ) (src : SocketAddr) (r : Relay)
      → r.window_count ≤ limit
      → Spends limit 1 r (from_target s bytes src r)
  unfolding from_target push_send
  from_target-Spends bytes src r p = elim (Option-cases r.client) [
    | inl e ↦ rw (e, from_target) (e, refl, p, omega arith)
    | inr (dst, e) ↦
        let grown = length-append r.sends ((dst, encap (addr_from_socket src) bytes []) ∷ []) in
        rw (e, from_target) (e, refl, p, omega arith)
  ]

  is_client-known :
      (src client : SocketAddr) (r : Relay)
      → r.client ≡ some client
      → is_client s src r ≡ same_socket src client
  unfolding is_client
  is_client-known src client r known = rw (known, is_client) refl

  lock_client-known :
      (src client : SocketAddr) (r : Relay) → r.client ≡ some client → lock_client src r ≡ r
  unfolding lock_client
  lock_client-known src client r known = ground arith

  Spends-more : (m n : ℕ) (a b : Relay) → m ≤ n → Spends limit m a b → Spends limit n a b
  Spends-more m n a b h (x, y, z, e) = (x, y, z, omega arith)

  on_datagram-Spends :
      (bytes : List ℕ) (src client : SocketAddr) (ans : Answers) (r : Relay)
      → r.client ≡ some client
      → InWindow r.window_start (datagram bytes src ans)
      → r.window_count ≤ limit
      → Spends limit
          ((if same_socket src client then 0 else 1) + failing ans)
          r
          (on_datagram s bytes src ans r)
  unfolding on_datagram from_client
  on_datagram-Spends bytes src client ans r known t p =
      let mine : is_client s src r ≡ same_socket src client = is_client-known src client r known in
      let locked : lock_client src r ≡ r = lock_client-known src client r known in
      elim (Bool-cases (same_socket src client)) [
        | inl e ↦
            rw (mine, e, locked)
              (Spends-more (failing ans) (0 + failing ans) r (relay_out s ans (decap_ref bytes) r)
                (omega arith) (relay_out-Spends ans (decap_ref bytes) r t p))
        | inr e ↦
            rw (mine, e)
              (if_elim (Spends limit (1 + failing ans) r) (has src r.known)
                (from_target s bytes src r) r
                (λ b.
                  Spends-more 1 (1 + failing ans) r (from_target s bytes src r) (omega arith)
                    (from_target-Spends bytes src r p))
                (λ b. (refl, refl, p, omega arith)))
      ]

  Spends-trans :
      (m n : ℕ) (a b c : Relay) → Spends limit m a b → Spends limit n b c → Spends limit (m + n) a c
  Spends-trans m n a b c (x, y, z, e) (x', y', z', e') = (x' ∙ x, y' ∙ y, z', omega arith)

  step-Spends :
      (client : SocketAddr) (i : Input) (r : Relay)
      → r.client ≡ some client
      → InWindow r.window_start i
      → r.window_count ≤ limit
      → Spends limit (beside client (i ∷ [])) r (step s i r).1
  unfolding step
  step-Spends client (datagram bytes src ans) r known w p =
      subst (λ k. Spends limit k r (on_datagram s bytes src ans r)) (sym (omega arith))
        (on_datagram-Spends bytes src client ans r known w p)
  step-Spends client receive_failed r known w p = (refl, refl, p, omega arith)
  step-Spends client control_data r known w p = (refl, refl, p, omega arith)
  step-Spends client control_closed r known w p = (refl, refl, p, omega arith)
  step-Spends client (shutdown_changed stop) r known w p = (refl, refl, p, omega arith)

  run-Spends :
      (client : SocketAddr) (inputs : List Input) (r : Relay)
      → r.client ≡ some client
      → All (InWindow r.window_start) inputs
      → r.window_count ≤ limit
      → Spends limit (beside client inputs) r (run s inputs r)
  unfolding run
  run-Spends client [] r known w p = (refl, refl, p, omega arith)
  run-Spends client (i ∷ rest) r known (w, later) p =
      let next = step s i r in
      let first = step-Spends client i r known w p in
      let (c, start, within, spent) = first in
      let ih =
        run-Spends client rest next.1 (c ∙ known)
          (subst (λ t. All (InWindow t) rest) (sym start) later) within in
      let more = beside-cons client i rest in
      if_elim (Spends limit (beside client (i ∷ rest)) r) next.0 (run s rest next.1) next.1
        (λ b.
          Spends-more (beside client (i ∷ []) + beside client rest) (beside client (i ∷ rest)) r
            (run s rest next.1) (omega (arith, more))
            (Spends-trans (beside client (i ∷ [])) (beside client rest) r next.1 (run s rest next.1)
              first ih))
        (λ b.
          Spends-more (beside client (i ∷ [])) (beside client (i ∷ rest)) r next.1
            (omega (arith, more)) first)

-- Within one window of a second a relay with a known client hands no more datagrams to its socket than
-- what is left of the configured budget, and one for each datagram that comes from another address, and
-- one for each datagram whose send fails, since a failed send is not counted; and the count of the
-- window stays within the limit, so that its `u32` does not overflow.
pub run-Limited :
    (s : Setup) (limit : ℕ) (client : SocketAddr) (inputs : List Input) (r : Relay)
    → s.config.limits.udp_rate_pps ≡ some limit
    → r.client ≡ some client
    → All (InWindow r.window_start) inputs
    → r.window_count ≤ limit
    → let r' = run s inputs r in
      (length r'.sends
        ≤ length r.sends + (limit - r.window_count) + from_others client inputs + unsent inputs)
      × (r'.window_count ≤ limit)
run-Limited s limit client inputs r limited known w p =
    let (c, start, within, spent) = run-Spends s limit limited client inputs r known w p in
    (omega arith, within)
