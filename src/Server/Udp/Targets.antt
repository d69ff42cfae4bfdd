-- ===== src/Server/Udp/Targets.antt =====
-- The bookkeeping of an association: its bounded set of known targets and its rate window.
use next_socks.Config.Policy.{is_blocked}
use next_socks.Net.Sets.{Distinct, Distinct-append, without-absent, same_self}
use next_socks.Prelude.{
  ltb, ◌==◌, if◌then◌else◌, Bool-cases, Result, ok, err, length, length-append, ℕ, suc, ◌≤◌, ◌≡◌,
  sym, ap, ◌∙◌, subst, inl, inr, Bool, true, false, Option, none, some, List, [], ◌∷◌, ◌++◌, arith,
}
use next_socks.Net.{SocketAddr, SocketAddr-discrete, has, discard}
use next_socks.Server.Udp.{
  Relay, Setup, Answers, Input, datagram, receive_failed, control_data, control_closed,
  shutdown_changed, is_client, lock_client, roll_window, check_rate, note_dns_error, resolve_target,
  max_targets, drop_oldest, evict, track, push_send, count_send, after_send, forward,
  forward_resolved, within_budget, relay_out, from_client, from_target, on_datagram, step, run,
}
use next_socks.Protocol.Address.{Address}
use next_socks.Protocol.Udp.{UdpDatagram, UdpError, decap_ref}

-- The queue lists the set, each address once, and there are at most as many as configured.
abbrev pub Tracked : ℕ → Relay → Type 0
Tracked limit r =
    (r.known ≡ r.order) × Distinct SocketAddr-discrete r.order × (length r.order ≤ limit)

drop_oldest-Tracked :
    (limit : ℕ) (order : List SocketAddr) (r : Relay)
    → r.known ≡ order
    → Distinct SocketAddr-discrete order
    → length order ≤ suc limit
    → ltb limit (length order) ≡ true
    → Tracked limit (drop_oldest order r)
unfolding drop_oldest
drop_oldest-Tracked limit [] r e d p q = absurd (ground arith)
drop_oldest-Tracked limit (old ∷ rest) r e d p q = (
  ap (discard old) e
      ∙ rw (same_self SocketAddr-discrete old) (without-absent SocketAddr-discrete old rest d.0),
  d.1,
  omega arith,
)

evict-Tracked :
    (limit : ℕ) (r : Relay)
    → r.known ≡ r.order
    → Distinct SocketAddr-discrete r.order
    → length r.order ≤ suc limit
    → Tracked limit (evict limit r)
unfolding evict
evict-Tracked limit r e d p = elim (Bool-cases (ltb limit (length r.order))) [
  | inl q ↦ rw q (drop_oldest-Tracked limit r.order r e d p q)
  | inr q ↦ rw q (e, d, ground arith)
]

track-Tracked :
    (limit : ℕ) (t : SocketAddr) (r : Relay) → Tracked limit r → Tracked limit (track limit t r)
unfolding track
track-Tracked limit t r (e, d, p) = elim (Bool-cases (has t r.known)) [
  | inl q ↦ rw q (e, d, p)
  | inr q ↦ rw q (
      evict-Tracked limit (record r { known = r.known ++ t ∷ []; order = r.order ++ t ∷ [] })
        (ap (λ xs. xs ++ t ∷ []) e)
        (Distinct-append SocketAddr-discrete t r.order (ap (has t) (sym e) ∙ q) d)
        (omega (arith, length-append r.order (t ∷ []))))
]

-- Two states with the same targets.
abbrev Alike : Relay → Relay → Type 0
Alike r r' = (r'.known ≡ r.known) × (r'.order ≡ r.order)

module _ (s : Setup) where
  abbrev TrackedAfter : Relay → Relay → Type 0
  TrackedAfter r r' = Tracked (max_targets s) r → Tracked (max_targets s) r'

  Alike-TrackedAfter : (r r' : Relay) → Alike r r' → TrackedAfter r r'
  Alike-TrackedAfter r r' (k, o) (e, d, p) =
      (k ∙ e ∙ sym o, subst (Distinct SocketAddr-discrete) (sym o) d, rw o p)

  if-TrackedAfter :
      (b : Bool) (r x y : Relay)
      → TrackedAfter r x
      → TrackedAfter r y
      → TrackedAfter r (if b then x else y)
  if-TrackedAfter true r x y p q = p
  if-TrackedAfter false r x y p q = q

  check_rate-Alike : (limit : Option ℕ) (now : ℕ) (r : Relay) → Alike r (check_rate limit now r).1
  unfolding check_rate roll_window
  check_rate-Alike limit now r = ground arith

  resolve_target-Alike :
      (ans : Answers) (a : Address) (r : Relay) → Alike r (resolve_target s ans a r).1
  unfolding resolve_target note_dns_error
  resolve_target-Alike ans a r = ground arith

  lock_client-Alike : (src : SocketAddr) (r : Relay) → Alike r (lock_client src r)
  unfolding lock_client
  lock_client-Alike src r = ground arith

  from_target-Alike :
      (bytes : List ℕ) (src : SocketAddr) (r : Relay) → Alike r (from_target s bytes src r)
  unfolding from_target push_send
  from_target-Alike bytes src r = ground arith

  count_send-Alike : (r : Relay) → Alike r (count_send s r)
  unfolding count_send
  count_send-Alike r = ground arith

  after_send-TrackedAfter :
      (t : SocketAddr) (payload : List ℕ) (r : Relay) → TrackedAfter r (after_send s t payload r)
  unfolding after_send
  after_send-TrackedAfter t payload r h =
      track-Tracked (max_targets s) t (count_send s r)
        (Alike-TrackedAfter r (count_send s r) (count_send-Alike r) h)

  -- Whether the send succeeded or not.
  forward-TrackedAfter :
      (ans : Answers) (t : SocketAddr) (payload : List ℕ) (r : Relay)
      → TrackedAfter r (forward s ans t payload r)
  unfolding forward push_send
  forward-TrackedAfter ans t payload r =
      let r' = push_send t payload r in
      if-TrackedAfter (is_blocked s.config.egress t.ip) r r
        (if ans.sent then after_send s t payload r' else r') (λ h. h)
        (if-TrackedAfter ans.sent r (after_send s t payload r') r'
          (after_send-TrackedAfter t payload r') (λ h. h))

  forward_resolved-TrackedAfter :
      (ans : Answers) (payload : List ℕ) (x : Option SocketAddr × Relay)
      → TrackedAfter x.1 (forward_resolved s ans payload x)
  unfolding forward_resolved
  forward_resolved-TrackedAfter ans payload (none, r) = λ h. h
  forward_resolved-TrackedAfter ans payload (some t, r) = forward-TrackedAfter ans t payload r

  within_budget-TrackedAfter :
      (ans : Answers) (d : UdpDatagram) (x : Bool × Relay)
      → TrackedAfter x.1 (within_budget s ans d x)
  unfolding within_budget
  within_budget-TrackedAfter ans d (true, r) h =
      let resolved = resolve_target s ans d.address r in
      forward_resolved-TrackedAfter ans d.payload resolved
        (Alike-TrackedAfter r resolved.1 (resolve_target-Alike ans d.address r) h)
  within_budget-TrackedAfter ans d (false, r) h = h

  relay_out-TrackedAfter :
      (ans : Answers) (x : Result UdpDatagram UdpError) (r : Relay)
      → TrackedAfter r (relay_out s ans x r)
  unfolding relay_out
  relay_out-TrackedAfter ans (err e) r = λ h. h
  relay_out-TrackedAfter ans (ok d) r =
      let limit = s.config.limits.udp_rate_pps in
      let x = check_rate limit ans.now r in
      if-TrackedAfter (d.frag == 0) r (within_budget s ans d x) r
        (λ h.
          within_budget-TrackedAfter ans d x
            (Alike-TrackedAfter r x.1 (check_rate-Alike limit ans.now r) h))
        (λ h. h)

  on_datagram-TrackedAfter :
      (bytes : List ℕ) (src : SocketAddr) (ans : Answers) (r : Relay)
      → TrackedAfter r (on_datagram s bytes src ans r)
  unfolding on_datagram from_client
  on_datagram-TrackedAfter bytes src ans r =
      let locked = lock_client src r in
      if-TrackedAfter (is_client s src r) r (from_client s ans bytes locked)
        (if has src r.known then from_target s bytes src r else r)
        (λ h.
          relay_out-TrackedAfter ans (decap_ref bytes) locked
            (Alike-TrackedAfter r locked (lock_client-Alike src r) h))
        (if-TrackedAfter (has src r.known) r (from_target s bytes src r) r
          (Alike-TrackedAfter r (from_target s bytes src r) (from_target-Alike bytes src r))
          (λ h. h))

  step-TrackedAfter : (i : Input) (r : Relay) → TrackedAfter r (step s i r).1
  unfolding step
  step-TrackedAfter (datagram bytes src ans) r = on_datagram-TrackedAfter bytes src ans r
  step-TrackedAfter receive_failed r = λ h. h
  step-TrackedAfter control_data r = λ h. h
  step-TrackedAfter control_closed r = λ h. h
  step-TrackedAfter (shutdown_changed stop) r = λ h. h

-- However many destinations the client sprays, the set of known targets and its queue of insertion
-- agree, list no address twice and never outgrow the configured maximum (at least one).
pub run-Tracked :
    (s : Setup) (inputs : List Input) (r : Relay)
    → Tracked (max_targets s) r
    → Tracked (max_targets s) (run s inputs r)
unfolding run
run-Tracked s [] r h = h
run-Tracked s (i ∷ is) r h =
    let next = step s i r in
    let h1 = step-TrackedAfter s i r h in
    if-TrackedAfter s next.0 next.1 (run s is next.1) next.1 (run-Tracked s is next.1) (λ k. k) h1
