-- ===== src/Server/Udp/Filter.antt =====
-- Who may use an association and whom its relay sends to.
use next_socks.Prelude.{
  ◌==◌, if◌then◌else◌, Bool-cases, Option-cases, Result, ok, err, All, All-append, ℕ, ◌≡◌, refl,
  sym, ◌∙◌, subst, subst₂, ◌⊎◌, inl, inr, Bool, true, false, Option, none, some, List, [], ◌∷◌,
  ◌++◌, arith,
}
use next_socks.Net.{SocketAddr, has}
use next_socks.Config.Policy.{is_blocked}
use next_socks.Protocol.Address.{Address}
use next_socks.Server.Udp.{
  Relay, Setup, Answers, Input, datagram, receive_failed, control_data, control_closed,
  shutdown_changed, addr_from_socket, is_client, lock_client, roll_window, check_rate,
  note_dns_error, resolve_target, drop_oldest, evict, track, push_send, count_send, after_send,
  forward, forward_resolved, within_budget, relay_out, from_client, from_target, on_datagram, step,
  run,
}
use next_socks.Protocol.Udp.{UdpDatagram, UdpError, decap_ref, encap}

-- A datagram whose source is neither the client nor a known target changes nothing.
pub on_datagram_stranger :
    (s : Setup) (bytes : List ℕ) (src : SocketAddr) (ans : Answers) (r : Relay)
    → is_client s src r ≡ false
    → has src r.known ≡ false
    → on_datagram s bytes src ans r ≡ r
unfolding on_datagram
on_datagram_stranger s bytes src ans r stranger unknown = rw (stranger, unknown) refl

-- Where every send went: to the locked client, or to an address that the policy lets through.
abbrev pub Permitted : Setup → Option SocketAddr → SocketAddr × List ℕ → Type 0
Permitted s client x = (client ≡ some x.0) ⊎ (is_blocked s.config.egress x.0.ip ≡ false)

abbrev pub SendsPermitted : Setup → Relay → Type 0
SendsPermitted s r = All (Permitted s r.client) r.sends

-- Two states with the same client and the same sends.
abbrev Alike : Relay → Relay → Type 0
Alike r r' = (r'.client ≡ r.client) × (r'.sends ≡ r.sends)

Alike-SendsPermitted :
    (s : Setup) (r r' : Relay) → Alike r r' → SendsPermitted s r → SendsPermitted s r'
Alike-SendsPermitted s r r' (c, e) h =
    subst₂ (λ client sends. All (Permitted s client) sends) (sym c) (sym e) h

check_rate-Alike : (limit : Option ℕ) (now : ℕ) (r : Relay) → Alike r (check_rate limit now r).1
unfolding check_rate roll_window
check_rate-Alike limit now r = ground arith

resolve_target-Alike :
    (s : Setup) (ans : Answers) (a : Address) (r : Relay) → Alike r (resolve_target s ans a r).1
unfolding resolve_target note_dns_error
resolve_target-Alike s ans a r = ground arith

after_send-Alike :
    (s : Setup) (t : SocketAddr) (payload : List ℕ) (r : Relay) → Alike r (after_send s t payload r)
unfolding after_send track evict drop_oldest count_send
after_send-Alike s t payload r = ground arith

push_send-SendsPermitted :
    (s : Setup) (t : SocketAddr) (payload : List ℕ) (r : Relay)
    → Permitted s r.client (t, payload)
    → SendsPermitted s r
    → SendsPermitted s (push_send t payload r)
unfolding push_send
push_send-SendsPermitted s t payload r p h =
    All-append (Permitted s r.client) r.sends ((t, payload) ∷ []) h (p, tt)

-- What a step keeps: the sends stay permitted, and a client that is known stays.
abbrev Keeps : Setup → Relay → Relay → Type 0
Keeps s r r' = SendsPermitted s r → SendsPermitted s r' × (r'.client ≡ r.client)

Alike-Keeps : (s : Setup) (r r' : Relay) → Alike r r' → Keeps s r r'
Alike-Keeps s r r' a h = (Alike-SendsPermitted s r r' a h, a.0)

after_send-Keeps :
    (s : Setup) (t : SocketAddr) (payload : List ℕ) (r : Relay) (sent : Bool)
    → Keeps s r (if sent then after_send s t payload r else r)
after_send-Keeps s t payload r true =
    Alike-Keeps s r (after_send s t payload r) (after_send-Alike s t payload r)
after_send-Keeps s t payload r false = λ h. (h, refl)

forward-Keeps :
    (s : Setup) (ans : Answers) (t : SocketAddr) (payload : List ℕ) (r : Relay)
    → Keeps s r (forward s ans t payload r)
unfolding forward push_send
forward-Keeps s ans t payload r h = elim (Bool-cases (is_blocked s.config.egress t.ip)) [
  | inl e ↦ rw e (h, refl)
  | inr e ↦
      let sent = push_send-SendsPermitted s t payload r (inr e) h in
      rw e (
        after_send-Keeps s t payload (record r { sends = r.sends ++ (t, payload) ∷ [] }) ans.sent
          sent)
]

forward_resolved-Keeps :
    (s : Setup) (ans : Answers) (payload : List ℕ) (x : Option SocketAddr × Relay)
    → Keeps s x.1 (forward_resolved s ans payload x)
unfolding forward_resolved
forward_resolved-Keeps s ans payload (none, r) h = (h, refl)
forward_resolved-Keeps s ans payload (some t, r) h = forward-Keeps s ans t payload r h

Keeps-trans : (s : Setup) (a b c : Relay) → Keeps s a b → Keeps s b c → Keeps s a c
Keeps-trans s a b c f g h = let (x, e) = f h in let (y, k) = g x in (y, k ∙ e)

within_budget-Keeps :
    (s : Setup) (ans : Answers) (d : UdpDatagram) (x : Bool × Relay)
    → Keeps s x.1 (within_budget s ans d x)
unfolding within_budget
within_budget-Keeps s ans d (true, r) =
    let resolved = resolve_target s ans d.address r in
    Keeps-trans s r resolved.1 (forward_resolved s ans d.payload resolved)
      (Alike-Keeps s r resolved.1 (resolve_target-Alike s ans d.address r))
      (forward_resolved-Keeps s ans d.payload resolved)
within_budget-Keeps s ans d (false, r) = λ h. (h, refl)

if-Keeps :
    (s : Setup) (b : Bool) (r x y : Relay)
    → Keeps s r x
    → Keeps s r y
    → Keeps s r (if b then x else y)
if-Keeps s true r x y p q = p
if-Keeps s false r x y p q = q

relay_out-Keeps :
    (s : Setup) (ans : Answers) (x : Result UdpDatagram UdpError) (r : Relay)
    → Keeps s r (relay_out s ans x r)
unfolding relay_out
relay_out-Keeps s ans (err e) r = λ h. (h, refl)
relay_out-Keeps s ans (ok d) r =
    let x = check_rate s.config.limits.udp_rate_pps ans.now r in
    if-Keeps s (d.frag == 0) r (within_budget s ans d x) r
      (Keeps-trans s r x.1 (within_budget s ans d x)
        (Alike-Keeps s r x.1 (check_rate-Alike s.config.limits.udp_rate_pps ans.now r))
        (within_budget-Keeps s ans d x))
      (λ h. (h, refl))

-- What a step may change: an unknown client becomes known, and nothing else of the client.
abbrev pub Holds : Setup → Relay → Relay → Type 0
Holds s r r' =
    SendsPermitted s r
    → SendsPermitted s r' × ((a : SocketAddr) → r.client ≡ some a → r'.client ≡ some a)

Permitted-none :
    (s : Setup) (c : Option SocketAddr) (xs : List (SocketAddr × List ℕ))
    → All (Permitted s none) xs
    → All (Permitted s c) xs
Permitted-none s c [] h = tt
Permitted-none s c (x ∷ xs) (inl e, h) = cc
Permitted-none s c (x ∷ xs) (inr e, h) = (inr e, Permitted-none s c xs h)

-- Locking forgets nothing: without a client there was no send to one.
lock_client-Holds : (s : Setup) (src : SocketAddr) (r : Relay) → Holds s r (lock_client src r)
unfolding lock_client
lock_client-Holds s src r h = elim (Option-cases r.client) [
  | inl e ↦
      let h' = subst (λ c. All (Permitted s c) r.sends) e h in
      rw e (Permitted-none s (some src) r.sends h', λ a k. cc)
  | inr (a, e) ↦ let h' = subst (λ c. All (Permitted s c) r.sends) e h in rw e (h', λ b k. cc)
]

Keeps-Holds : (s : Setup) (r r' r'' : Relay) → Holds s r r' → Keeps s r' r'' → Holds s r r''
Keeps-Holds s r r' r'' f g h = let (x, k) = f h in let (y, e) = g x in (y, λ a p. e ∙ k a p)

Holds-refl : (s : Setup) (r : Relay) → Holds s r r
Holds-refl s r h = (h, λ a e. e)

if-Holds :
    (s : Setup) (b : Bool) (r x y : Relay)
    → Holds s r x
    → Holds s r y
    → Holds s r (if b then x else y)
if-Holds s true r x y p q = p
if-Holds s false r x y p q = q

from_target-Keeps :
    (s : Setup) (bytes : List ℕ) (src : SocketAddr) (r : Relay)
    → Keeps s r (from_target s bytes src r)
unfolding from_target push_send
from_target-Keeps s bytes src r h = elim (Option-cases r.client) [
  | inl e ↦ rw e (subst (λ c. All (Permitted s c) r.sends) e h, refl)
  | inr (a, e) ↦
      let h' = subst (λ c. All (Permitted s c) r.sends) e h in
      let framed = encap (addr_from_socket src) bytes [] in
      rw e (All-append (Permitted s (some a)) r.sends ((a, framed) ∷ []) h' (inl refl, tt), refl)
]

on_datagram-Holds :
    (s : Setup) (bytes : List ℕ) (src : SocketAddr) (ans : Answers) (r : Relay)
    → Holds s r (on_datagram s bytes src ans r)
unfolding on_datagram from_client
on_datagram-Holds s bytes src ans r =
    if-Holds s (is_client s src r) r (from_client s ans bytes (lock_client src r))
      (if has src r.known then from_target s bytes src r else r)
      (Keeps-Holds s r (lock_client src r) (from_client s ans bytes (lock_client src r))
        (lock_client-Holds s src r) (relay_out-Keeps s ans (decap_ref bytes) (lock_client src r)))
      (if-Holds s (has src r.known) r (from_target s bytes src r) r
        (Keeps-Holds s r r (from_target s bytes src r) (Holds-refl s r)
          (from_target-Keeps s bytes src r))
        (Holds-refl s r))

step-Holds : (s : Setup) (i : Input) (r : Relay) → Holds s r (step s i r).1
unfolding step
step-Holds s (datagram bytes src ans) r = on_datagram-Holds s bytes src ans r
step-Holds s receive_failed r = Holds-refl s r
step-Holds s control_data r = Holds-refl s r
step-Holds s control_closed r = Holds-refl s r
step-Holds s (shutdown_changed stop) r = Holds-refl s r

Holds-trans : (s : Setup) (a b c : Relay) → Holds s a b → Holds s b c → Holds s a c
Holds-trans s a b c f g h = let (x, k) = f h in let (y, l) = g x in (y, λ p e. l p (k p e))

-- Every datagram that the relay ever hands to the socket goes to the locked client or to an address
-- that the egress policy lets through, whatever arrives; and the client, once it is locked, is the
-- client until the association ends.
pub run-Holds : (s : Setup) (inputs : List Input) (r : Relay) → Holds s r (run s inputs r)
unfolding run
run-Holds s [] r = Holds-refl s r
run-Holds s (i ∷ is) r =
    let next = step s i r in
    if-Holds s next.0 r (run s is next.1) next.1
      (Holds-trans s r next.1 (run s is next.1) (step-Holds s i r) (run-Holds s is next.1))
      (step-Holds s i r)
