-- ===== src/Server/Connect/Dial/Candidates.antt =====
-- Which addresses are dialled.
use next_socks.Prelude.{
  if◌then◌else◌, is_some, if_elim, some-injective, length, All, All-append, All-left, ℕ, min, ◌≡◌,
  refl, sym, ap, ◌∙◌, subst, true, false, ◌&&◌, not, Option, none, some, List, [], ◌∷◌, ◌++◌,
  append_assoc,
}
use next_socks.Net.{SocketAddr, SocketAddr-discrete, has}
use next_socks.Net.Sets.{Distinct, Distinct-append, Distinct-left, includes_last}
use next_socks.Errors.{IoErrorKind, timed_out}
use next_socks.Config.{Egress}
use next_socks.Config.Policy.{is_blocked}
use next_socks.Server.Connect.Dial.{
  EstablishError, blocked, Established, connected, gave_up, Search, begin, Ready, answer_a,
  answer_aaaa, attempt_ended, attempt_expired, budget_expired, Turn, offer, add_candidates, share,
  exhausted, dial_next, is_empty, launch, accept_answer, shorten, take_answer, end_attempt, react,
  conclude, search, literal, dial_one, establish_at, establish,
}
use next_socks.Protocol.Address.{Address}

-- The set of candidates is what was dialled and what waits, each once and none of them blocked; the
-- running attempt is to an address that was dialled.
abbrev Allowed : Egress → SocketAddr → Type 0
Allowed egress a = is_blocked egress a.ip ≡ false

abbrev Clean : Egress → Search → Type 0
Clean egress s =
    (s.seen ≡ s.dialled ++ s.queue)
    × Distinct SocketAddr-discrete s.seen
    × All (Allowed egress) s.seen
    × ((a : SocketAddr) → s.active ≡ some a → has a s.dialled ≡ true)

offer-Clean :
    (egress : Egress) (a : SocketAddr) (s : Search)
    → Clean egress s
    → Clean egress (offer egress a s)
unfolding offer
offer-Clean egress a s (e, d, f, k) =
    if_elim (Clean egress) (is_blocked egress a.ip) (record s { refused = true })
      (if has a s.seen then s else record s { seen = s.seen ++ a ∷ []; queue = s.queue ++ a ∷ [] })
      (λ b. (e, d, f, k))
      (λ b.
        if_elim (Clean egress) (has a s.seen) s
          (record s { seen = s.seen ++ a ∷ []; queue = s.queue ++ a ∷ [] }) (λ old. (e, d, f, k))
          (λ new. (
            ap (λ xs. xs ++ a ∷ []) e ∙ append_assoc s.dialled s.queue (a ∷ []),
            Distinct-append SocketAddr-discrete a s.seen new d,
            All-append (Allowed egress) s.seen (a ∷ []) f (b, tt),
            k,
          )))

add_candidates-Clean :
    (egress : Egress) (addresses : List SocketAddr) (s : Search)
    → Clean egress s
    → Clean egress (add_candidates egress addresses s)
unfolding add_candidates
add_candidates-Clean egress [] s h = h
add_candidates-Clean egress (a ∷ rest) s h =
    add_candidates-Clean egress rest (offer egress a s) (offer-Clean egress a s h)

dial_next-Clean :
    (egress : Egress) (deadline now : ℕ) (waiting : List SocketAddr) (s : Search)
    → s.queue ≡ waiting
    → Clean egress s
    → Clean egress (dial_next deadline now waiting s)
unfolding dial_next
dial_next-Clean egress deadline now [] s q h = h
dial_next-Clean egress deadline now (a ∷ rest) s q (e, d, f, k) = (
  e ∙ ap (λ xs. s.dialled ++ xs) q ∙ sym (append_assoc s.dialled (a ∷ []) rest),
  d,
  f,
  λ b p.
      subst (λ x. has x (s.dialled ++ a ∷ []) ≡ true) (some-injective p)
        (includes_last SocketAddr-discrete a s.dialled),
)

launch-Clean :
    (egress : Egress) (deadline now : ℕ) (s : Search)
    → Clean egress s
    → Clean egress (launch deadline now s).1
unfolding launch
launch-Clean egress deadline now s h =
    let Keeps = λ (r : Option EstablishError × Search). Clean egress r.1 in
    let next = dial_next deadline now s.queue s in
    let last = if s.done_a && s.done_aaaa then (some (exhausted s), s) else (none, s) in
    if_elim Keeps (is_some s.active) (none, s)
      (if not (is_empty s.queue) then (none, next) else last) (λ b. h)
      (λ b.
        if_elim Keeps (not (is_empty s.queue)) (none, next) last
          (λ c. dial_next-Clean egress deadline now s.queue s refl h)
          (λ c.
            if_elim Keeps (s.done_a && s.done_aaaa) (some (exhausted s), s) (none, s) (λ x. h)
              (λ x. h)))

shorten-Clean :
    (egress : Egress) (deadline now : ℕ) (s : Search)
    → Clean egress s
    → Clean egress (shorten deadline now s)
unfolding shorten
shorten-Clean egress deadline now s h =
    if_elim (Clean egress) (is_some s.active && not (is_empty s.queue))
      (record s { attempt_deadline = min s.attempt_deadline (share deadline now (length s.queue)) })
      s (λ b. h) (λ b. h)

take_answer-Clean :
    (egress : Egress) (deadline now : ℕ) (answer : Option (List SocketAddr)) (s : Search)
    → Clean egress s
    → Clean egress (take_answer egress deadline now answer s)
unfolding take_answer accept_answer
take_answer-Clean egress deadline now none s h = shorten-Clean egress deadline now s h
take_answer-Clean egress deadline now (some addresses) s h =
    shorten-Clean egress deadline now (add_candidates egress addresses s)
      (add_candidates-Clean egress addresses s h)

-- A result, too, is a stream to an address that was dialled.
abbrev Reached : Option Established → Search → Type 0
Reached r s = (a : SocketAddr) → r ≡ some (connected a) → has a s.dialled ≡ true

abbrev CleanResult : Egress → Option Established × Search → Type 0
CleanResult egress x = Clean egress x.1 × Reached x.0 x.1

end_attempt-Clean :
    (egress : Egress) (running : Option SocketAddr) (result : Option IoErrorKind) (s : Search)
    → s.active ≡ running
    → Clean egress s
    → CleanResult egress (end_attempt running result s)
unfolding end_attempt
end_attempt-Clean egress none result s p h = (h, λ a q. cc)
end_attempt-Clean egress (some x) none s p (e, d, f, k) =
    ((e, d, f, λ b q. cc), λ a q. let same : x ≡ a = cc in k a (p ∙ ap (λ y. some y) same))
end_attempt-Clean egress (some x) (some failure) s p (e, d, f, k) =
    ((e, d, f, λ b q. cc), λ a q. cc)

conclude-Clean :
    (egress : Egress) (e : Option EstablishError) (launched : Search)
    (reacted rest : Option Established × Search)
    → Clean egress launched
    → CleanResult egress reacted
    → CleanResult egress rest
    → CleanResult egress (conclude e launched reacted rest)
conclude-Clean egress (some e) launched reacted rest h1 h2 h3 = (h1, λ a q. cc)
conclude-Clean egress none launched (some r, s) rest h1 h2 h3 = h2
conclude-Clean egress none launched (none, s) rest h1 h2 h3 = h3

module _ (egress : Egress) (deadline : ℕ) where
  waits : (s : Search) → Clean egress s → CleanResult egress (none, s)
  waits s h = (h, λ a q. cc)

  react-Clean :
      (ready : Ready) (now : ℕ) (s : Search)
      → Clean egress s
      → CleanResult egress (react egress deadline ready now s)
  unfolding react
  react-Clean (answer_a answer) now s h =
      let s' = take_answer egress deadline now answer (record s { done_a = true }) in
      if_elim (CleanResult egress) s.done_a (none, s) (none, s') (λ b. waits s h)
        (λ b.
          waits s' (take_answer-Clean egress deadline now answer (record s { done_a = true }) h))
  react-Clean (answer_aaaa answer) now s h =
      let s' = take_answer egress deadline now answer (record s { done_aaaa = true }) in
      if_elim (CleanResult egress) s.done_aaaa (none, s) (none, s') (λ b. waits s h)
        (λ b.
          waits s' (take_answer-Clean egress deadline now answer (record s { done_aaaa = true }) h))
  react-Clean (attempt_ended result) now s h = end_attempt-Clean egress s.active result s refl h
  react-Clean attempt_expired now s h = end_attempt-Clean egress s.active (some timed_out) s refl h
  react-Clean budget_expired now s h = (h, λ a q. cc)

  search-Clean :
      (turns : List Turn) (s : Search)
      → Clean egress s
      → CleanResult egress (search egress deadline turns s)
  unfolding search
  search-Clean [] s h = waits s h
  search-Clean (turn ∷ turns) s h =
      let launched = launch deadline turn.top s in
      let reacted = react egress deadline turn.ready turn.now launched.1 in
      let h1 = launch-Clean egress deadline turn.top s h in
      let h2 = react-Clean turn.ready turn.now launched.1 h1 in
      conclude-Clean egress launched.0 launched.1 reacted (search egress deadline turns reacted.1)
        h1 h2 (search-Clean turns reacted.1 h2.0)

-- What holds of the addresses dialled, given the outcome.
abbrev pub Lawful : Egress → Option Established × List SocketAddr → Type 0
Lawful egress (outcome, dialled) =
    All (λ (a : SocketAddr). is_blocked egress a.ip ≡ false) dialled
    × Distinct SocketAddr-discrete dialled
    × ((a : SocketAddr) → outcome ≡ some (connected a) → has a dialled ≡ true)

dial_one-Lawful :
    (egress : Egress) (a : SocketAddr) (result : Option IoErrorKind)
    → is_blocked egress a.ip ≡ false
    → Lawful egress (some (dial_one a result), a ∷ [])
dial_one-Lawful egress a none b = (
  (b, tt),
  (refl, tt),
  λ x q.
      let same : a ≡ x = cc in
      subst (λ y. has y (a ∷ []) ≡ true) same (includes_last SocketAddr-discrete a []),
)
dial_one-Lawful egress a (some e) b = ((b, tt), (refl, tt), λ x q. cc)

establish_at-Lawful :
    (egress : Egress) (deadline : ℕ) (address : Option SocketAddr) (result : Option IoErrorKind)
    (turns : List Turn)
    → Lawful egress (establish_at egress deadline address result turns)
unfolding establish_at
establish_at-Lawful egress deadline (some a) result turns =
    if_elim (Lawful egress) (is_blocked egress a.ip) (some (gave_up blocked), [])
      (some (dial_one a result), a ∷ []) (λ b. (tt, tt, λ x q. cc))
      (dial_one-Lawful egress a result)
establish_at-Lawful egress deadline none result turns =
    let found = search egress deadline turns (begin deadline) in
    let ((e, d, f, k), reached) =
      search-Clean egress deadline turns (begin deadline) (refl, tt, tt, λ a q. cc) in
    (
      All-left (Allowed egress) found.1.dialled found.1.queue (subst (All (Allowed egress)) e f),
      Distinct-left SocketAddr-discrete found.1.dialled found.1.queue
          (subst (Distinct SocketAddr-discrete) e d),
      reached,
    )

-- Whatever the lookups answer and however the attempts end, no address is dialled that the egress
-- policy blocks, none is dialled twice, and a stream that is returned leads to an address that was
-- dialled.
pub establish-Lawful :
    (egress : Egress) (deadline : ℕ) (target : Address) (result : Option IoErrorKind)
    (turns : List Turn)
    → Lawful egress (establish egress deadline target result turns)
unfolding establish
establish-Lawful egress deadline target result turns =
    establish_at-Lawful egress deadline (literal target) result turns
