-- ===== src/Server/Connect/Dial/Outcomes.antt =====
-- How the search for a connection ends.
use next_socks.Prelude.{
  if◌then◌else◌, is_some, if_elim, ℕ, ◌≡◌, refl, true, false, ◌&&◌, ◌||◌, not, Option, none, some,
  List, [], ◌∷◌, ◌++◌, arith,
}
use next_socks.Net.{SocketAddr}
use next_socks.Errors.{IoErrorKind, timed_out}
use next_socks.Config.{Egress}
use next_socks.Server.Connect.Dial.{
  EstablishError, dns, blocked, dial, Established, connected, gave_up, Search, Ready, answer_a,
  answer_aaaa, attempt_ended, attempt_expired, budget_expired, Turn, offer, add_candidates,
  exhausted, dial_next, is_empty, launch, accept_answer, shorten, take_answer, end_attempt,
  out_of_time, react, conclude, search,
}

-- An attempt runs or has failed exactly where something was dialled.
abbrev Recorded : Search → Type 0
Recorded s = (is_some s.active || is_some s.last_error) ≡ not (is_empty s.dialled)

-- A result is an error of dialling exactly where something was dialled, and never an error where an
-- attempt succeeded.
abbrev pub Explained : Option Established → List SocketAddr → Type 0
Explained none dialled = Unit {0}
Explained (some (connected a)) dialled = is_empty dialled ≡ false
Explained (some (gave_up (dial e))) dialled = is_empty dialled ≡ false
Explained (some (gave_up blocked)) dialled = is_empty dialled ≡ true
Explained (some (gave_up dns)) dialled = is_empty dialled ≡ true

abbrev Good : Option Established × Search → Type 0
Good x = (x.0 ≡ none → Recorded x.1) × Explained x.0 x.1.dialled

is_empty-last : (a : SocketAddr) (xs : List SocketAddr) → is_empty (xs ++ a ∷ []) ≡ false
is_empty-last a [] = refl
is_empty-last a (x ∷ xs) = refl

offer-Recorded :
    (egress : Egress) (a : SocketAddr) (s : Search) → Recorded s → Recorded (offer egress a s)
unfolding offer
offer-Recorded egress a s h = ground arith

add_candidates-Recorded :
    (egress : Egress) (xs : List SocketAddr) (s : Search)
    → Recorded s
    → Recorded (add_candidates egress xs s)
unfolding add_candidates
add_candidates-Recorded egress [] s h = h
add_candidates-Recorded egress (a ∷ xs) s h =
    add_candidates-Recorded egress xs (offer egress a s) (offer-Recorded egress a s h)

dial_next-Recorded :
    (deadline now : ℕ) (waiting : List SocketAddr) (s : Search)
    → Recorded s
    → Recorded (dial_next deadline now waiting s)
unfolding dial_next
dial_next-Recorded deadline now [] s h = h
dial_next-Recorded deadline now (a ∷ rest) s h = rw (is_empty-last a s.dialled) refl

-- The error at the end of the candidates, where no attempt runs.
exhausted-Explained :
    (s : Search)
    → Recorded s
    → is_some s.active ≡ false
    → Explained (some (gave_up (exhausted s))) s.dialled
exhausted-Explained s h idle = ground arith

out_of_time-Explained :
    (s : Search) → Recorded s → Explained (some (gave_up (out_of_time s))) s.dialled
out_of_time-Explained s h = ground arith

-- The top of the loop: it goes on, or it ends with an explained error.
abbrev Launched : Option EstablishError × Search → Type 0
Launched (none, s) = Recorded s
Launched (some e, s) = Explained (some (gave_up e)) s.dialled

launch-Launched : (deadline now : ℕ) (s : Search) → Recorded s → Launched (launch deadline now s)
unfolding launch
launch-Launched deadline now s h =
    let next = dial_next deadline now s.queue s in
    let last = if s.done_a && s.done_aaaa then (some (exhausted s), s) else (none, s) in
    if_elim Launched (is_some s.active) (none, s)
      (if not (is_empty s.queue) then (none, next) else last) (λ b. h)
      (λ idle.
        if_elim Launched (not (is_empty s.queue)) (none, next) last
          (λ c. dial_next-Recorded deadline now s.queue s h)
          (λ c.
            if_elim Launched (s.done_a && s.done_aaaa) (some (exhausted s), s) (none, s)
              (λ x. exhausted-Explained s h idle) (λ x. h)))

take_answer-Recorded :
    (egress : Egress) (deadline now : ℕ) (answer : Option (List SocketAddr)) (s : Search)
    → Recorded s
    → Recorded (take_answer egress deadline now answer s)
unfolding take_answer accept_answer shorten
take_answer-Recorded egress deadline now none s h = ground arith
take_answer-Recorded egress deadline now (some xs) s h =
    ground (arith, add_candidates-Recorded egress xs s h)

end_attempt-Good :
    (running : Option SocketAddr) (result : Option IoErrorKind) (s : Search)
    → s.active ≡ running
    → Recorded s
    → Good (end_attempt running result s)
unfolding end_attempt
end_attempt-Good none result s p h = (λ e. h, tt)
end_attempt-Good (some x) none s p h = (λ e. cc, ground arith)
end_attempt-Good (some x) (some failure) s p h = (λ e. ground arith, tt)

module _ (egress : Egress) (deadline : ℕ) where
  react-Good :
      (ready : Ready) (now : ℕ) (s : Search) → Recorded s → Good (react egress deadline ready now s)
  unfolding react
  react-Good (answer_a answer) now s h =
      let s' = take_answer egress deadline now answer (record s { done_a = true }) in
      if_elim Good s.done_a (none, s) (none, s') (λ b. (λ e. h, tt))
        (λ b.
          (λ e. take_answer-Recorded egress deadline now answer (record s { done_a = true }) h, tt))
  react-Good (answer_aaaa answer) now s h =
      let s' = take_answer egress deadline now answer (record s { done_aaaa = true }) in
      if_elim Good s.done_aaaa (none, s) (none, s') (λ b. (λ e. h, tt))
        (λ b. (
          λ e. take_answer-Recorded egress deadline now answer (record s { done_aaaa = true }) h,
          tt,
        ))
  react-Good (attempt_ended result) now s h = end_attempt-Good s.active result s refl h
  react-Good attempt_expired now s h = end_attempt-Good s.active (some timed_out) s refl h
  react-Good budget_expired now s h = (λ e. cc, out_of_time-Explained s h)

  conclude-Explained :
      (launched : Option EstablishError × Search) (reacted rest : Option Established × Search)
      → Launched launched
      → (Recorded launched.1 → Good reacted)
      → (Recorded reacted.1 → Explained rest.0 rest.1.dialled)
      → let r = conclude launched.0 launched.1 reacted rest in Explained r.0 r.1.dialled
  conclude-Explained (some e, s) reacted rest f g h = f
  conclude-Explained (none, s) (some r, s') rest f g h = (g f).1
  conclude-Explained (none, s) (none, s') rest f g h = h ((g f).0 refl)

  -- From a state in which an attempt runs or an error is kept exactly where an address was dialled,
  -- as at the start, the search ends with an error that explains what happened: an error of dialling
  -- only where an address was dialled, a failed lookup or a blocked destination only where none was;
  -- and it ends with a stream only where an address was dialled.
  pub search-Explained :
      (turns : List Turn) (s : Search)
      → Recorded s
      → let r = search egress deadline turns s in Explained r.0 r.1.dialled
  unfolding search
  search-Explained [] s h = tt
  search-Explained (turn ∷ turns) s h =
      let launched = launch deadline turn.top s in
      let reacted = react egress deadline turn.ready turn.now launched.1 in
      conclude-Explained launched reacted (search egress deadline turns reacted.1)
        (launch-Launched deadline turn.top s h) (react-Good turn.ready turn.now launched.1)
        (search-Explained turns reacted.1)
