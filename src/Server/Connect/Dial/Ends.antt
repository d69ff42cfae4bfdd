-- ===== src/Server/Connect/Dial/Ends.antt =====
-- That the search for a connection ends.
use next_socks.Prelude.{
  if◌then◌else◌, is_some, if_elim, length, All, ℕ, suc, ◌+◌, ◌≤◌, ◌<◌, ◌≡◌, refl, sym, subst, ◌⊎◌,
  inl, inr, Bool, true, false, ◌&&◌, not, Option, none, some, List, [], ◌∷◌, arith,
}
use next_socks.Net.{SocketAddr}
use next_socks.Errors.{IoErrorKind, timed_out}
use next_socks.Config.{Egress}
use next_socks.Server.Connect.Dial.{
  EstablishError, Established, gave_up, Search, attempt_ended, attempt_expired, Turn, exhausted,
  dial_next, is_empty, launch, end_attempt, react, conclude, search,
}

-- A turn in which the running attempt fails or runs out of time.
abbrev pub Fails : Turn → Type 0
Fails turn =
    ((e : IoErrorKind) × (turn.ready ≡ attempt_ended (some e))) ⊎ (turn.ready ≡ attempt_expired)

abbrev both_done : Search → Bool
both_done s = s.done_a && s.done_aaaa

-- The attempts that are left.
abbrev pub attempts_left : Search → ℕ
attempts_left s = (if is_some s.active then 1 else 0) + length s.queue

-- With both lookups done, the top of the loop ends the search or leaves an attempt running.
abbrev Runs : ℕ → Option EstablishError × Search → Type 0
Runs n (some e, s) = Unit {0}
Runs n (none, s) = (both_done s ≡ true) × (is_some s.active ≡ true) × (attempts_left s ≤ n)

dial_next-Runs :
    (n deadline now : ℕ) (waiting : List SocketAddr) (s : Search)
    → both_done s ≡ true
    → is_empty waiting ≡ false
    → length waiting ≤ n
    → Runs n (none, dial_next deadline now waiting s)
unfolding dial_next
dial_next-Runs n deadline now [] s d c p = cc
dial_next-Runs n deadline now (a ∷ rest) s d c p = (d, refl, omega arith)

launch-Runs :
    (deadline now : ℕ) (s : Search)
    → both_done s ≡ true
    → Runs (attempts_left s) (launch deadline now s)
unfolding launch
launch-Runs deadline now s d =
    let Ends = Runs (attempts_left s) in
    let next = dial_next deadline now s.queue s in
    let last : Option EstablishError × Search =
      if both_done s then (some (exhausted s), s) else (none, s) in
    if_elim Ends (is_some s.active) (none, s)
      (if not (is_empty s.queue) then (none, next) else last) (λ b. (d, b, omega arith))
      (λ idle.
        if_elim Ends (not (is_empty s.queue)) (none, next) last
          (λ c.
            dial_next-Runs (attempts_left s) deadline now s.queue s d (ground arith) (omega arith))
          (λ c. if_elim Ends (both_done s) (some (exhausted s), s) (none, s) (λ x. tt) (λ x. cc)))

idle-Runs :
    (n : ℕ) (x : Option EstablishError × Search)
    → Runs n x
    → x.0 ≡ none
    → (both_done x.1 ≡ true) × (is_some x.1.active ≡ true) × (attempts_left x.1 ≤ n)
idle-Runs n (some e, s) h p = cc
idle-Runs n (none, s) h p = h

-- What a failed attempt leaves.
abbrev Failed : Search → Option Established × Search → Type 0
Failed s (r, s') = (r ≡ none) × (both_done s' ≡ true) × (suc (attempts_left s') ≡ attempts_left s)

end_attempt-Failed :
    (running : Option SocketAddr) (e : IoErrorKind) (s : Search)
    → s.active ≡ running
    → both_done s ≡ true
    → is_some running ≡ true
    → Failed s (end_attempt running (some e) s)
unfolding end_attempt
end_attempt-Failed none e s p d c = cc
end_attempt-Failed (some a) e s p d c = (refl, d, rw p (omega arith))

module _ (egress : Egress) (deadline : ℕ) where
  react-Failed :
      (turn : Turn) (s : Search)
      → Fails turn
      → both_done s ≡ true
      → is_some s.active ≡ true
      → Failed s (react egress deadline turn.ready turn.now s)
  unfolding react
  react-Failed turn s (inl (e, p)) d c =
      subst (λ ready. Failed s (react egress deadline ready turn.now s)) (sym p)
        (end_attempt-Failed s.active e s refl d c)
  react-Failed turn s (inr p) d c =
      subst (λ ready. Failed s (react egress deadline ready turn.now s)) (sym p)
        (end_attempt-Failed s.active timed_out s refl d c)

  abbrev Ended : Option Established × Search → Type 0
  Ended x = (r : Established) × (x.0 ≡ some r)

  conclude-Ended :
      (n : ℕ) (launched : Option EstablishError × Search)
      (reacted rest : Option Established × Search)
      → Runs n launched
      → (Runs n launched → launched.0 ≡ none → (reacted.0 ≡ none) × Ended rest)
      → Ended (conclude launched.0 launched.1 reacted rest)
  conclude-Ended n (some e, s) reacted rest f g = (gave_up e, refl)
  conclude-Ended n (none, s) (some r, s') rest f g = (r, refl)
  conclude-Ended n (none, s) (none, s') rest f g = (g f refl).1

  -- Once both lookups are done, and where every turn is the failure of an attempt, the search ends
  -- after as many failing attempts as are left: at the latest at the top of the turn after them, it
  -- has a result.
  pub search_ends :
      (turns : List Turn) (s : Search)
      → s.done_a && s.done_aaaa ≡ true
      → All Fails turns
      → attempts_left s < length turns
      → (r : Established) × ((search egress deadline turns s).0 ≡ some r)
  unfolding search
  search_ends [] s d f p = absurd (omega arith)
  search_ends (turn ∷ turns) s d f p =
      let launched = launch deadline turn.top s in
      let reacted = react egress deadline turn.ready turn.now launched.1 in
      conclude-Ended (attempts_left s) launched reacted (search egress deadline turns reacted.1)
        (launch-Runs deadline turn.top s d)
        (λ runs idle.
          let (done, running, left) = idle-Runs (attempts_left s) launched runs idle in
          let (waits, done', fewer) = react-Failed turn launched.1 f.0 done running in
          (waits, search_ends turns reacted.1 done' f.1 (omega arith)))
