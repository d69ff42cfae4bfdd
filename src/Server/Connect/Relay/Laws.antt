-- ===== src/Server/Connect/Relay/Laws.antt =====
-- What a relay delivers, and when it gives up for idleness.
use next_socks.Prelude.{
  if◌then◌else◌, if_elim, take, drop, take-append-drop, All, ℕ, ◌-◌, ◌<◌, ◌≡◌, refl, sym, ap, ◌∙◌,
  subst, ◌⊎◌, inl, inr, Bool, true, false, List, [], ◌∷◌, ◌++◌, append-nil, append_assoc, arith,
}
use next_socks.Server.Connect.Relay.{
  Direction, upload, download, whole, cut, Activity, chunk, timeout, eof, read_error, Half, Pair,
  half, set_half, advance, is_running, relay_step, relay,
}

abbrev pub same_direction : Direction → Direction → Bool
same_direction upload upload = true
same_direction download download = true
same_direction _ _ = false

-- The bytes that a direction reads in a run.
abbrev bytes_of : Activity → List ℕ
bytes_of (chunk bytes now written) = bytes
bytes_of _ = []

abbrev pub received : Direction → List (Direction × Activity) → List ℕ
received dir [] = []
received dir ((d, a) ∷ later) =
    (if same_direction d dir then bytes_of a else []) ++ received dir later

-- One list of bytes starts with another.
abbrev pub StartsWith : List ℕ → List ℕ → Type 0
StartsWith full part = (rest : List ℕ) × (full ≡ part ++ rest)

abbrev read_by : Direction → Direction × Activity → List ℕ
read_by dir (d, a) = if same_direction d dir then bytes_of a else []

-- After one pass, a direction has delivered a part of what it read besides what it had: all of it, or
-- it has stopped.
abbrev Delivers : Direction → Direction × Activity → Pair → Pair → Type 0
Delivers dir x p p' =
    (part : List ℕ) × (rest : List ℕ) × ((half dir p').delivered ≡ (half dir p).delivered ++ part)
    × (read_by dir x ≡ part ++ rest)
    × ((rest ≡ []) ⊎ (is_running (half dir p') ≡ false))

Delivers-nothing :
    (dir : Direction) (x : Direction × Activity) (p p' : Pair)
    → (half dir p').delivered ≡ (half dir p).delivered
    → (read_by dir x ≡ []) ⊎ (is_running (half dir p') ≡ false)
    → Delivers dir x p p'
Delivers-nothing dir x p p' e (inl unread) =
    ([], [], e ∙ sym (append-nil (half dir p).delivered), unread, inl refl)
Delivers-nothing dir x p p' e (inr stopped) =
    ([], read_by dir x, e ∙ sym (append-nil (half dir p).delivered), refl, inr stopped)

advance-Delivers :
    (idle id : ℕ) (dir : Direction) (x : Direction × Activity) (p : Pair)
    → Delivers dir x p (advance idle id x.0 x.1 p)
unfolding advance half set_half
advance-Delivers idle id upload (upload, chunk bytes now whole) p =
    (bytes, [], refl, sym (append-nil bytes), inl refl)
advance-Delivers idle id download (download, chunk bytes now whole) p =
    (bytes, [], refl, sym (append-nil bytes), inl refl)
advance-Delivers idle id upload (upload, chunk bytes now (cut n)) p =
    (take n bytes, drop n bytes, refl, sym (take-append-drop n bytes), inr refl)
advance-Delivers idle id download (download, chunk bytes now (cut n)) p =
    (take n bytes, drop n bytes, refl, sym (take-append-drop n bytes), inr refl)
advance-Delivers idle id upload (download, a) p =
    Delivers-nothing upload (download, a) p (advance idle id download a p) (ground arith) (inl refl)
advance-Delivers idle id download (upload, a) p =
    Delivers-nothing download (upload, a) p (advance idle id upload a p) (ground arith) (inl refl)
advance-Delivers idle id upload (upload, timeout now) p =
    Delivers-nothing upload (upload, timeout now) p (advance idle id upload (timeout now) p)
      (ground arith) (inl refl)
advance-Delivers idle id download (download, timeout now) p =
    Delivers-nothing download (download, timeout now) p (advance idle id download (timeout now) p)
      (ground arith) (inl refl)
advance-Delivers idle id upload (upload, eof) p =
    Delivers-nothing upload (upload, eof) p (advance idle id upload eof p) refl (inl refl)
advance-Delivers idle id download (download, eof) p =
    Delivers-nothing download (download, eof) p (advance idle id download eof p) refl (inl refl)
advance-Delivers idle id upload (upload, read_error) p =
    Delivers-nothing upload (upload, read_error) p (advance idle id upload read_error p) refl
      (inl refl)
advance-Delivers idle id download (download, read_error) p =
    Delivers-nothing download (download, read_error) p (advance idle id download read_error p) refl
      (inl refl)

stopped-Delivers :
    (dir d : Direction) (a : Activity) (p : Pair)
    → is_running (half d p) ≡ false
    → Delivers dir (d, a) p p
stopped-Delivers upload upload a p h = Delivers-nothing upload (upload, a) p p refl (inr h)
stopped-Delivers upload download a p h = Delivers-nothing upload (download, a) p p refl (inl refl)
stopped-Delivers download upload a p h = Delivers-nothing download (upload, a) p p refl (inl refl)
stopped-Delivers download download a p h = Delivers-nothing download (download, a) p p refl (inr h)

relay_step-Delivers :
    (idle id : ℕ) (dir : Direction) (x : Direction × Activity) (p : Pair)
    → Delivers dir x p (relay_step idle id x p)
unfolding relay_step
relay_step-Delivers idle id dir (d, a) p =
    if_elim (Delivers dir (d, a) p) (is_running (half d p)) (advance idle id d a p) p
      (λ b. advance-Delivers idle id dir (d, a) p) (λ b. stopped-Delivers dir d a p b)

pub relay_step_stopped :
    (idle id : ℕ) (dir : Direction) (x : Direction × Activity) (p : Pair)
    → is_running (half dir p) ≡ false
    → half dir (relay_step idle id x p) ≡ half dir p
unfolding relay_step advance half set_half
relay_step_stopped idle id upload (upload, a) p h = ground arith
relay_step_stopped idle id upload (download, a) p h = ground arith
relay_step_stopped idle id download (upload, a) p h = ground arith
relay_step_stopped idle id download (download, a) p h = ground arith

pub relay_stopped :
    (idle id : ℕ) (dir : Direction) (run : List (Direction × Activity)) (p : Pair)
    → is_running (half dir p) ≡ false
    → half dir (relay idle id run p) ≡ half dir p
unfolding relay
relay_stopped idle id dir [] p h = refl
relay_stopped idle id dir (x ∷ later) p h =
    let e = relay_step_stopped idle id dir x p h in
    relay_stopped idle id dir later (relay_step idle id x p) (ap is_running e ∙ h) ∙ e

-- What a direction delivers is what it had delivered before, followed by a prefix of the bytes that
-- it reads, in their order: nothing is taken back, reordered, invented or taken from the other
-- direction, whatever the order in which the two take turns and wherever a write stops.
pub relay-StartsWith :
    (idle id : ℕ) (dir : Direction) (run : List (Direction × Activity)) (p : Pair)
    → (part : List ℕ) × ((half dir (relay idle id run p)).delivered
        ≡ (half dir p).delivered ++ part)
      × StartsWith (received dir run) part
unfolding relay
relay-StartsWith idle id dir [] p = ([], sym (append-nil (half dir p).delivered), ([], refl))
relay-StartsWith idle id dir (x ∷ later) p =
    let p' = relay_step idle id x p in
    let h = (half dir p).delivered in
    let (part, rest, grown, split, ends) = relay_step-Delivers idle id dir x p in
    elim ends [
      | inl e ↦
          let (more, q, (left, r)) = relay-StartsWith idle id dir later p' in
          (
            part ++ more,
            q ∙ ap (λ t. t ++ more) grown ∙ append_assoc h part more,
            (
              left,
              ap (λ t. t ++ received dir later) (split ∙ ap (λ t. part ++ t) e ∙ append-nil part)
                  ∙ ap (λ t. part ++ t) r
                  ∙ sym (append_assoc part more left),
            ),
          )
      | inr stopped ↦ (
        part,
        ap (λ (k : Half). k.delivered) (relay_stopped idle id dir later p' stopped) ∙ grown,
        (
          rest ++ received dir later,
          ap (λ t. t ++ received dir later) split ∙ append_assoc part rest (received dir later),
        ),
      )
    ]

-- A timeout that comes less than the idle window after `since`.
abbrev pub TimesOutBefore : ℕ → ℕ → Direction × Activity → Type 0
TimesOutBefore since idle x = (t : ℕ) × (x.1 ≡ timeout t) × (t - since < idle)

relay_step-idle :
    (idle id : ℕ) (x : Direction × Activity) (p : Pair)
    → TimesOutBefore p.last_activity idle x
    → relay_step idle id x p ≡ p
unfolding relay_step advance
relay_step-idle idle id (d, a) p (t, e, early) =
    subst (λ b. relay_step idle id (d, b) p ≡ p) (sym e) (ground arith)

relay_timeouts :
    (idle id : ℕ) (timeouts : List (Direction × Activity)) (p : Pair)
    → All (TimesOutBefore p.last_activity idle) timeouts
    → relay idle id timeouts p ≡ p
unfolding relay
relay_timeouts idle id [] p all = refl
relay_timeouts idle id (x ∷ later) p all =
    let e = relay_step-idle idle id x p all.0 in
    ap (relay idle id later) e ∙ relay_timeouts idle id later p all.1

last_activity-chunk :
    (idle id : ℕ) (dir : Direction) (bytes : List ℕ) (now : ℕ) (p : Pair)
    → is_running (half dir p) ≡ true
    → (relay_step idle id (dir, chunk bytes now whole) p).last_activity ≡ now
unfolding relay_step advance
last_activity-chunk idle id dir bytes now p h = rw h refl

-- A transfer that moves is not cut: after a direction that runs has delivered a chunk, the timeouts
-- of both directions change nothing until the idle window has passed since then.
pub relay_idle :
    (idle id : ℕ) (dir : Direction) (bytes : List ℕ) (now : ℕ)
    (timeouts : List (Direction × Activity)) (p : Pair)
    → is_running (half dir p) ≡ true
    → All (TimesOutBefore now idle) timeouts
    → let p' = relay_step idle id (dir, chunk bytes now whole) p in relay idle id timeouts p' ≡ p'
relay_idle idle id dir bytes now timeouts p h all =
    let p' = relay_step idle id (dir, chunk bytes now whole) p in
    relay_timeouts idle id timeouts p' (
      subst (λ t. All (TimesOutBefore t idle) timeouts)
        (sym (last_activity-chunk idle id dir bytes now p h)) all)
