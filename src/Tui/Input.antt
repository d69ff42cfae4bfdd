-- ===== src/Tui/Input.antt =====
-- src/tui/mod.rs: the thread that reads keys, and what a key does to the dashboard.
use next_socks.Tui.Loop.{DashboardState, press, Ready, pressed, Flow, ended, react, run}
use next_socks.Tui.View.{
  KeyAction, quit, cycle_sort, switch_focus, scroll_up, scroll_down, KeyCode, char, map_key,
}
use next_socks.Prelude.{
  if◌then◌else◌, Option-cases, All, ℕ, ◌≡◌, refl, ◌≢◌, ◌⊎◌, inl, inr, Bool, true, false, Option,
  none, some, List, [], ◌∷◌, ◌++◌,
}

-- What `poll` and `read` answer: a key, with whether it is a press and whether Control is held,
-- another event or one that cannot be read, nothing within the time, or an error.
pub data Polled : Type 0 where
  key : Bool → Bool → KeyCode → Polled
  other_event : Polled
  nothing : Polled
  failed : Polled

-- A pass of the loop: whether the stop flag is set at its top, the answer, and whether the dashboard
-- still listens.
pub record Pass : Type 0 where
  pub stop : Bool
  pub polled : Polled
  pub listened : Bool

-- `tx.send(action)`, with what is sent later.
abbrev pub forward : Option KeyAction → Bool → List KeyAction → List KeyAction
forward none listened later = later
forward (some action) true later = action ∷ later
forward (some action) false later = []

abbrev pub after_poll : Polled → Bool → List KeyAction → List KeyAction
unfolding map_key
after_poll (key is_press control code) listened later =
    forward (map_key is_press control code) listened later
after_poll other_event listened later = later
after_poll nothing listened later = later
after_poll failed listened later = []

-- The actions that are forwarded, in their order.
unfoldable pub input_loop : List Pass → List KeyAction
unfolding after_poll
input_loop [] = []
input_loop (p ∷ rest) =
    let later = input_loop rest in if p.stop then [] else after_poll p.polled p.listened later

-- The dashboard's loop on the actions forwarded.
abbrev pub pressed_all : ℕ → List KeyAction → List Ready
pressed_all height [] = []
pressed_all height (a ∷ actions) = pressed a height ∷ pressed_all height actions

-- A pass after which the thread goes on.
abbrev pub GoesOn : Pass → Type 0
GoesOn p = (p.stop ≡ false) × (p.listened ≡ true) × (p.polled ≢ failed)

-- The loop ends, and asks the program to shut down.
abbrev pub Quits : Flow → Type 0
Quits x = (d : DashboardState) × (x ≡ ended true d)

abbrev pub asks : List KeyAction → Bool
asks [] = false
asks (quit ∷ rest) = true
asks (cycle_sort ∷ rest) = asks rest
asks (switch_focus ∷ rest) = asks rest
asks (scroll_up n ∷ rest) = asks rest
asks (scroll_down n ∷ rest) = asks rest

asks-later : (a : KeyAction) (later : List KeyAction) → asks later ≡ true → asks (a ∷ later) ≡ true
asks-later quit later h = refl
asks-later cycle_sort later h = h
asks-later switch_focus later h = h
asks-later (scroll_up n) later h = h
asks-later (scroll_down n) later h = h

asks-after_poll :
    (x : Polled) (later : List KeyAction)
    → x ≢ failed
    → asks later ≡ true
    → asks (after_poll x true later) ≡ true
unfolding after_poll
asks-after_poll (key is_press control code) later n h =
    elim (Option-cases (map_key is_press control code)) [
      | inl e ↦ rw (e, after_poll) h
      | inr (a, e) ↦ rw (e, after_poll) (asks-later a later h)
    ]
asks-after_poll other_event later n h = h
asks-after_poll nothing later n h = h
asks-after_poll failed later n h = absurd (n refl)

asks-input_loop :
    (before : List Pass) (p : Pass) (after : List Pass) (is_press control : Bool) (code : KeyCode)
    → All GoesOn before
    → GoesOn p
    → p.polled ≡ key is_press control code
    → map_key is_press control code ≡ some quit
    → asks (input_loop (before ++ p ∷ after)) ≡ true
unfolding input_loop after_poll
asks-input_loop [] p after is_press control code h (go, heard, n) e q =
    rw (go, heard, e) (rw q refl)
asks-input_loop (b ∷ before) p after is_press control code ((go, heard, n), h) g e q =
    rw (go, heard)
      (asks-after_poll b.polled (input_loop (before ++ p ∷ after)) n
        (asks-input_loop before p after is_press control code h g e q))

quits :
    (control : Bool) (code : KeyCode)
    → (code ≡ char 0x71) ⊎ ((code ≡ char 0x63) × (control ≡ true))
    → map_key true control code ≡ some quit
unfolding map_key
quits control code (inl e) = rw e refl
quits control code (inr (e, held)) = rw (e, held) refl

run-Quits :
    (height : ℕ) (actions : List KeyAction) (d : DashboardState)
    → asks actions ≡ true
    → Quits (run (pressed_all height actions) d)
unfolding run react
run-Quits height [] d h = absurd (cc)
run-Quits height (quit ∷ rest) d h = (d, refl)
run-Quits height (cycle_sort ∷ rest) d h = run-Quits height rest (press cycle_sort height d) h
run-Quits height (switch_focus ∷ rest) d h = run-Quits height rest (press switch_focus height d) h
run-Quits height (scroll_up n ∷ rest) d h = run-Quits height rest (press (scroll_up n) height d) h
run-Quits height (scroll_down n ∷ rest) d h =
    run-Quits height rest (press (scroll_down n) height d) h

-- Whatever was typed before, a press of `q` or of Ctrl-C that the thread reads ends the dashboard and
-- asks the program to shut down, as long as neither side has stopped and polling has not failed; what
-- comes after it makes no difference.
pub input_loop-Quits :
    (before : List Pass) (p : Pass) (after : List Pass) (control : Bool) (code : KeyCode)
    (height : ℕ) (d : DashboardState)
    → All GoesOn before
    → GoesOn p
    → p.polled ≡ key true control code
    → (code ≡ char 0x71) ⊎ ((code ≡ char 0x63) × (control ≡ true))
    → Quits (run (pressed_all height (input_loop (before ++ p ∷ after))) d)
input_loop-Quits before p after control code height d h g e typed =
    run-Quits height (input_loop (before ++ p ∷ after)) d
      (asks-input_loop before p after true control code h g e (quits control code typed))
