-- ===== src/Prelude/Rings.antt =====
-- A `VecDeque` of bounded length that drops its oldest element, as three parts of the program keep.
use Prim.Native.Nat.{ℕ, zero, suc, ◌+◌, ◌-◌, ◌≤◌, ◌<◌}
use mathlib.Core.Path.{◌≡◌, refl, sym, ap, ◌∙◌}
use mathlib.Core.List.{List, [], ◌∷◌, ◌++◌}
use mathlib.Core.Logic.{inl, inr}
use native.Mathlib.Omega.{arith}
use next_socks.Prelude.Tests.{◌==◌, if◌then◌else◌, Bool-cases}
use next_socks.Prelude.Lists.{length, drop, length-append, length-drop, drop_append}

module _ {ℓ} {A : Type ℓ} where
  abbrev pub pop_front : List A → List A
  pop_front [] = []
  pop_front (x ∷ xs) = xs

  -- `if len == cap { pop_front(); } push_back(x)`.
  unfoldable pub push_bounded : ℕ → A → List A → List A
  push_bounded cap x xs = (if length xs == cap then pop_front xs else xs) ++ x ∷ []

  -- The last elements of a list, at most so many.
  abbrev pub latest : ℕ → List A → List A
  latest cap xs = drop (length xs - cap) xs

  pop_front-drop : (n : ℕ) (xs : List A) → n < length xs → pop_front (drop n xs) ≡ drop (suc n) xs
  pop_front-drop n [] h = absurd (omega arith)
  pop_front-drop zero (x ∷ xs) h = refl
  pop_front-drop (suc n) (x ∷ xs) h = pop_front-drop n xs (omega arith)

  pub length-latest : (cap : ℕ) (xs : List A) → length (latest cap xs) ≤ cap
  length-latest cap xs = omega (arith, length-drop (length xs - cap) xs)

  -- A push onto the last elements of a history gives those of the longer history.
  pub push_bounded-latest :
      (cap : ℕ) (x : A) (history : List A)
      → 1 ≤ cap
      → push_bounded cap x (latest cap history) ≡ latest cap (history ++ x ∷ [])
  unfolding push_bounded
  push_bounded-latest cap x history p =
      let n = length history in
      let total = length-append history (x ∷ []) in
      let kept = length-drop (n - cap) history in
      elim (Bool-cases (length (latest cap history) == cap)) [
        | inl full ↦
            let long : cap ≤ n = ground (arith, kept) in
            let e : suc (n - cap) ≡ length (history ++ x ∷ []) - cap = omega (arith, total) in
            rw full (
              ap (λ t. t ++ x ∷ []) (pop_front-drop (n - cap) history (omega arith))
              ∙ sym (drop_append (suc (n - cap)) history (x ∷ []) (omega arith))
              ∙ ap (λ k. drop k (history ++ x ∷ [])) e)
        | inr room ↦
            let short : n < cap = ground (arith, kept) in
            let e : n - cap ≡ length (history ++ x ∷ []) - cap = omega (arith, total) in
            rw room (
              sym (drop_append (n - cap) history (x ∷ []) (omega arith))
              ∙ ap (λ k. drop k (history ++ x ∷ [])) e)
      ]

  pub length-push_bounded :
      (cap : ℕ) (x : A) (xs : List A)
      → 1 ≤ cap
      → length xs ≤ cap
      → (length (push_bounded cap x xs) ≤ cap) × (length (push_bounded cap x xs) ≤ length xs + 1)
  unfolding push_bounded
  length-push_bounded cap x [] p h = ground arith
  length-push_bounded cap x (y ∷ ys) p h =
      ground (arith, length-append ys (x ∷ []), length-append (y ∷ ys) (x ∷ []))
