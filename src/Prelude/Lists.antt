-- ===== src/Prelude/Lists.antt =====
-- Lists measured and indexed by native numbers, under the library's names, and Rust's slices.
use Prim.Native.Nat.{ℕ, zero, suc, ◌+◌, ◌-◌, ◌≤◌, ◌<◌}
use mathlib.Core.Path.{◌≡◌, refl, ap, sym}
use mathlib.Core.List.{List, [], ◌∷◌, ◌++◌}
use mathlib.Core.Option.{Option, none, some, none-ne-some}
use native.Mathlib.Omega.{arith}
use mathlib.Core.Logic.{inl, inr}
use next_socks.Prelude.Tests.{leb, if◌then◌else◌, leb→le, le→leb, Bool-cases}

module _ {ℓ} {A : Type ℓ} where
  abbrev pub length : List A → ℕ
  length [] = 0
  length (x ∷ xs) = suc (length xs)

  abbrev pub get_elem? : List A → ℕ → Option A
  get_elem? [] i = none
  get_elem? (x ∷ xs) zero = some x
  get_elem? (x ∷ xs) (suc i) = get_elem? xs i

  abbrev pub get_or : List A → ℕ → A → A
  get_or [] i d = d
  get_or (x ∷ xs) zero d = x
  get_or (x ∷ xs) (suc i) d = get_or xs i d

  abbrev pub take : ℕ → List A → List A
  take zero xs = []
  take (suc n) [] = []
  take (suc n) (x ∷ xs) = x ∷ take n xs

  abbrev pub drop : ℕ → List A → List A
  drop zero xs = xs
  drop (suc n) [] = []
  drop (suc n) (x ∷ xs) = drop n xs

  -- `&buf[i..j]` where the caller has checked that `j` is in range.
  abbrev pub slice : ℕ → ℕ → List A → List A
  slice i j xs = take (j - i) (drop i xs)

  -- `buf.get(i..j)`.
  abbrev pub get_range? : ℕ → ℕ → List A → Option (List A)
  get_range? i j xs = if leb j (length xs) then some (slice i j xs) else none

  pub length-append : (xs ys : List A) → length (xs ++ ys) ≡ length xs + length ys
  length-append [] ys = omega arith
  length-append (x ∷ xs) ys = omega (arith, length-append xs ys)

  pub length-take : (n : ℕ) (xs : List A) → n ≤ length xs → length (take n xs) ≡ n
  length-take zero xs h = refl
  length-take (suc n) [] h = absurd (omega arith)
  length-take (suc n) (x ∷ xs) h = omega (arith, length-take n xs (omega arith))

  pub length-drop : (n : ℕ) (xs : List A) → length (drop n xs) ≡ length xs - n
  length-drop zero xs = omega arith
  length-drop (suc n) [] = omega arith
  length-drop (suc n) (x ∷ xs) = omega (arith, length-drop n xs)

  pub take-append-drop : (n : ℕ) (xs : List A) → take n xs ++ drop n xs ≡ xs
  take-append-drop zero xs = refl
  take-append-drop (suc n) [] = refl
  take-append-drop (suc n) (x ∷ xs) = rw (take-append-drop n xs)

  pub take_append : (n : ℕ) (xs ys : List A) → n ≤ length xs → take n (xs ++ ys) ≡ take n xs
  take_append zero xs ys h = refl
  take_append (suc n) [] ys h = absurd (omega arith)
  take_append (suc n) (x ∷ xs) ys h = rw (take_append n xs ys (omega arith))

  pub drop_append : (n : ℕ) (xs ys : List A) → n ≤ length xs → drop n (xs ++ ys) ≡ drop n xs ++ ys
  drop_append zero xs ys h = refl
  drop_append (suc n) [] ys h = absurd (omega arith)
  drop_append (suc n) (x ∷ xs) ys h = drop_append n xs ys (omega arith)

  pub take-length_append : (xs ys : List A) → take (length xs) (xs ++ ys) ≡ xs
  take-length_append [] ys = refl
  take-length_append (x ∷ xs) ys = rw (take-length_append xs ys)

  pub drop-length_append : (xs ys : List A) → drop (length xs) (xs ++ ys) ≡ ys
  drop-length_append [] ys = refl
  drop-length_append (x ∷ xs) ys = drop-length_append xs ys

  pub take_all : (n : ℕ) (xs : List A) → length xs ≤ n → take n xs ≡ xs
  take_all zero [] h = refl
  take_all zero (x ∷ xs) h = absurd (omega arith)
  take_all (suc n) [] h = refl
  take_all (suc n) (x ∷ xs) h = rw (take_all n xs (omega arith))

  pub get_or_append :
      (i : ℕ) (xs ys : List A) (d : A) → i < length xs → get_or (xs ++ ys) i d ≡ get_or xs i d
  get_or_append i [] ys d h = absurd (omega arith)
  get_or_append zero (x ∷ xs) ys d h = refl
  get_or_append (suc i) (x ∷ xs) ys d h = get_or_append i xs ys d (omega arith)

  pub take-append_of_length : (n : ℕ) (xs ys : List A) → length xs ≡ n → take n (xs ++ ys) ≡ xs
  take-append_of_length n xs ys e = rw (← e) (take-length_append xs ys)

  pub drop-append_of_length : (n : ℕ) (xs ys : List A) → length xs ≡ n → drop n (xs ++ ys) ≡ ys
  drop-append_of_length n xs ys e = rw (← e) (drop-length_append xs ys)

  -- An index past the first list looks into the second.
  pub get_or-append_right :
      (n i : ℕ) (xs ys : List A) (d : A)
      → length xs ≡ n
      → get_or (xs ++ ys) (n + i) d ≡ get_or ys i d
  get_or-append_right n i [] ys d e = ap (λ k. get_or ys k d) (omega arith)
  get_or-append_right zero i (x ∷ xs) ys d e = absurd (omega arith)
  get_or-append_right (suc n) i (x ∷ xs) ys d e =
      let f : suc n + i ≡ suc (n + i) = omega arith in
      rw f (get_or-append_right n i xs ys d (omega arith))

  -- The two elements behind the first `n`.
  pub take_two :
      (n : ℕ) (xs : List A) (d : A)
      → n + 2 ≤ length xs
      → take (suc (suc n)) xs ≡ take n xs ++ get_or xs n d ∷ get_or xs (suc n) d ∷ []
  take_two n [] d h = absurd (omega arith)
  take_two n (x ∷ []) d h = absurd (omega arith)
  take_two zero (x ∷ y ∷ xs) d h = refl
  take_two (suc n) (x ∷ y ∷ xs) d h = ap (◌∷◌ x) (take_two n (y ∷ xs) d (omega arith))

  pub get_elem?_append :
      (i : ℕ) (xs ys : List A) {v : A} → get_elem? xs i ≡ some v → get_elem? (xs ++ ys) i ≡ some v
  get_elem?_append i [] ys h = ground arith
  get_elem?_append zero (x ∷ xs) ys h = h
  get_elem?_append (suc i) (x ∷ xs) ys h = get_elem?_append i xs ys h

  pub slice_append :
      (i j : ℕ) (xs ys : List A) → i ≤ j → j ≤ length xs → slice i j (xs ++ ys) ≡ slice i j xs
  slice_append i j xs ys h k =
      rw (drop_append i xs ys (omega arith))
        (take_append (j - i) (drop i xs) ys (omega (arith, length-drop i xs)))

  pub get_range?_append :
      (i j : ℕ) (xs ys : List A) {v : List A}
      → i ≤ j
      → get_range? i j xs ≡ some v
      → get_range? i j (xs ++ ys) ≡ some v
  get_range?_append i j xs ys {v} h e = elim (Bool-cases (leb j (length xs))) [
    | inl fits ↦
        let inside : j ≤ length xs = leb→le j (length xs) fits in
        rw
          (
            le→leb j (length (xs ++ ys)) (omega (arith, length-append xs ys)),
            slice_append i j xs ys h inside,
          )
          (rw fits at e)
    | inr out ↦ absurd (none-ne-some v (rw out at e))
  ]

-- A predicate on every element.
abbrev pub All {ℓ κ} : {A : Type ℓ} → (A → Type κ) → List A → Type κ
All P [] = Unit
All P (x ∷ xs) = P x × All P xs

module _ {ℓ κ} {A : Type ℓ} (P : A → Type κ) where
  pub All-append : (xs ys : List A) → All P xs → All P ys → All P (xs ++ ys)
  All-append [] ys h k = k
  All-append (x ∷ xs) ys h k = (h.0, All-append xs ys h.1 k)

  pub All-left : (xs ys : List A) → All P (xs ++ ys) → All P xs
  All-left [] ys h = tt
  All-left (x ∷ xs) ys h = (h.0, All-left xs ys h.1)

  pub All-take : (n : ℕ) (xs : List A) → All P xs → All P (take n xs)
  All-take zero xs h = tt
  All-take (suc n) [] h = tt
  All-take (suc n) (x ∷ xs) h = (h.0, All-take n xs h.1)

  pub All-drop : (n : ℕ) (xs : List A) → All P xs → All P (drop n xs)
  All-drop zero xs h = h
  All-drop (suc n) [] h = tt
  All-drop (suc n) (x ∷ xs) h = All-drop n xs h.1

module _ {ℓ} {A : Type ℓ} where
  pub get_elem?-length_append :
      (xs : List A) (y : A) (ys : List A) → get_elem? (xs ++ y ∷ ys) (length xs) ≡ some y
  get_elem?-length_append [] y ys = refl
  get_elem?-length_append (x ∷ xs) y ys = get_elem?-length_append xs y ys

  pub get_elem?-length : (xs : List A) → get_elem? xs (length xs) ≡ none
  get_elem?-length [] = refl
  get_elem?-length (x ∷ xs) = get_elem?-length xs

  pub drop-suc-length_append :
      (xs : List A) (y : A) (ys : List A) → drop (suc (length xs)) (xs ++ y ∷ ys) ≡ ys
  drop-suc-length_append [] y ys = refl
  drop-suc-length_append (x ∷ xs) y ys = drop-suc-length_append xs y ys

  -- A list at least `n` long, as a part of length `n` and the rest.
  pub split_at :
      (n : ℕ) (xs : List A)
      → n ≤ length xs
      → (us : List A) × (ys : List A) × (xs ≡ us ++ ys) × (length us ≡ n)
  split_at n xs h = (take n xs, drop n xs, sym (take-append-drop n xs), length-take n xs h)

module _ {ℓ} {A : Type ℓ} where
  pub take-length-add_append :
      (k : ℕ) (xs ys : List A) → take (length xs + k) (xs ++ ys) ≡ xs ++ take k ys
  take-length-add_append k [] ys = ap (λ n. take n ys) (omega arith)
  take-length-add_append k (x ∷ xs) ys =
      let e : suc (length xs) + k ≡ suc (length xs + k) = omega arith in
      rw (e, take-length-add_append k xs ys)
