-- ===== src/Net/Sets.antt =====
-- The sets and duplicate-free lists that the program keeps (`HashSet`, `Vec::contains`), as lists
-- over a type with decided equality.
use next_socks.Prelude.{
  if◌then◌else◌, ◌≡◌, refl, Bool, true, false, ◌||◌, List, [], ◌∷◌, ◌++◌, arith,
}

module _ {ℓ} {A : Type ℓ} (d : Discrete A) where
  abbrev pub same : A → A → Bool
  same a b = elim (d a b) [ yes e ↦ true | no n ↦ false ]

  abbrev pub includes : A → List A → Bool
  includes a [] = false
  includes a (x ∷ xs) = same a x || includes a xs

  abbrev pub without : A → List A → List A
  without a [] = []
  without a (x ∷ xs) = let rest = without a xs in if same a x then rest else x ∷ rest

  -- No element occurs twice.
  abbrev pub Distinct : List A → Type 0
  Distinct [] = Unit {0}
  Distinct (x ∷ xs) = (includes x xs ≡ false) × Distinct xs

  includes-append :
      (a b : A) (xs : List A)
      → includes a xs ≡ false
      → same a b ≡ false
      → includes a (xs ++ b ∷ []) ≡ false
  includes-append a b [] h e = rw e refl
  includes-append a b (x ∷ xs) h e = ground (arith, includes-append a b xs)

  same-swap : (a b : A) → same a b ≡ false → same b a ≡ false
  same-swap a b h = elim (d a b) [ yes e ↦ ground arith | no n ↦ ground arith ]

  pub Distinct-append :
      (a : A) (xs : List A) → includes a xs ≡ false → Distinct xs → Distinct (xs ++ a ∷ [])
  Distinct-append a [] h k = (refl, tt)
  Distinct-append a (x ∷ xs) h k =
      let (fresh, rest) = k in
      let apart : (same a x ≡ false) × (includes a xs ≡ false) = ground arith in
      (includes-append x a xs fresh (same-swap a x apart.0), Distinct-append a xs apart.1 rest)

  pub without-absent : (a : A) (xs : List A) → includes a xs ≡ false → without a xs ≡ xs
  without-absent a [] h = refl
  without-absent a (x ∷ xs) h = ground (arith, without-absent a xs)

  pub same_self : (a : A) → same a a ≡ true
  same_self a = ground arith

  includes-left : (a : A) (xs ys : List A) → includes a (xs ++ ys) ≡ false → includes a xs ≡ false
  includes-left a [] ys h = refl
  includes-left a (x ∷ xs) ys h = ground (arith, includes-left a xs ys)

  pub Distinct-left : (xs ys : List A) → Distinct (xs ++ ys) → Distinct xs
  Distinct-left [] ys h = tt
  Distinct-left (x ∷ xs) ys h = (includes-left x xs ys h.0, Distinct-left xs ys h.1)

  pub includes_last : (a : A) (xs : List A) → includes a (xs ++ a ∷ []) ≡ true
  includes_last a [] = ground arith
  includes_last a (x ∷ xs) = ground (arith, includes_last a xs)
