-- ===== src/Metrics/Entries.antt =====
-- The entries of the registry and the buckets of the errors, as lists.
use next_socks.Prelude.{
  ◌==◌, if◌then◌else◌, Bool-cases, if_elim, length, All, ℕ, zero, suc, ◌+◌, ◌%◌, ◌≤◌, ◌<◌, ◌≡◌,
  refl, sym, subst, ◌≢◌, inl, inr, none, List, [], ◌∷◌, arith,
}
use next_socks.Metrics.{ConnInfo, u64_mod, remove, update, find, bump}

abbrev pub Unique : List ConnInfo → Type 0
Unique [] = Unit {0}
Unique (c ∷ cs) = (find c.id cs ≡ none) × Unique cs

abbrev pub sum : List ℕ → ℕ
sum [] = 0
sum (x ∷ xs) = x + sum xs

abbrev pub Below : ℕ → ConnInfo → Type 0
Below n c = c.id < n

pub find-Below : (n : ℕ) (cs : List ConnInfo) → All (Below n) cs → find n cs ≡ none
find-Below n [] h = refl
find-Below n (c ∷ cs) h = ground (arith, find-Below n cs h.1)

pub remove-Below : (n id : ℕ) (cs : List ConnInfo) → All (Below n) cs → All (Below n) (remove id cs)
remove-Below n id [] h = tt
remove-Below n id (c ∷ cs) h =
    if_elim (All (Below n)) (c.id == id) (remove id cs) (c ∷ remove id cs)
      (λ b. remove-Below n id cs h.1) (λ b. (h.0, remove-Below n id cs h.1))

pub weaken-Below : (n k : ℕ) (cs : List ConnInfo) → n ≤ k → All (Below n) cs → All (Below k) cs
weaken-Below n k [] p h = tt
weaken-Below n k (c ∷ cs) p h = (omega arith, weaken-Below n k cs p h.1)

pub remove-absent : (id : ℕ) (cs : List ConnInfo) → find id cs ≡ none → remove id cs ≡ cs
remove-absent id [] h = refl
remove-absent id (c ∷ cs) h = ground (arith, remove-absent id cs)

pub find-remove-none :
    (k id : ℕ) (cs : List ConnInfo) → find k cs ≡ none → find k (remove id cs) ≡ none
find-remove-none k id [] h = refl
find-remove-none k id (c ∷ cs) h = ground (arith, find-remove-none k id cs)

pub remove-Unique : (id : ℕ) (cs : List ConnInfo) → Unique cs → Unique (remove id cs)
remove-Unique id [] h = tt
remove-Unique id (c ∷ cs) h =
    if_elim Unique (c.id == id) (remove id cs) (c ∷ remove id cs) (λ b. remove-Unique id cs h.1)
      (λ b. (find-remove-none c.id id cs h.0, remove-Unique id cs h.1))

-- Removing an entry that is there makes the list shorter by one.
pub length-remove :
    (id : ℕ) (cs : List ConnInfo)
    → Unique cs
    → find id cs ≢ none
    → length (remove id cs) + 1 ≡ length cs
length-remove id [] u h = absurd (h refl)
length-remove id (c ∷ cs) u h = elim (Bool-cases (c.id == id)) [
  | inl e ↦
      let same : c.id ≡ id = ground arith in
      let rest = remove-absent id cs (subst (λ k. find k cs ≡ none) same u.0) in
      rw (e, rest) (omega arith)
  | inr e ↦ rw e (omega (arith, length-remove id cs u.1 (rw e at h)))
]

pub length-update :
    (f : ConnInfo → ConnInfo) (id : ℕ) (cs : List ConnInfo) → length (update f id cs) ≡ length cs
length-update f id [] = refl
length-update f id (c ∷ cs) = omega (arith, length-update f id cs)

-- An update that keeps ids keeps who is there.
module _ (f : ConnInfo → ConnInfo) (keeps : (c : ConnInfo) → (f c).id ≡ c.id) where
  pub update-Below :
      (n id : ℕ) (cs : List ConnInfo) → All (Below n) cs → All (Below n) (update f id cs)
  update-Below n id [] h = tt
  update-Below n id (c ∷ cs) h = (ground (arith, keeps c), update-Below n id cs h.1)

  pub find-update-none :
      (k id : ℕ) (cs : List ConnInfo) → find k cs ≡ none → find k (update f id cs) ≡ none
  find-update-none k id [] h = refl
  find-update-none k id (c ∷ cs) h = ground (arith, keeps c, find-update-none k id cs)

  pub update_id : (id : ℕ) (c : ConnInfo) → (if c.id == id then f c else c).id ≡ c.id
  update_id id c = ground (arith, keeps c)

  pub update-Unique : (id : ℕ) (cs : List ConnInfo) → Unique cs → Unique (update f id cs)
  update-Unique id [] h = tt
  update-Unique id (c ∷ cs) h = (
    subst (λ k. find k (update f id cs) ≡ none) (sym (update_id id c))
        (find-update-none c.id id cs h.0),
    update-Unique id cs h.1,
  )

-- Counting in a bucket that is there adds one to the sum, modulo the width of a counter.
pub bump-sum :
    (i : ℕ) (xs : List ℕ)
    → i < length xs
    → (length (bump i xs) ≡ length xs) × (sum (bump i xs) % u64_mod ≡ (sum xs + 1) % u64_mod)
bump-sum i [] h = absurd (omega arith)
bump-sum zero (x ∷ xs) h = (refl, omega arith)
bump-sum (suc i) (x ∷ xs) h =
    let (same, more) = bump-sum i xs (omega arith) in (omega arith, omega arith)
