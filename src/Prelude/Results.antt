-- ===== src/Prelude/Results.antt =====
-- Rust's `Result<A, E>`, its `?` as the bind of a `do` block, and `Option::ok_or`.
use mathlib.Core.Path.{◌≡◌, refl, ap}
use mathlib.Core.Logic.{◌⊎◌, inl, inr}
use mathlib.Core.Option.{Option, none, some}

pub data Result {ℓ κ} (A : Type ℓ) (E : Type κ) : Type (ℓ ⊔ κ) where
  ok : A → Result A E
  err : E → Result A E

infixl 5 ◌>>=◌
abbrev pub ◌>>=◌ {ℓ κ λ₁} :
    {A : Type ℓ} {B : Type κ} {E : Type λ₁} → Result A E → (A → Result B E) → Result B E
ok a >>= f = f a
err e >>= f = err e

abbrev pub ok_or {ℓ κ} : {A : Type ℓ} {E : Type κ} → Option A → E → Result A E
ok_or none e = err e
ok_or (some a) e = ok a

abbrev pub map_err {ℓ κ λ₁} :
    {A : Type ℓ} {E : Type κ} {F : Type λ₁} → (E → F) → Result A E → Result A F
map_err f (ok a) = ok a
map_err f (err e) = err (f e)

pub Result-cases {ℓ κ} :
    {A : Type ℓ} {E : Type κ} (r : Result A E) → ((a : A) × (r ≡ ok a)) ⊎ ((e : E) × (r ≡ err e))
Result-cases (ok a) = inl (a, refl)
Result-cases (err e) = inr (e, refl)

abbrev ok_part {ℓ κ} : {A : Type ℓ} {E : Type κ} → A → Result A E → A
ok_part d (ok a) = a
ok_part d (err e) = d

pub ok-injective {ℓ κ} :
    {A : Type ℓ} {E : Type κ} {a b : A} → Path (Result A E) (ok a) (ok b) → a ≡ b
ok-injective {a = a} h = ap (ok_part a) h
