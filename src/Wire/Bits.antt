-- ===== src/Wire/Bits.antt =====
-- When `|` and `^` of two numbers are zero, by induction on their binary digits.
use Prim.Native.Nat.{digits, bit_or, bit_xor, bit_or-bitwise, bit_xor-bitwise, differ}
use native.Mathlib.Nat.{le_refl}
use next_socks.Prelude.{ℕ, zero, suc, ◌/◌, ◌%◌, ◌≤◌, max, ◌≡◌, refl, sym, ap, ◌∙◌, arith}

differ-zero : (x y : ℕ) → differ x y ≡ 0 → x ≡ y
differ-zero zero y h = sym h
differ-zero (suc x) zero h = absurd (omega arith)
differ-zero (suc x) (suc y) h = ap suc (differ-zero x y h)

differ_self : (x : ℕ) → differ x x ≡ 0
differ_self zero = refl
differ_self (suc x) = differ_self x

-- The digits of `a ^ b` and of `a | b`, with fuel for every digit of `a`.
abbrev xor_digits : ℕ → ℕ → ℕ → ℕ
xor_digits fuel a b = digits (λ y. y) differ fuel a b

abbrev or_digits : ℕ → ℕ → ℕ → ℕ
or_digits fuel a b = digits (λ y. y) max fuel a b

xor_digits-zero : (fuel a b : ℕ) → a ≤ fuel → xor_digits fuel a b ≡ 0 → a ≡ b
xor_digits-zero zero zero b fits e = sym e
xor_digits-zero zero (suc a) b fits e = absurd (omega arith)
xor_digits-zero (suc fuel) zero b fits e = sym e
xor_digits-zero (suc fuel) (suc a) b fits e =
    let high = xor_digits-zero fuel (suc a / 2) (b / 2) (omega arith) (omega arith) in
    let low = differ-zero (suc a % 2) (b % 2) (omega arith) in omega arith

xor_digits_self : (fuel a : ℕ) → a ≤ fuel → xor_digits fuel a a ≡ 0
xor_digits_self zero zero fits = refl
xor_digits_self zero (suc a) fits = absurd (omega arith)
xor_digits_self (suc fuel) zero fits = refl
xor_digits_self (suc fuel) (suc a) fits =
    let high = xor_digits_self fuel (suc a / 2) (omega arith) in
    omega (arith, high, differ_self (suc a % 2))

or_digits-zero : (fuel a b : ℕ) → a ≤ fuel → or_digits fuel a b ≡ 0 → (a ≡ 0) × (b ≡ 0)
or_digits-zero zero zero b fits e = (refl, e)
or_digits-zero zero (suc a) b fits e = absurd (omega arith)
or_digits-zero (suc fuel) zero b fits e = (refl, e)
or_digits-zero (suc fuel) (suc a) b fits e =
    let high = or_digits-zero fuel (suc a / 2) (b / 2) (omega arith) (omega arith) in
    omega (arith, high)

-- `a ^ b` is zero exactly at equal numbers, and `a | b` only at two zeros.
pub bit_xor-zero : (a b : ℕ) → bit_xor a b ≡ 0 → a ≡ b
bit_xor-zero a b h = xor_digits-zero a a b (le_refl a) (sym (bit_xor-bitwise a b) ∙ h)

pub bit_xor_self : (a : ℕ) → bit_xor a a ≡ 0
bit_xor_self a = bit_xor-bitwise a a ∙ xor_digits_self a a (le_refl a)

pub bit_or-zero : (a b : ℕ) → bit_or a b ≡ 0 → (a ≡ 0) × (b ≡ 0)
bit_or-zero a b h = or_digits-zero a a b (le_refl a) (sym (bit_or-bitwise a b) ∙ h)
