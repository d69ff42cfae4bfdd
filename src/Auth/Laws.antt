-- ===== src/Auth/Laws.antt =====
-- The constant-time tests decide what the plain ones would.
use Prim.Native.Nat.{bit_or, bit_xor}
use next_socks.Prelude.{
  Bool-cases, Bool-eq-prop, length, ℕ, ◌≡◌, refl, sym, ap₂, ◌∙◌, subst, ◌↔◌, inl, inr, Bool, true,
  false, ◌&&◌, List, [], ◌∷◌, Mem, mem-cons, not-mem-nil, or_elim, or_inl, or_inr, arith,
}
use next_socks.Wire.{Str}
use next_socks.Wire.Bits.{bit_xor-zero, bit_xor_self, bit_or-zero}
use next_socks.Config.{User}
use next_socks.Auth.{diff_loop, ct_eq, verify_loop, verify_credentials}

diff_loop-zero :
    (d : ℕ) (xs ys : List ℕ) → length xs ≡ length ys → diff_loop d xs ys ≡ 0 → (d ≡ 0) × (xs ≡ ys)
unfolding diff_loop
diff_loop-zero d [] [] l h = (h, refl)
diff_loop-zero d [] (y ∷ ys) l h = absurd (omega arith)
diff_loop-zero d (x ∷ xs) [] l h = absurd (omega arith)
diff_loop-zero d (x ∷ xs) (y ∷ ys) l h =
    let (now, later) = diff_loop-zero (bit_or d (bit_xor x y)) xs ys (omega arith) h in
    let (before, here) = bit_or-zero d (bit_xor x y) now in
    (before, ap₂ ◌∷◌ (bit_xor-zero x y here) later)

diff_loop_self : (xs : List ℕ) → diff_loop 0 xs xs ≡ 0
unfolding diff_loop
diff_loop_self [] = refl
diff_loop_self (x ∷ xs) = rw (bit_xor_self x) (diff_loop_self xs)

-- The comparison that folds every byte into an accumulator accepts exactly the equal slices.
pub ct_eq_iff : (a b : List ℕ) → (ct_eq a b ≡ true) ↔ (a ≡ b)
unfolding ct_eq
ct_eq_iff a b = (
  λ h. (diff_loop-zero 0 a b (ground arith) (ground arith)).1,
  λ e. rw (← e) (ground (arith, diff_loop_self a)),
)

abbrev user : Str → Str → User
user username password = record { username = username; password = password }

-- Both comparisons of one round of the loop.
abbrev matches : User → Str → Str → Bool
matches u username password = ct_eq u.username username && ct_eq u.password password

matches→eq :
    (u : User) (username password : Str)
    → matches u username password ≡ true
    → user username password ≡ u
matches→eq u username password h =
    let a : ct_eq u.username username ≡ true = ground arith in
    let b : ct_eq u.password password ≡ true = ground arith in
    sym (ap₂ user ((ct_eq_iff u.username username).0 a) ((ct_eq_iff u.password password).0 b))

eq→matches : (username password : Str) → matches (user username password) username password ≡ true
eq→matches username password =
    rw ((ct_eq_iff username username).1 refl, (ct_eq_iff password password).1 refl)

verify_loop-true :
    (us : List User) (username password : Str) → verify_loop true us username password ≡ true
unfolding verify_loop
verify_loop-true [] username password = refl
verify_loop-true (u ∷ us) username password = verify_loop-true us username password

verify→Mem :
    (us : List User) (username password : Str)
    → verify_credentials us username password ≡ true
    → Mem (user username password) us
unfolding verify_loop verify_credentials
verify→Mem [] username password h = cc
verify→Mem (u ∷ us) username password h = elim (Bool-cases (matches u username password)) [
  | inl hit ↦ mem-cons.1 (or_inl (matches→eq u username password hit))
  | inr miss ↦ mem-cons.1 (or_inr (verify→Mem us username password (rw miss at h)))
]

verify-cons :
    (u : User) (us : List User) (username password : Str)
    → matches u username password ≡ false
    → verify_credentials (u ∷ us) username password ≡ verify_credentials us username password
unfolding verify_credentials
verify-cons u us username password miss = rw miss

Mem→verify :
    (us : List User) (username password : Str)
    → Mem (user username password) us
    → verify_credentials us username password ≡ true
Mem→verify [] username password m = absurd (not-mem-nil m)
Mem→verify (u ∷ us) username password m = elim (Bool-cases (matches u username password)) [
  | inl hit ↦ unfold verify_credentials in rw hit (verify_loop-true us username password)
  | inr miss ↦
      or_elim (Bool-eq-prop _ _) (mem-cons.0 m)
        (λ e.
          cc (
            miss,
            subst (λ v. matches v username password ≡ true) e (eq→matches username password),
          ))
        (λ later. verify-cons u us username password miss ∙ Mem→verify us username password later)
]

-- Credentials are accepted exactly when some configured user has that name and that password.
pub verify_credentials_iff :
    (users : List User) (username password : Str)
    → (verify_credentials users username password ≡ true)
      ↔ Mem (record { username = username; password = password }) users
verify_credentials_iff users username password =
    (verify→Mem users username password, Mem→verify users username password)
