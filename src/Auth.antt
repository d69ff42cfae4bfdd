-- ===== src/Auth.antt =====
-- src/auth.rs: constant-time comparison of credentials.
pub mod Laws
mod Tests
use Prim.Native.Nat.{bit_or, bit_xor}
use next_socks.Prelude.{◌==◌, if◌then◌else◌, length, ℕ, Bool, false, ◌&&◌, ◌||◌, not, List, [], ◌∷◌}
use next_socks.Config.{User}
use next_socks.Wire.{Str}

-- The loop over `a.iter().zip(b.iter())`.
diff_loop : ℕ → List ℕ → List ℕ → ℕ
diff_loop diff [] ys = diff
diff_loop diff (x ∷ xs) [] = diff
diff_loop diff (x ∷ xs) (y ∷ ys) = diff_loop (bit_or diff (bit_xor x y)) xs ys

unfoldable pub ct_eq : List ℕ → List ℕ → Bool
unfolding diff_loop
ct_eq a b = if not (length a == length b) then false else diff_loop 0 a b == 0

verify_loop : Bool → List User → Str → Str → Bool
verify_loop accepted [] username password = accepted
verify_loop accepted (u ∷ us) username password =
    let user_match = ct_eq u.username username in
    let pass_match = ct_eq u.password password in
    verify_loop (accepted || (user_match && pass_match)) us username password

unfoldable pub verify_credentials : List User → Str → Str → Bool
unfolding verify_loop ct_eq
verify_credentials users username password = verify_loop false users username password
