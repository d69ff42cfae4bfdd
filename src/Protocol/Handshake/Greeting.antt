-- ===== src/Protocol/Handshake/Greeting.antt =====
-- The greeting as a parser of a buffer that is still being filled, and the choice of a method.
use next_socks.Prelude.{
  if◌then◌else◌, Bool-cases, Bool-eq-prop, ok, err, length, take, length-append, length-take,
  take-append_of_length, slice_append, ℕ, ◌+◌, ◌≤◌, ◌<◌, ◌≡◌, refl, sym, ◌≢◌, ◌↔◌, inl, inr, Bool,
  true, false, List, [], ◌∷◌, ◌++◌, Mem, mem-cons, not-mem-nil, or_elim, or_inl, or_inr, arith,
  ℕ_discrete,
}
use next_socks.Wire.{IsBytes}
use next_socks.Protocol.Handshake.{
  version, method_no_auth, method_userpass, method_none_acceptable, truncated, parse_greeting,
  contains, select_method,
}

-- A greeting on the wire.
abbrev pub greeting : List ℕ → List ℕ
greeting methods = version ∷ length methods ∷ methods

-- A greeting that offers up to 255 methods is read back, whatever the client sent behind it.
pub parse_greeting-greeting :
    (methods rest : List ℕ) → parse_greeting (greeting methods ++ rest) ≡ ok methods
unfolding parse_greeting
parse_greeting-greeting methods rest =
    ground (arith, length-append methods rest, take-append_of_length (length methods) methods rest)

-- What `parse_greeting` accepts starts with the greeting that offers exactly the methods returned.
pub parse_greeting-take :
    (buf methods : List ℕ)
    → parse_greeting buf ≡ ok methods
    → (2 + length methods ≤ length buf) × (take (2 + length methods) buf ≡ greeting methods)
unfolding parse_greeting
parse_greeting-take [] methods h = cc
parse_greeting-take (v ∷ []) methods h = ground arith
parse_greeting-take (v ∷ n ∷ xs) methods h = ground (arith, length-take n xs)

pub parse_greeting_append :
    (buf more : List ℕ)
    → parse_greeting buf ≢ err truncated
    → parse_greeting (buf ++ more) ≡ parse_greeting buf
unfolding parse_greeting
parse_greeting_append [] more h = absurd (h refl)
parse_greeting_append (v ∷ []) more h = ground arith
parse_greeting_append (v ∷ n ∷ xs) more h =
    ground (arith, length-append xs more, slice_append 2 (2 + n) (v ∷ n ∷ xs) more)

pub parse_greeting_truncated-lt :
    (buf : List ℕ) → IsBytes buf → parse_greeting buf ≡ err truncated → length buf < 257
unfolding parse_greeting
parse_greeting_truncated-lt [] b h = omega arith
parse_greeting_truncated-lt (v ∷ []) b h = omega arith
parse_greeting_truncated-lt (v ∷ n ∷ xs) b h = ground arith

pub contains→Mem : (xs : List ℕ) (b : ℕ) → contains xs b ≡ true → Mem b xs
unfolding contains
contains→Mem [] b e = cc
contains→Mem (x ∷ xs) b e = elim (ℕ_discrete b x) [
  | yes same ↦ mem-cons.1 (or_inl same)
  | no other ↦ mem-cons.1 (or_inr (contains→Mem xs b (ground arith)))
]

Mem→contains : (xs : List ℕ) (b : ℕ) → Mem b xs → contains xs b ≡ true
unfolding contains
Mem→contains [] b m = absurd (not-mem-nil m)
Mem→contains (x ∷ xs) b m =
    or_elim (Bool-eq-prop _ _) (mem-cons.0 m) (λ e. ground arith)
      (λ later. ground (arith, Mem→contains xs b later))

select_method_cases :
    (offered : List ℕ) (wanted : ℕ)
    → wanted ≢ method_none_acceptable
    → let chosen = if contains offered wanted then wanted else method_none_acceptable in
      ((chosen ≡ wanted) ↔ Mem wanted offered)
      × ((chosen ≡ method_none_acceptable) ↔ (¬ Mem wanted offered))
select_method_cases offered wanted h = elim (Bool-cases (contains offered wanted)) [
  | inl e ↦
      let m = contains→Mem offered wanted e in
      rw e ((λ _. m, λ _. refl), (λ f. absurd (h f), λ n. absurd (n m)))
  | inr e ↦
      let n : ¬ Mem wanted offered = λ m. cc (e, Mem→contains offered wanted m) in
      rw e ((λ f. absurd (h (sym f)), λ m. absurd (n m)), (λ _. n, λ _. refl))
]

-- The method that the configuration wants is chosen exactly when the client offered it; otherwise
-- the answer is that no method is acceptable, and never the other of the two methods.
pub select_method_lem :
    (offered : List ℕ) (require_userpass : Bool)
    → let wanted = if require_userpass then method_userpass else method_no_auth in
      ((select_method offered require_userpass ≡ wanted) ↔ Mem wanted offered)
      × ((select_method offered require_userpass ≡ method_none_acceptable) ↔ (¬ Mem wanted offered))
unfolding select_method
select_method_lem offered true = select_method_cases offered method_userpass (λ e. cc)
select_method_lem offered false = select_method_cases offered method_no_auth (omega arith)
