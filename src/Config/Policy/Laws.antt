-- ===== src/Config/Policy/Laws.antt =====
-- The egress policy on IPv4, against its ranges, and on the IPv6 forms of IPv4 addresses.
use Prim.Native.Nat.{bit_and}
use next_socks.Prelude.{
  leb, ◌==◌, if◌then◌else◌, ℕ, zero, suc, ◌≤◌, ◌<◌, ◌≡◌, refl, sym, subst, ◌↔◌, ◌⊎◌, Bool, true,
  ◌&&◌, not, List, [], ◌∷◌, arith, ℕ_discrete,
}
use next_socks.Net.{ip_v4, ip_v6, to_ipv4}
use next_socks.Config.{Egress}
use next_socks.Config.Policy.{blocks_v4, blocks_native_v6, is_blocked}

-- A test that holds of every number below a bound.
all_below : (ℕ → Bool) → ℕ → Bool
all_below p zero = true
all_below p (suc n) = p n && all_below p n

all_below-lt : (p : ℕ → Bool) (n i : ℕ) → all_below p n ≡ true → i < n → p i ≡ true
unfolding all_below
all_below-lt p zero i e h = absurd (omega arith)
all_below-lt p (suc n) i e h = elim (ℕ_discrete i n) [
  | yes same ↦ ground (arith, subst (λ k. p n ≡ p k) (sym same) refl)
  | no other ↦ all_below-lt p n i (ground arith) (omega arith)
]

-- Whether an octet lies in the range that the mask 0xc0 with the value 64 stands for.
abbrev cgnat_agrees : ℕ → Bool
cgnat_agrees b = if bit_and b 0xc0 == 64 then leb 64 b && leb b 127 else not (leb 64 b && leb b 127)

cgnat_agrees_all : all_below cgnat_agrees 256 ≡ true
unfolding all_below
cgnat_agrees_all = refl

cgnat_mask : (b : ℕ) → b < 256 → (bit_and b 0xc0 ≡ 64) ↔ ((64 ≤ b) × (b ≤ 127))
cgnat_mask b h =
    let e = all_below-lt cgnat_agrees 256 b cgnat_agrees_all h in
    (λ p. ground arith, λ p. ground arith)

-- The ranges that the policy promises to block.
abbrev pub InBlockedRange : Egress → ℕ → ℕ → ℕ → ℕ → Type 0
InBlockedRange e a b c d =
    ((a ≡ 0) × (b ≡ 0) × (c ≡ 0) × (d ≡ 0))
    ⊎ (((e.block_loopback ≡ true) × ((a ≡ 127) ⊎ (a ≡ 0)))
        ⊎ (((e.block_link_local ≡ true) × (a ≡ 169) × (b ≡ 254))
            ⊎ ((e.block_private ≡ true)
                × ((a ≡ 10)
                    ⊎ (((a ≡ 172) × (16 ≤ b) × (b ≤ 31))
                        ⊎ (((a ≡ 192) × (b ≡ 168)) ⊎ ((a ≡ 100) × (64 ≤ b) × (b ≤ 127))))))))

-- An IPv4 address is blocked exactly when it is the unspecified one or lies in a range whose class
-- is switched on: 127/8 and 0/8, 169.254/16, or 10/8, 172.16/12, 192.168/16 and 100.64/10.
pub is_blocked-InBlockedRange :
    (e : Egress) (a b c d : ℕ)
    → b < 256
    → (is_blocked e (ip_v4 (a ∷ b ∷ c ∷ d ∷ [])) ≡ true) ↔ InBlockedRange e a b c d
unfolding is_blocked blocks_v4
is_blocked-InBlockedRange e a b c d h =
    let m = cgnat_mask b h in (λ p. ground (arith, m), λ p. ground (arith, m))

-- The two IPv6 forms of an IPv4 address.
abbrev pub mapped : ℕ → ℕ → ℕ → ℕ → List ℕ
mapped a b c d = 0 ∷ 0 ∷ 0 ∷ 0 ∷ 0 ∷ 0 ∷ 0 ∷ 0 ∷ 0 ∷ 0 ∷ 0xff ∷ 0xff ∷ a ∷ b ∷ c ∷ d ∷ []

abbrev pub compatible : ℕ → ℕ → ℕ → ℕ → List ℕ
compatible a b c d = 0 ∷ 0 ∷ 0 ∷ 0 ∷ 0 ∷ 0 ∷ 0 ∷ 0 ∷ 0 ∷ 0 ∷ 0 ∷ 0 ∷ a ∷ b ∷ c ∷ d ∷ []

-- No IPv4 address passes the policy, or is blocked by it, because of being written as IPv6: its
-- mapped and its compatible form are treated as the address itself.
pub is_blocked-embedded :
    (e : Egress) (a b c d : ℕ)
    → (is_blocked e (ip_v6 (mapped a b c d)) ≡ is_blocked e (ip_v4 (a ∷ b ∷ c ∷ d ∷ [])))
      × (is_blocked e (ip_v6 (compatible a b c d)) ≡ is_blocked e (ip_v4 (a ∷ b ∷ c ∷ d ∷ [])))
unfolding is_blocked blocks_v4 blocks_native_v6 to_ipv4
is_blocked-embedded e a b c d = (ground arith, ground arith)
