-- ===== src/Config/Policy/Tests.antt =====
-- The policy's theorems on a private address.
use next_socks.Prelude.{◌≡◌, ◌↔◌, true, [], ◌∷◌, arith}
use next_socks.Net.{ip_v4, ip_v6}
use next_socks.Config.{default_egress}
use next_socks.Config.Policy.{is_blocked}
use next_socks.Config.Policy.Laws.{
  InBlockedRange, is_blocked-InBlockedRange, mapped, compatible, is_blocked-embedded,
}

is_blocked-InBlockedRange_example :
    (is_blocked default_egress (ip_v4 (10 ∷ 1 ∷ 2 ∷ 3 ∷ [])) ≡ true)
    ↔ InBlockedRange default_egress 10 1 2 3
is_blocked-InBlockedRange_example = is_blocked-InBlockedRange default_egress 10 1 2 3 (omega arith)

is_blocked-embedded_example :
    (is_blocked default_egress (ip_v6 (mapped 10 1 2 3))
      ≡ is_blocked default_egress (ip_v4 (10 ∷ 1 ∷ 2 ∷ 3 ∷ [])))
    × (is_blocked default_egress (ip_v6 (compatible 10 1 2 3))
        ≡ is_blocked default_egress (ip_v4 (10 ∷ 1 ∷ 2 ∷ 3 ∷ [])))
is_blocked-embedded_example = is_blocked-embedded default_egress 10 1 2 3
