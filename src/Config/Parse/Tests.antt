-- ===== src/Config/Parse/Tests.antt =====
-- The range "1-20", with white space around its numbers, and the name "a.b0.".
use next_socks.Prelude.{ok, ℕ, ◌≡◌, refl, true, false, List, [], ◌∷◌}
use next_socks.Wire.{Str}
use next_socks.Config.{PortRange}
use next_socks.Config.Parse.{parse, is_valid_dns_name}

abbrev text : List ℕ
text = 0x2b ∷ 0x31 ∷ 0xa0 ∷ 0x2d ∷ 0x20 ∷ 0x32 ∷ 0x30 ∷ []

abbrev one_to_twenty : PortRange
one_to_twenty = record { start = 1; end = 20 }

parsed : parse text ≡ ok one_to_twenty
unfolding parse
parsed = refl

abbrev name : Str
name = 0x61 ∷ 0x2e ∷ 0x62 ∷ 0x30 ∷ 0x2e ∷ []

valid : is_valid_dns_name name ≡ true
unfolding is_valid_dns_name
valid = refl

-- The last label needs a letter, so an IPv4 address is no name.
address_refused : is_valid_dns_name (0x31 ∷ 0x2e ∷ 0x32 ∷ []) ≡ false
unfolding is_valid_dns_name
address_refused = refl
