-- ===== src/Auth/Tests.antt =====
-- The cases of src/auth.rs's own tests, and the theorems at concrete users.
use next_socks.Prelude.{◌≡◌, refl, ◌↔◌, true, false, List, [], ◌∷◌, Mem}
use next_socks.Wire.{Str}
use next_socks.Config.{User}
use next_socks.Auth.{verify_credentials}
use next_socks.Auth.Laws.{verify_credentials_iff}

abbrev alice : Str
alice = 0x61 ∷ 0x6c ∷ []

abbrev secret : Str
secret = 0x73 ∷ 0x65 ∷ []

abbrev users : List User
users =
    record { username = 0x62 ∷ []; password = 0x68 ∷ [] }
    ∷ record { username = alice; password = secret }
    ∷ []

accepts_and_rejects :
    (verify_credentials users alice secret ≡ true)
    × (verify_credentials users alice (0x77 ∷ []) ≡ false)
    × (verify_credentials [] alice secret ≡ false)
unfolding verify_credentials
accepts_and_rejects = (refl, refl, refl)

verify_credentials_iff_example :
    (verify_credentials users alice secret ≡ true)
    ↔ Mem (record { username = alice; password = secret }) users
verify_credentials_iff_example = verify_credentials_iff users alice secret
