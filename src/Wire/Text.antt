-- ===== src/Wire/Text.antt =====
-- Text literals as strings.
use Prim.Native.Char.{code}
use Prim.Native.String.{String}
use next_socks.Prelude.{[], ◌∷◌}
use next_socks.Wire.{Str}

-- The bytes of an ASCII text.
abbrev pub codes : String → Str
codes String.[] = []
codes (String.◌∷◌ c s) = code c ∷ codes s
