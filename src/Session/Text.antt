-- ===== src/Session/Text.antt =====
-- The text literals of libsimbus as lists of character codes.
use Prim.Native.Char.{code}
use Prim.Native.String.{String}
use simbus.Base.{ℕ, List, [], ◌∷◌}

abbrev pub codes : String → List ℕ
codes String.[] = []
codes (String.◌∷◌ c s) = code c ∷ codes s
