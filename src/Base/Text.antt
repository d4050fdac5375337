-- ===== src/Base/Text.antt =====
-- String literals of the source as the list of their bytes.
use Prim.Native.Char.{code}
use Prim.Native.String.{String}
use Prim.Native.Nat.{ℕ}
use mathlib.Core.List.{List, [], ◌∷◌}

unfoldable pub str : String → List ℕ
str String.[] = []
str (String.◌∷◌ c s) = code c ∷ str s
