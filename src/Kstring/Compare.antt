-- ===== src/Kstring/Compare.antt =====
-- `kstrlen` and `kstrcmp` of kstring.c, and the texts of their arguments.
use simple_kernel.Base.{ℕ, ◌≡◌, refl, ◌↔◌, List, [], ◌∷◌, arith, ◌==◌, if◌then◌else◌, length}
use simple_kernel.Base.Int.{pos}
use simple_kernel.Kstring.{kstrlen, kstrcmp}

-- The bytes before the first NUL.
unfoldable pub text : List ℕ → List ℕ
text [] = []
text (c ∷ str) = if c == 0 then [] else c ∷ text str

pub kstrlen-text : (str : List ℕ) → kstrlen str ≡ length (text str)
unfolding kstrlen text
kstrlen-text [] = refl
kstrlen-text (c ∷ str) = ground (arith, kstrlen-text str)

-- `kstrcmp` returns 0 exactly for equal texts.
pub kstrcmp-zero_iff : (lhs rhs : List ℕ) → (kstrcmp lhs rhs ≡ pos 0) ↔ (text lhs ≡ text rhs)
unfolding kstrcmp text
kstrcmp-zero_iff [] [] = ground arith
kstrcmp-zero_iff [] (d ∷ rhs) = ground arith
kstrcmp-zero_iff (c ∷ lhs) [] = ground arith
kstrcmp-zero_iff (c ∷ lhs) (d ∷ rhs) = ground (arith, kstrcmp-zero_iff lhs rhs)
