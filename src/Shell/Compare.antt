-- ===== src/Shell/Compare.antt =====
-- `kstrcmp(...) == 0`, which the history and the dispatch of shell.c test.
use simple_kernel.Base.{◌≡◌, refl, ap, arith, Bool, true, false, ◌==◌, ==_iff}
use simple_kernel.Base.Int.{ℤ, pos, negsuc}

unfoldable pub is_zero : ℤ → Bool
is_zero (pos n) = n == 0
is_zero (negsuc n) = false

pub is_zero_lem : (z : ℤ) → is_zero z ≡ true → z ≡ pos 0
unfolding is_zero
is_zero_lem (pos n) h = ap pos ((==_iff n 0).0 h)
is_zero_lem (negsuc n) h = ground arith

pub is_zero-pos : (z : ℤ) → z ≡ pos 0 → is_zero z ≡ true
unfolding is_zero
is_zero-pos z h = rw h refl
