-- ===== src/Kstring/Tests.antt =====
-- The theorems on kstring.c at concrete arrays.
use simple_kernel.Base.{ℕ, ◌≡◌, ◌↔◌, arith, some, List, [], ◌∷◌, get_or, replicate}
use simple_kernel.Base.Int.{pos}
use simple_kernel.Kstring.{kmemmove, kstrcmp, ku64_parse, ku64_to_dec}
use simple_kernel.Kstring.Compare.{text, kstrcmp-zero_iff}
use simple_kernel.Kstring.Memory.{moved, kmemmove-moved}
use simple_kernel.Kstring.Number.{ku64_parse-ku64_to_dec}

abbrev five_bytes : List ℕ
five_bytes = 1 ∷ 2 ∷ 3 ∷ 4 ∷ 5 ∷ []

-- One cell up, over itself.
kmemmove-moved_example : get_or (kmemmove 1 0 4 five_bytes) 3 0 ≡ moved 1 0 4 five_bytes 3
kmemmove-moved_example = kmemmove-moved 1 0 4 five_bytes 3 (omega arith)

abbrev ls : List ℕ
ls = b'l' ∷ b's' ∷ 0 ∷ []

kstrcmp-zero_iff_example :
    (kstrcmp ls (b'l' ∷ b's' ∷ 0 ∷ 9 ∷ []) ≡ pos 0) ↔ (text ls ≡ text (b'l' ∷ b's' ∷ 0 ∷ 9 ∷ []))
kstrcmp-zero_iff_example = kstrcmp-zero_iff ls (b'l' ∷ b's' ∷ 0 ∷ 9 ∷ [])

ku64_parse-ku64_to_dec_example : ku64_parse (ku64_to_dec (replicate 24 7) 24 1024) ≡ some 1024
ku64_parse-ku64_to_dec_example =
    ku64_parse-ku64_to_dec (replicate 24 7) 24 1024 (omega arith) (omega arith) (omega arith)
