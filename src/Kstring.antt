-- ===== src/Kstring.antt =====
-- kstring.c. An array is the list of its cells, and a pointer into it an index. A string that is
-- only read is the list of the bytes from its pointer on, so `str++` is the tail; the text ends at
-- the first NUL, and a read past the end of the list gives a NUL too.
mod Tests
pub mod Compare
pub mod Memory
pub mod Number
use simple_kernel.Base.{
  ℕ, zero, suc, ◌+◌, ◌-◌, ◌*◌, ◌/◌, ◌%◌, ◌^◌, Bool, true, false, ◌&&◌, ◌||◌, not, Option, none,
  some, List, [], ◌∷◌, ◌++◌, ltb, leb, ◌==◌, if◌then◌else◌, u8, u64, get_or, set,
}
use simple_kernel.Base.Int.{ℤ, pos, sub_ℕ}

-- `for (i = i0; i < n; i++) out[i] = in[i]`, with `rounds` left. Both arrays may be one.
unfoldable pub copy_up : ℕ → ℕ → ℕ → ℕ → List ℕ → List ℕ
copy_up zero i dst src mem = mem
copy_up (suc rounds) i dst src mem =
    copy_up rounds (i + 1) dst src (set mem (dst + i) (get_or mem (src + i) 0))

-- `kmemcpy(mem + dst, mem + src, n)`
unfoldable pub kmemcpy : ℕ → ℕ → ℕ → List ℕ → List ℕ
kmemcpy dst src n mem = copy_up n 0 dst src mem

-- `kmemcpy` between two arrays, which cannot overlap.
unfoldable pub copy_between : ℕ → ℕ → ℕ → ℕ → List ℕ → List ℕ → List ℕ
copy_between zero i dst src in_mem out_mem = out_mem
copy_between (suc rounds) i dst src in_mem out_mem =
    copy_between rounds (i + 1) dst src in_mem (set out_mem (dst + i) (get_or in_mem (src + i) 0))

unfoldable pub kmemcpy_between : ℕ → ℕ → ℕ → List ℕ → List ℕ → List ℕ
kmemcpy_between dst src n in_mem out_mem = copy_between n 0 dst src in_mem out_mem

-- `for (i = n; i > 0; i--) out[i - 1] = in[i - 1]`
unfoldable pub copy_down : ℕ → ℕ → ℕ → List ℕ → List ℕ
copy_down zero dst src mem = mem
copy_down (suc i) dst src mem = copy_down i dst src (set mem (dst + i) (get_or mem (src + i) 0))

unfoldable pub kmemmove : ℕ → ℕ → ℕ → List ℕ → List ℕ
kmemmove dst src n mem =
    if dst == src || n == 0
    then mem
    else if ltb dst src
    then kmemcpy dst src n mem
    else copy_down n dst src mem

unfoldable pub fill_up : ℕ → ℕ → ℕ → ℕ → List ℕ → List ℕ
fill_up zero i dst value mem = mem
fill_up (suc rounds) i dst value mem =
    fill_up rounds (i + 1) dst value (set mem (dst + i) (u8 value))

-- `kmemset(mem + dst, value, n)`
unfoldable pub kmemset : ℕ → ℕ → ℕ → List ℕ → List ℕ
kmemset dst value n mem = fill_up n 0 dst value mem

unfoldable pub kstrlen : List ℕ → ℕ
kstrlen [] = 0
kstrlen (c ∷ str) = if c == 0 then 0 else kstrlen str + 1

abbrev pub first_char : List ℕ → ℕ
first_char [] = 0
first_char (c ∷ str) = c

abbrev pub next_chars : List ℕ → List ℕ
next_chars [] = []
next_chars (c ∷ str) = str

-- The chars are the bytes that the two casts give.
unfoldable pub kstrcmp : List ℕ → List ℕ → ℤ
kstrcmp [] rhs = sub_ℕ 0 (first_char rhs)
kstrcmp (c ∷ lhs) rhs =
    if not (c == 0) && (c == first_char rhs)
    then kstrcmp lhs (next_chars rhs)
    else sub_ℕ c (first_char rhs)

unfoldable pub kstrncmp : ℕ → List ℕ → List ℕ → ℤ
kstrncmp zero lhs rhs = pos 0
kstrncmp (suc n) lhs rhs =
    if not (first_char lhs == first_char rhs) || (first_char lhs == 0 || first_char rhs == 0)
    then sub_ℕ (first_char lhs) (first_char rhs)
    else kstrncmp n (next_chars lhs) (next_chars rhs)

-- The loop of `ku64_parse`. As signed chars the bytes from 0x80 on are below '0'; as bytes they are
-- above '9', and are refused as well.
unfoldable pub parse_from : ℕ → List ℕ → Option ℕ
parse_from out [] = some out
parse_from out (c ∷ str) =
    let rest = parse_from (u64 (out * 10 + (c - b'0'))) str in
    if c == 0 then some out else if ltb c b'0' || ltb b'9' c then none else rest

-- `none` is the result 0; `some v` is the result 1 with `v` stored through a pointer that is not
-- null. `str` is not null either.
unfoldable pub ku64_parse : List ℕ → Option ℕ
ku64_parse str = if first_char str == 0 then none else parse_from 0 str

-- The first loop of `convert_u64`. `tmp` is filled and emptied at its end alone: it is a stack.
unfoldable pub convert_digits : ℕ → ℕ → List ℕ → ℕ → List ℕ → List ℕ
convert_digits base zero digits value tmp = tmp
convert_digits base (suc room) digits value tmp = elim (value == 0) [
  | true ↦ tmp
  | false ↦ convert_digits base room digits (value / base) (get_or digits (value % base) 0 ∷ tmp)
]

-- The second loop, and the NUL.
unfoldable pub copy_out : List ℕ → ℕ → ℕ → List ℕ → List ℕ
copy_out [] out size buffer = set buffer out 0
copy_out (c ∷ tmp) out size buffer =
    let rest = copy_out tmp (out + 1) size (set buffer out c) in
    if ltb (out + 1) size then rest else set buffer out 0

-- `sizeof(tmp)` is 32.
unfoldable pub convert_u64 : List ℕ → ℕ → ℕ → ℕ → List ℕ → List ℕ
convert_u64 buffer size value base digits =
    if size == 0
    then buffer
    else if value == 0
    then (if ltb 1 size then set (set buffer 0 b'0') 1 0 else set buffer 0 0)
    else copy_out (convert_digits base 32 digits value []) 0 size buffer

abbrev pub decimal_digits : List ℕ
decimal_digits = b'0' ∷ b'1' ∷ b'2' ∷ b'3' ∷ b'4' ∷ b'5' ∷ b'6' ∷ b'7' ∷ b'8' ∷ b'9' ∷ []

abbrev pub hex_digits : List ℕ
hex_digits = decimal_digits ++ (b'A' ∷ b'B' ∷ b'C' ∷ b'D' ∷ b'E' ∷ b'F' ∷ [])

unfoldable pub ku64_to_dec : List ℕ → ℕ → ℕ → List ℕ
ku64_to_dec buffer size value = convert_u64 buffer size value 10 decimal_digits

unfoldable pub ku64_to_hex : List ℕ → ℕ → ℕ → List ℕ
ku64_to_hex buffer size value = convert_u64 buffer size value 16 hex_digits
