-- ===== src/Shell.antt =====
-- shell.c: the history of command lines and the parser of a line. A line is an array of
-- `cmd_buffer_size` bytes, a pointer into it an index.
mod Tests
pub mod Compare
pub mod Commands
pub mod Info
pub mod Dispatch
pub mod Editor
pub mod Parsing
pub mod Strings
pub mod Recall
pub mod Session
pub mod Words
use simple_kernel.Base.{
  ℕ, zero, suc, ◌+◌, ◌-◌, ◌%◌, Bool, true, false, ◌&&◌, ◌||◌, not, Option, none, some, List, [],
  ◌∷◌, ◌++◌, ltb, ◌==◌, if◌then◌else◌, length, get_or, set, drop,
}
use simple_kernel.Kstring.{kstrcmp, kmemcpy_between}
use simple_kernel.Shell.Compare.{is_zero}

abbrev pub cmd_buffer_size : ℕ
cmd_buffer_size = 256

abbrev pub max_args : ℕ
max_args = 16

abbrev pub history_size : ℕ
history_size = 32

pub record History : Type 0 where
  pub lines : List (List ℕ)
  pub head : ℕ
  pub count : ℕ

pub oldest_index : History → ℕ
oldest_index h = (h.head + history_size - h.count) % history_size

pub history_get : ℕ → History → List ℕ
history_get position h = get_or h.lines ((oldest_index h + position) % history_size) []

-- The copy of a line that the ring keeps, over the row's old bytes.
pub stored : List ℕ → List ℕ → List ℕ
stored line row = set (kmemcpy_between 0 0 cmd_buffer_size line row) (cmd_buffer_size - 1) 0

-- The code behind the two early returns.
pub history_push : List ℕ → History → History
history_push line h = record {
  lines = set h.lines h.head (stored line (get_or h.lines h.head []));
  head = (h.head + 1) % history_size;
  count = if ltb h.count history_size then h.count + 1 else h.count;
}

pub history_add : List ℕ → History → History
history_add line h =
    if get_or line 0 0 == 0
    then h
    else if ltb 0 h.count && is_zero (kstrcmp (history_get (h.count - 1) h) line)
    then h
    else history_push line h

-- `while (*input == ' ') input++` and `while (*input != '\0' && *input != ' ') input++`, with the
-- rounds that are left; past the array there is a NUL.
pub skip_spaces : ℕ → List ℕ → ℕ → ℕ
skip_spaces zero buffer input = input
skip_spaces (suc rounds) buffer input =
    let rest = skip_spaces rounds buffer (input + 1) in
    if get_or buffer input 0 == 32 then rest else input

pub skip_word : ℕ → List ℕ → ℕ → ℕ
skip_word zero buffer input = input
skip_word (suc rounds) buffer input =
    let rest = skip_word rounds buffer (input + 1) in
    if not (get_or buffer input 0 == 0) && not (get_or buffer input 0 == 32) then rest else input

pub record Parse : Type 0 where
  pub buffer : List ℕ
  pub cmd : ℕ
  pub args : List ℕ

-- `if (*input != '\0') *input++ = '\0'`, as the array and the pointer behind it.
pub end_word : List ℕ → ℕ → List ℕ × ℕ
end_word buffer input =
    if not (get_or buffer input 0 == 0) then (set buffer input 0, input + 1) else (buffer, input)

-- The last loop; `args` are the entries that are filled, so `argc` is its length.
pub parse_args : ℕ → List ℕ → ℕ → List ℕ → List ℕ × List ℕ
parse_args zero buffer input args = (buffer, args)
parse_args (suc rounds) buffer input args =
    let size = length buffer in
    let start = skip_spaces size buffer input in
    let after = end_word buffer (skip_word size buffer start) in
    let rest = parse_args rounds after.0 after.1 (args ++ (start ∷ [])) in
    if not (get_or buffer input 0 == 0) && ltb (length args) max_args
    then (if get_or buffer start 0 == 0 then (buffer, args) else rest)
    else (buffer, args)

-- The array afterwards, with the command and the arguments as indices. Every round of the last loop
-- but the one that leaves it fills an entry of `args`.
pub parse_command : List ℕ → Parse
parse_command buffer =
    let size = length buffer in
    let cmd = skip_spaces size buffer 0 in
    let after = end_word buffer (skip_word size buffer cmd) in
    let rest = parse_args (max_args + 1) after.0 after.1 [] in
    record { buffer = rest.0; cmd = cmd; args = rest.1 }
