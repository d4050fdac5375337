-- ===== src/Kprint.antt =====
-- kprint.c: printing on the console.
mod Tests
pub mod Numbers
pub mod Said
use simple_kernel.Base.{ℕ, ◌+◌, List, [], ◌∷◌, ltb, ◌==◌, if◌then◌else◌, replicate, str}
use simple_kernel.Console.{Console, write_char, write, setcolor}
use simple_kernel.Kstring.{ku64_to_dec, ku64_to_hex}
use simple_kernel.Vga.{entry_color, light_grey, black}

pub kprint : List ℕ → Console → Console
kprint text c = write text c

-- The colour that two of the printers leave behind.
pub reset_color : Console → Console
reset_color c = setcolor (entry_color light_grey black) c

pub kprint_colored : List ℕ → ℕ → ℕ → Console → Console
kprint_colored text fg bg c = reset_color (write text (setcolor (entry_color fg bg) c))

-- `color_index++`, and back to 1 behind 15.
abbrev pub next_color : ℕ → ℕ
next_color index = if ltb 15 (index + 1) then 1 else index + 1

-- The loop of `kprint_rainbow`.
pub rainbow_from : ℕ → List ℕ → Console → Console
rainbow_from index [] c = c
rainbow_from index (ch ∷ text) c =
    let plain = rainbow_from index text (write_char 10 c) in
    let colored =
      rainbow_from (next_color index) text (write_char ch (setcolor (entry_color index black) c)) in
    if ch == 0 then c else if ch == 10 then plain else colored

pub kprint_rainbow : List ℕ → Console → Console
kprint_rainbow text c = reset_color (rainbow_from 1 text c)

-- What the array on the stack holds before does not matter, since the NUL behind the digits ends the
-- text.
abbrev stack_buffer : List ℕ
stack_buffer = replicate 32 0

pub kprint_u64 : ℕ → Console → Console
kprint_u64 value c = kprint (ku64_to_dec stack_buffer 32 value) c

pub kprint_hex : ℕ → Console → Console
kprint_hex value c = kprint (ku64_to_hex stack_buffer 32 value) (kprint (str "0x") c)
