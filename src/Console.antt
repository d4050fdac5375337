-- ===== src/Console.antt =====
-- console.c: the terminal and the serial line as one output. A string is read up to its first NUL,
-- or to the end of the list.
pub mod Output
use simple_kernel.Base.{ℕ, List, [], ◌∷◌, ◌==◌, if◌then◌else◌}
use simple_kernel.Serial
use simple_kernel.Serial.{Serial}
use simple_kernel.Vga
use simple_kernel.Vga.{Vga}

pub record Console : Type 0 where
  pub vga : Vga
  pub serial : Serial

unfoldable pub init : Console → Console
init c = record { vga = Vga.initialize c.vga; serial = Serial.init c.serial }

unfoldable pub write_char : ℕ → Console → Console
write_char ch c = record { vga = Vga.putchar ch c.vga; serial = Serial.write_char ch c.serial }

unfoldable pub write : List ℕ → Console → Console
write [] c = c
write (ch ∷ text) c = if ch == 0 then c else write text (write_char ch c)

unfoldable pub setcolor : ℕ → Console → Console
setcolor color c = record c { vga = Vga.setcolor color c.vga }
