-- ===== src/Panic.antt =====
-- panic.c: a message, the exit of the emulator, and the end.
pub mod Report
use simple_kernel.Base.{ℕ, List, str}
use simple_kernel.Kprint.{kprint, kprint_colored, kprint_hex}
use simple_kernel.Machine.{Machine, Outcome, on_console, on_system}
use simple_kernel.System.{qemu_exit, halt}
use simple_kernel.Vga.{light_red, black}

-- What both functions do behind their message.
unfoldable pub stop : ℕ → Machine → Outcome
stop code m = Outcome.halted (on_system halt (on_system (qemu_exit code) m))

unfoldable pub panic : List ℕ → Machine → Outcome
panic message m = stop 0x21 (
    on_console
      (λ c. kprint (str "\n") (kprint message (kprint_colored (str "\nPANIC: ") light_red black c)))
      m)

unfoldable pub panicf : List ℕ → ℕ → Machine → Outcome
panicf prefix value m = stop 0x21 (
    on_console
      (λ c.
        kprint (str "\n")
          (kprint_hex value (kprint prefix (kprint_colored (str "\nPANIC: ") light_red black c))))
      m)
