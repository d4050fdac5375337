-- ===== src/System.antt =====
-- system.c: the tick counter, the timer, and the ways to stop. The state has the interrupt flag of
-- the processor too, and the writes to the ports of the timer, of the interrupt controllers and of
-- the machine's exits, oldest first.
mod Tests
pub mod Sleep
use simple_kernel.Base.{
  ℕ, ◌+◌, ◌/◌, ◌^◌, Bool, true, false, not, Option, none, some, List, [], ◌∷◌, ◌++◌, bit_and, ltb,
  ◌==◌, if◌then◌else◌, u8, u64, add64,
}

pub record System : Type 0 where
  pub timer_ticks : ℕ
  pub interrupts : Bool
  pub outs : List (ℕ × ℕ)

abbrev pub outb : ℕ → ℕ → System → System
outb port value s = record s { outs = s.outs ++ ((port, value) ∷ []) }

unfoldable pub timer_tick : System → System
timer_tick s = record s { timer_ticks = add64 s.timer_ticks 1 }

abbrev pub divisor : ℕ
divisor = 1193

unfoldable pub init_timer : System → System
init_timer s =
    let a = outb 0x43 0x36 s in
    let b = outb 0x40 (u8 (bit_and divisor 0xFF)) a in
    let c = outb 0x40 (u8 (bit_and (divisor / 2 ^ 8) 0xFF)) b in record c { timer_ticks = 0 }

unfoldable pub get_uptime_ms : System → ℕ
get_uptime_ms s = s.timer_ticks

-- `n` ticks that come while the processor halts.
abbrev pub ticks_pass : ℕ → System → System
ticks_pass n s = record s { timer_ticks = add64 s.timer_ticks n }

-- The loop of `system_sleep_ms`. Each `hlt` returns when an interrupt has come; the list says how
-- many ticks each brought. `none`: the list ends while it still sleeps.
pub sleep_until : ℕ → List ℕ → System → Option (List ℕ × System)
sleep_until deadline [] s = if ltb (get_uptime_ms s) deadline then none else some ([], s)
sleep_until deadline (n ∷ wakes) s =
    let rest = sleep_until deadline wakes (ticks_pass n s) in
    if ltb (get_uptime_ms s) deadline then rest else some (n ∷ wakes, s)

unfoldable pub sleep_ms : ℕ → List ℕ → System → Option (List ℕ × System)
sleep_ms delay_ms wakes s = sleep_until (add64 (get_uptime_ms s) delay_ms) wakes s

unfoldable pub qemu_exit : ℕ → System → System
qemu_exit code s = outb 0xF4 (u8 code) s

-- The state in which the processor halts for good.
unfoldable pub halt : System → System
halt s = record s { interrupts = false }

-- The loop of `system_reboot` reads the keyboard controller's status up to one with bit 1 clear; the
-- list has the statuses that it answers. The bytes that it drains on the way are dropped. `none`:
-- the list ends first.
pub drain : List ℕ → Option (List ℕ)
drain [] = none
drain (status ∷ answers) =
    let more = drain answers in if not (bit_and status 0x02 == 0) then more else some answers

unfoldable pub reboot : List ℕ → System → Option System
reboot answers s = elim (drain answers) [ none ↦ none | some _ ↦ some (outb 0x64 0xFE (halt s)) ]
