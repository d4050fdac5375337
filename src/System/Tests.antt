-- ===== src/System/Tests.antt =====
-- The theorem on `system_sleep_ms` at a concrete delay.
use simple_kernel.Base.{ℕ, ◌+◌, ◌≤◌, ◌≡◌, arith, false, some, List, [], ◌∷◌}
use simple_kernel.System.{System, sleep_ms}
use simple_kernel.System.Sleep.{total, sleep_ms-delay}

abbrev running : System
running = record { timer_ticks = 40; interrupts = false; outs = [] }

-- Two of the interrupts that wake the processor are the timer's.
abbrev wakes : List ℕ
wakes = 1 ∷ 0 ∷ 1 ∷ []

sleep_ms-delay_example :
    (left : List ℕ) × (s' : System) × (sleep_ms 2 wakes running ≡ some (left, s'))
    × (40 + 2 ≤ s'.timer_ticks)
sleep_ms-delay_example =
    sleep_ms-delay 2 wakes running (unfold total in omega arith) (unfold total in omega arith)
