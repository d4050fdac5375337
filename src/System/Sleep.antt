-- ===== src/System/Sleep.antt =====
-- `system_sleep_ms` of system.c.
use simple_kernel.Base.{
  ℕ, ◌+◌, ◌^◌, ◌<◌, ◌≤◌, ◌≡◌, refl, ap, ◌∙◌, arith, false, some, List, [], ◌∷◌, ltb, Bool-cases,
  inl, inr, add64,
}
use simple_kernel.System.{System, get_uptime_ms, ticks_pass, sleep_until, sleep_ms}

unfoldable pub total : List ℕ → ℕ
total [] = 0
total (n ∷ wakes) = n + total wakes

-- The loop with enough ticks to come.
sleep_until-wakes :
    (deadline : ℕ) (wakes : List ℕ) (s : System)
    → s.timer_ticks + total wakes < 2 ^ 64
    → deadline ≤ s.timer_ticks + total wakes
    → (left : List ℕ) × (s' : System) × (sleep_until deadline wakes s ≡ some (left, s'))
      × (deadline ≤ s'.timer_ticks)
      × (s'.timer_ticks + total left ≡ s.timer_ticks + total wakes)
unfolding sleep_until total get_uptime_ms
sleep_until-wakes deadline [] s small enough =
    let over : ltb s.timer_ticks deadline ≡ false = ground arith in
    ([], s, rw over refl, omega arith, refl)
sleep_until-wakes deadline (n ∷ wakes) s small enough =
    elim (Bool-cases (ltb s.timer_ticks deadline)) [
      | inl before ↦
          let sum : add64 s.timer_ticks n ≡ s.timer_ticks + n = omega arith in
          let (left, s', eq, late, same) =
            sleep_until-wakes deadline wakes (ticks_pass n s) (omega arith) (omega arith) in
          (left, s', rw before eq, late, omega arith)
      | inr after ↦ (n ∷ wakes, s, rw after refl, ground arith, refl)
    ]

-- If the ticks to come make up the delay and the count of ticks stays in 64 bits, system_sleep_ms
-- returns, and at least the delay has passed.
pub sleep_ms-delay :
    (delay : ℕ) (wakes : List ℕ) (s : System)
    → s.timer_ticks + total wakes < 2 ^ 64
    → delay ≤ total wakes
    → (left : List ℕ) × (s' : System) × (sleep_ms delay wakes s ≡ some (left, s'))
      × (s.timer_ticks + delay ≤ s'.timer_ticks)
unfolding sleep_ms get_uptime_ms
sleep_ms-delay delay wakes s small enough =
    let sum : add64 s.timer_ticks delay ≡ s.timer_ticks + delay = omega arith in
    let (left, s', eq, late, same) =
      sleep_until-wakes (s.timer_ticks + delay) wakes s small (omega arith) in
    (left, s', ap (λ d. sleep_until d wakes s) sum ∙ eq, late)

-- A delay that makes the deadline wrap round does not make it wait.
sleep_ms_wraps :
    (delay : ℕ) (wakes : List ℕ) (s : System)
    → s.timer_ticks < 2 ^ 64
    → delay < 2 ^ 64
    → 2 ^ 64 ≤ s.timer_ticks + delay
    → sleep_ms delay wakes s ≡ some (wakes, s)
unfolding sleep_ms sleep_until get_uptime_ms
sleep_ms_wraps delay [] s small lt wraps =
    let over : ltb s.timer_ticks (add64 s.timer_ticks delay) ≡ false = ground arith in rw over refl
sleep_ms_wraps delay (n ∷ wakes) s small lt wraps =
    let over : ltb s.timer_ticks (add64 s.timer_ticks delay) ≡ false = ground arith in rw over refl
