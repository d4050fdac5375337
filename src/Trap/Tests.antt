-- ===== src/Trap/Tests.antt =====
-- The theorems on trap.c at concrete vectors.
use simple_kernel.Base.{ℕ, ◌≡◌, refl, arith, List, [], ◌∷◌}
use simple_kernel.Machine.{Outcome}
use simple_kernel.Machine.Sample.{loaded}
use simple_kernel.Trap.{TrapFrame}
use simple_kernel.Trap.Interrupts.{Interrupt, vector_of, dispatch_all, served, dispatch_all-served}

abbrev frame_at : ℕ → TrapFrame
frame_at v = record {
  r15 = 0;
  r14 = 0;
  r13 = 0;
  r12 = 0;
  r11 = 0;
  r10 = 0;
  r9 = 0;
  r8 = 0;
  rbp = 0;
  rdi = 0;
  rsi = 0;
  rdx = 0;
  rcx = 0;
  rbx = 0;
  rax = 0;
  vector = v;
  error_code = 0;
  rip = 0x100000;
  cs = 8;
  rflags = 0x202;
}

-- A tick, the key `a`, and another tick.
abbrev irqs : List Interrupt
irqs = Interrupt.timer ∷ Interrupt.keyboard 0x1E ∷ Interrupt.timer ∷ []

dispatch_all-served_example :
    dispatch_all (λ irq. frame_at (vector_of irq)) irqs loaded
    ≡ Outcome.returned (served irqs loaded)
dispatch_all-served_example =
    dispatch_all-served (λ irq. frame_at (vector_of irq)) irqs loaded (λ irq. refl) (omega arith)
