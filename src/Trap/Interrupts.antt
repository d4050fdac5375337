-- ===== src/Trap/Interrupts.antt =====
-- `trap_dispatch` of trap.c on each kind of vector.
use simple_kernel.Base.{
  ℕ, ◌+◌, ◌^◌, ◌%◌, ◌<◌, ◌≡◌, refl, sym, ap, ◌∙◌, arith, List, [], ◌∷◌, ◌++◌, length, replicate,
  append_assoc, append_nil, ap₂,
}
use simple_kernel.Keyboard.{Keyboard, process_scancode}
use simple_kernel.Machine.{Machine, Outcome}
use simple_kernel.System.{timer_tick}
use simple_kernel.Trap.{TrapFrame, dispatch, keyboard_handler, pic_send_eoi}

-- The interrupts that the controllers let through, and the vectors that they arrive at.
pub data Interrupt : Type 0 where
  timer : Interrupt
  keyboard : ℕ → Interrupt
  spurious : Interrupt

pub vector_of : Interrupt → ℕ
vector_of timer = 32
vector_of (keyboard scancode) = 33
vector_of spurious = 39

-- The byte at the keyboard's port.
pub port_byte : Interrupt → ℕ
port_byte (keyboard scancode) = scancode
port_byte _ = 0

-- What a run of interrupts means for the ticks and for the keyboard.
pub timer_count : List Interrupt → ℕ
timer_count [] = 0
timer_count (timer ∷ irqs) = 1 + timer_count irqs
timer_count (keyboard scancode ∷ irqs) = timer_count irqs
timer_count (spurious ∷ irqs) = timer_count irqs

pub typed : List Interrupt → Keyboard → Keyboard
typed [] k = k
typed (timer ∷ irqs) k = typed irqs k
typed (keyboard scancode ∷ irqs) k = typed irqs (process_scancode scancode k)
typed (spurious ∷ irqs) k = typed irqs k

-- The dispatches of a run, one after the other; it ends where one does not return.
pub dispatch_all : (Interrupt → TrapFrame) → List Interrupt → Machine → Outcome
dispatch_all frame [] m = Outcome.returned m
dispatch_all frame (irq ∷ irqs) m = elim (dispatch (frame irq) (port_byte irq) 0 m) [
  | Outcome.returned m' ↦ dispatch_all frame irqs m'
  | Outcome.halted m' ↦ Outcome.halted m'
]

-- One acknowledgement, to the first controller.
abbrev pub ack : ℕ × ℕ
ack = (0x20, 0x20)

-- What serving a run of interrupts makes of the machine.
pub served : List Interrupt → Machine → Machine
served irqs m = record m {
  keyboard = typed irqs m.keyboard;
  system = record m.system {
    timer_ticks = (m.system.timer_ticks + timer_count irqs) % 2 ^ 64;
    outs = m.system.outs ++ replicate (length irqs) ack;
  };
}

abbrev with_system : Machine → Keyboard → ℕ → List (ℕ × ℕ) → Machine
with_system m k ticks outs = record m {
  keyboard = k;
  system = record m.system { timer_ticks = ticks; outs = outs };
}

with_system-eq :
    (m : Machine) (k : Keyboard) {t t' : ℕ} {o o' : List (ℕ × ℕ)}
    → t ≡ t'
    → o ≡ o'
    → with_system m k t o ≡ with_system m k t' o'
with_system-eq m k p q = ap₂ (λ t o. with_system m k t o) p q

-- What one dispatch makes of it.
abbrev serve : Interrupt → Machine → Machine
serve irq m =
    with_system m (typed (irq ∷ []) m.keyboard)
      ((m.system.timer_ticks + timer_count (irq ∷ [])) % 2 ^ 64) (m.system.outs ++ (ack ∷ []))

dispatch-serve :
    (f : TrapFrame) (irq : Interrupt) (m : Machine)
    → f.vector ≡ vector_of irq
    → m.system.timer_ticks < 2 ^ 64
    → dispatch f (port_byte irq) 0 m ≡ Outcome.returned (serve irq m)
unfolding dispatch vector_of pic_send_eoi timer_tick keyboard_handler typed timer_count port_byte
dispatch-serve f timer m at small =
    rw at (ap Outcome.returned (with_system-eq m m.keyboard (omega arith) refl))
dispatch-serve f (keyboard scancode) m at small = rw at (
    ap Outcome.returned
      (with_system-eq m (process_scancode scancode m.keyboard) (omega arith) refl))
dispatch-serve f spurious m at small =
    rw at (ap Outcome.returned (with_system-eq m m.keyboard (omega arith) refl))

typed-cons :
    (irq : Interrupt) (irqs : List Interrupt) (k : Keyboard)
    → typed irqs (typed (irq ∷ []) k) ≡ typed (irq ∷ irqs) k
unfolding typed
typed-cons timer irqs k = refl
typed-cons (keyboard scancode) irqs k = refl
typed-cons spurious irqs k = refl

timer_count-cons :
    (irq : Interrupt) (irqs : List Interrupt)
    → timer_count (irq ∷ irqs) ≡ timer_count (irq ∷ []) + timer_count irqs
unfolding timer_count
timer_count-cons timer irqs = omega arith
timer_count-cons (keyboard scancode) irqs = omega arith
timer_count-cons spurious irqs = omega arith

served-serve :
    (irq : Interrupt) (irqs : List Interrupt) (m : Machine)
    → served irqs (serve irq m) ≡ served (irq ∷ irqs) m
unfolding served
served-serve irq irqs m = rw (typed-cons irq irqs m.keyboard) (
    with_system-eq m (typed (irq ∷ irqs) m.keyboard) (omega (arith, timer_count-cons irq irqs))
      (append_assoc m.system.outs (ack ∷ []) (replicate (length irqs) ack)))

-- From a 64-bit count of ticks, with frames that carry the right vectors, a run of timer, keyboard
-- and spurious interrupts is dispatched to its end: the ticks count the timer's modulo 2^64, the
-- keyboard has processed the scancodes in order, each interrupt is acknowledged once at the first
-- controller, and nothing else of the machine has changed.
pub dispatch_all-served :
    (frame : Interrupt → TrapFrame) (irqs : List Interrupt) (m : Machine)
    → ((irq : Interrupt) → (frame irq).vector ≡ vector_of irq)
    → m.system.timer_ticks < 2 ^ 64
    → dispatch_all frame irqs m ≡ Outcome.returned (served irqs m)
unfolding dispatch_all
dispatch_all-served frame [] m at small = ap Outcome.returned (
    unfold served typed timer_count in
    with_system-eq m m.keyboard (omega arith) (sym (append_nil m.system.outs)))
dispatch_all-served frame (irq ∷ irqs) m at small =
    rw (dispatch-serve (frame irq) irq m (at irq) small, dispatch_all)
      (dispatch_all-served frame irqs (serve irq m) at (omega arith)
        ∙ ap Outcome.returned (served-serve irq irqs m))
