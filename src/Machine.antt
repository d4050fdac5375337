-- ===== src/Machine.antt =====
-- The kernel as a whole: the states of the components side by side, and how a call into the kernel
-- ends. The other shared state, the frame allocator, is part of the heap's.
pub mod Sample
use simple_kernel.Base.{ℕ, Option, List}
use simple_kernel.Boot.{BootInfo}
use simple_kernel.Console.{Console}
use simple_kernel.Gdt.{Gdt}
use simple_kernel.Heap.{Heap}
use simple_kernel.Idt.{Idt}
use simple_kernel.Keyboard.{Keyboard}
use simple_kernel.System.{System}

pub record Machine : Type 0 where
  pub console : Console
  pub keyboard : Keyboard
  pub heap : Heap
  pub boot : Option BootInfo
  pub idt : Idt
  pub gdt : Gdt
  pub system : System

-- `halted` is a `for (;;) cpu_hlt()` with interrupts off.
pub data Outcome : Type 0 where
  returned : Machine → Outcome
  halted : Machine → Outcome

abbrev pub on_console : (Console → Console) → Machine → Machine
on_console f m = record m { console = f m.console }

abbrev pub on_system : (System → System) → Machine → Machine
on_system f m = record m { system = f m.system }
