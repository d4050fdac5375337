-- ===== src/Kernel.antt =====
-- kernel.c: the order in which the parts are set up. The arguments of the section are the addresses
-- of the static tables, those of the trap stubs and that of the boot information, and the memory map
-- that the boot information points to.
mod Tests
pub mod Ready
use simple_kernel.Base.{ℕ, Bool, true, Option, none, some, List, ◌==◌, if◌then◌else◌, str}
use simple_kernel.Boot.{BootInfo, MemoryMapEntry, boot_info_magic}
use simple_kernel.Console
use simple_kernel.Console.{Console}
use simple_kernel.Gdt
use simple_kernel.Heap
use simple_kernel.Heap.{Heap}
use simple_kernel.Keyboard
use simple_kernel.Kprint.{kprint, kprint_u64, kprint_hex}
use simple_kernel.Machine.{Machine, Outcome, on_console, on_system}
use simple_kernel.Panic.{stop, panic}
use simple_kernel.Pmm
use simple_kernel.System.{System, init_timer, qemu_exit}
use simple_kernel.Trap

abbrev pub kernel_version : List ℕ
kernel_version = str "0.2.0"

-- The lines on the console in front of the shell.
pub greet : BootInfo → Heap → Console → Console
greet info heap c =
    let a = kprint kernel_version (kprint (str "simple_kernel ") c) in
    let b = kprint_u64 info.memory_map_entries (kprint (str "\nboot_info memory entries: ") a) in
    let d = kprint_hex info.kernel_phys_start (kprint (str "\nkernel phys start: ") b) in
    let e = kprint_hex info.kernel_phys_end (kprint (str "\nkernel phys end: ") d) in
    let f = kprint_u64 heap.total_bytes (kprint (str "\nheap total bytes: ") e) in
    kprint (str "\n\n") f

-- `cpu_sti`
pub enable_interrupts : System → System
enable_interrupts s = record s { interrupts = true }

module _ (gdt_addr tss_addr idt_addr info_addr : ℕ) (stub : ℕ → ℕ)
    (entries : ℕ → MemoryMapEntry) where
  -- The two memory managers. The frame allocator is a part of the heap's state.
  pub init_memory : BootInfo → Heap → Heap
  init_memory info h = Heap.init (record h { frames = Pmm.init info_addr info entries h.frames })

  -- The calls behind the test of the boot information, up to the call of the shell.
  pub start : BootInfo → Machine → Machine
  start info m =
      let booted = record m { boot = some info; gdt = Gdt.init gdt_addr tss_addr m.gdt } in
      let trapped = Trap.init idt_addr stub booted in
      let driven = record trapped {
        keyboard = Keyboard.init trapped.keyboard;
        system = init_timer trapped.system;
      } in
      let ready = record driven { heap = init_memory info driven.heap } in
      on_system enable_interrupts (on_console (greet info ready.heap) ready)

  -- `returned` is the state in which `shell_run` is called.
  pub boot_up : Option BootInfo → Machine → Outcome
  boot_up none m = panic (str "missing boot info") (on_console Console.init m)
  boot_up (some info) m =
      if info.magic == boot_info_magic
      then Outcome.returned (start info (on_console Console.init m))
      else panic (str "missing boot info") (on_console Console.init m)

-- The code behind `shell_run`, when that returns.
pub shut_down : Machine → Outcome
shut_down m = stop 0x10 m
