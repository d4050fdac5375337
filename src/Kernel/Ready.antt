-- ===== src/Kernel/Ready.antt =====
-- `kernel_main` of kernel.c up to the shell.
use simple_kernel.Base.{
  ℕ, ◌/◌, ◌≡◌, refl, arith, Bool, true, false, Option, none, some, List, [], ◌∷◌, ◌++◌, ◌==◌,
  length, append_assoc, str,
}
use simple_kernel.Boot.{BootInfo, MemoryMapEntry, boot_info_magic}
use simple_kernel.Console
use simple_kernel.Console.{Console}
use simple_kernel.Console.Output.{crlf, sent, serial_write-crlf}
use simple_kernel.Heap
use simple_kernel.Heap.Blocks.{IsBlocks}
use simple_kernel.Kernel.{boot_up, start, init_memory, enable_interrupts}
use simple_kernel.Keyboard
use simple_kernel.Keyboard.Queue.{contents, window, IsValid as IsRing}
use simple_kernel.Kstring.Compare.{text}
use simple_kernel.Machine.{Machine, Outcome, on_console}
use simple_kernel.Panic.{panic}
use simple_kernel.Panic.Report.{panic-Stops, dead}
use simple_kernel.Pmm.{max_frames}
use simple_kernel.Pmm.Init.{Fits, init-IsValid}
use simple_kernel.Pmm.Valid.{IsValid as IsAllocator}
use simple_kernel.Serial
use simple_kernel.Serial.{Serial}
use simple_kernel.System.{init_timer}
use simple_kernel.Trap

-- The boot loader has handed over its table.
unfoldable pub accepted : Option BootInfo → Bool
accepted none = false
accepted (some info) = info.magic == boot_info_magic

-- The static variables in front of `kernel_main` have their sizes.
pub record IsStatic (m : Machine) : Type 0 where
  pub bitmap : length m.heap.frames.frame_bitmap ≡ max_frames / 8
  pub frames : m.heap.frames.frame_limit ≡ max_frames
  pub queue : length m.keyboard.input_queue ≡ Keyboard.buffer_size

-- What the shell starts from.
pub record IsReady (m : Machine) : Type 0 where
  pub frames : IsAllocator m.heap.frames
  pub heap : IsBlocks m.heap 0 m.heap.head []
  pub unused : (m.heap.total_bytes ≡ 0) × (m.heap.used_bytes ≡ 0)
  pub keyboard : IsRing m.keyboard
  pub no_events : contents m.keyboard ≡ []
  pub ticks : m.system.timer_ticks ≡ 0
  pub interrupts : m.system.interrupts ≡ true

-- The writes that set up the serial line: no interrupts, the divisor 1, eight bits, and the queues.
pub line_setup : List (ℕ × ℕ)
line_setup =
    (0x3F9, 0x00)
    ∷ (0x3FB, 0x80)
    ∷ (0x3F8, 0x01)
    ∷ (0x3F9, 0x00)
    ∷ (0x3FB, 0x03)
    ∷ (0x3FA, 0xC7)
    ∷ (0x3FC, 0x0B)
    ∷ []

serial_init-outs :
    (s : Serial)
    → ((Serial.init s).outs ≡ s.outs ++ line_setup) × ((Serial.init s).initialized ≡ true)
unfolding Serial.init line_setup
serial_init-outs s = (simp append_assoc, refl)

missing-halts :
    (m : Machine)
    → (c : Console) × (panic (str "missing boot info") (on_console Console.init m)
        ≡ Outcome.halted (record m {
          console = c;
          system = record m.system {
            interrupts = false;
            outs = m.system.outs ++ ((0xF4, 0x21) ∷ []);
          };
        }))
      × (c.serial.outs
          ≡ m.console.serial.outs
            ++ (line_setup ++ sent (crlf (str "\nPANIC: missing boot info\n"))))
unfolding Console.init dead
missing-halts m =
    let (c, stops, says) = panic-Stops (str "missing boot info") (on_console Console.init m) in
    let (setup, ready) = serial_init-outs m.console.serial in
    let line : c.serial
        ≡ Serial.write (str "\nPANIC: missing boot info\n") (Serial.init m.console.serial) =
      (unfold str text in says) in
    (
      c,
      stops,
      rw
          (
            line,
            serial_write-crlf (str "\nPANIC: missing boot info\n") (Serial.init m.console.serial)
                ready,
            setup,
          )
          (append_assoc m.console.serial.outs line_setup _),
    )

module _ (gdt_addr tss_addr idt_addr info_addr : ℕ) (stub : ℕ → ℕ) (map : ℕ → MemoryMapEntry) where
  -- With the boot loader's magic number, ranges that do not wrap and static variables of their
  -- sizes, kernel_main reaches the shell with a valid frame allocator, an empty heap of no bytes,
  -- a valid keyboard without events, no ticks counted and interrupts on.
  pub boot_up-IsReady :
      (info : BootInfo) (m : Machine)
      → info.magic ≡ boot_info_magic
      → Fits info_addr info map
      → IsStatic m
      → (m' : Machine) × (boot_up gdt_addr tss_addr idt_addr info_addr stub map (some info) m
          ≡ Outcome.returned m')
        × IsReady m'
  unfolding boot_up start init_memory enable_interrupts Heap.init Keyboard.init Keyboard.reset_state
      Trap.init init_timer IsBlocks window
  boot_up-IsReady info m magic fits static =
      let good : (info.magic == boot_info_magic) ≡ true = ground arith in
      rw good (
        _,
        refl,
        record {
          frames =
              (init-IsValid info_addr info map m.heap.frames static.bitmap static.frames fits 0
                (omega arith)).0;
          heap = refl;
          unused = (refl, refl);
          keyboard = record {
            storage = static.queue;
            head_in = omega arith;
            tail_in = omega arith;
          };
          no_events = refl;
          ticks = refl;
          interrupts = refl;
        },
      )

  -- Without boot information, or with another magic number in it, kernel_main halts with
  -- interrupts off. The serial line has been set up and told that the boot information is missing,
  -- and of the other ports only the emulator's exit port has been written: the failure code. All
  -- else but the console, so the heap, the keyboard and the descriptor tables, is as it was.
  pub boot_up-halts :
      (handed : Option BootInfo) (m : Machine)
      → accepted handed ≡ false
      → (c : Console) × (boot_up gdt_addr tss_addr idt_addr info_addr stub map handed m
          ≡ Outcome.halted (record m {
            console = c;
            system = record m.system {
              interrupts = false;
              outs = m.system.outs ++ ((0xF4, 0x21) ∷ []);
            };
          }))
        × (c.serial.outs
            ≡ m.console.serial.outs
              ++ (line_setup ++ sent (crlf (str "\nPANIC: missing boot info\n"))))
  unfolding boot_up accepted
  boot_up-halts none m bad = missing-halts m
  boot_up-halts (some info) m bad = rw bad (missing-halts m)
