-- ===== src/Kernel/Tests.antt =====
-- The theorems on kernel.c at the boot information of a small machine.
use simple_kernel.Base.{
  ℕ, ◌≡◌, refl, arith, false, none, some, ◌∷◌, [], ◌++◌, length-replicate, str,
}
use simple_kernel.Boot.{BootInfo, MemoryMapEntry, boot_info_magic}
use simple_kernel.Console.{Console}
use simple_kernel.Console.Output.{crlf, sent}
use simple_kernel.Event.{event_char}
use simple_kernel.Kernel.{boot_up}
use simple_kernel.Kernel.Ready.{
  IsStatic, IsReady, accepted, line_setup, boot_up-IsReady, boot_up-halts,
}
use simple_kernel.Keyboard.{buffer_size}
use simple_kernel.Machine.{Machine, Outcome}
use simple_kernel.Machine.Sample.{loaded}
use simple_kernel.Pmm.Init.{Fits}

-- One usable entry of 16 MiB behind the first, and the kernel in it.
abbrev map_entry : ℕ → MemoryMapEntry
map_entry j = record { base = 0x100000; length = 0x1000000; type = 1; acpi = 0 }

abbrev boot_info : BootInfo
boot_info = record {
  magic = boot_info_magic;
  version = 1;
  memory_map_entries = 1;
  reserved0 = 0;
  memory_map_addr = 0x8000;
  kernel_phys_start = 0x100000;
  kernel_phys_end = 0x140000;
  kernel_virt_start = 0;
  pml4_addr = 0x1000;
}

boot_info-Fits : Fits 0x7000 boot_info map_entry
boot_info-Fits = record {
  map_entries = λ j lt ram. omega arith;
  kernel_start = omega arith;
  kernel_end = omega arith;
  info_end = omega arith;
  map_end = omega arith;
}

loaded-IsStatic : IsStatic loaded
loaded-IsStatic = record {
  bitmap = length-replicate {A = ℕ} 32768 0;
  frames = refl;
  queue = length-replicate buffer_size (event_char 0);
}

boot_up-IsReady_example :
    (m' : Machine) × (boot_up 0x102000 0x103000 0x104000 0x7000
        (λ v. 0x105000)
        map_entry
        (some boot_info)
        loaded
      ≡ Outcome.returned m')
    × IsReady m'
boot_up-IsReady_example =
    boot_up-IsReady 0x102000 0x103000 0x104000 0x7000 (λ v. 0x105000) map_entry boot_info loaded
      refl boot_info-Fits loaded-IsStatic

boot_up-halts_example :
    (c : Console) × (boot_up 0x102000 0x103000 0x104000 0x7000 (λ v. 0x105000) map_entry none loaded
      ≡ Outcome.halted (record loaded {
        console = c;
        system = record loaded.system {
          interrupts = false;
          outs = loaded.system.outs ++ ((0xF4, 0x21) ∷ []);
        };
      }))
    × (c.serial.outs
        ≡ loaded.console.serial.outs
          ++ (line_setup ++ sent (crlf (str "\nPANIC: missing boot info\n"))))
boot_up-halts_example =
    boot_up-halts 0x102000 0x103000 0x104000 0x7000 (λ v. 0x105000) map_entry none loaded
      (unfold accepted in refl)
