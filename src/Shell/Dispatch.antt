-- ===== src/Shell/Dispatch.antt =====
-- The table of commands of shell.c and what runs one.
pub mod Lookup
pub mod Table
use Prim.Native.String.{String}
use simple_kernel.Base.{
  ℕ, Bool, true, false, Option, none, some, List, [], ◌∷◌, ◌==◌, if◌then◌else◌, get_or, str,
}
use simple_kernel.Boot.{MemoryMapEntry}
use simple_kernel.Console.{Console}
use simple_kernel.Cpuinfo.{Registers}
use simple_kernel.Kprint.{kprint, kprint_colored}
use simple_kernel.Machine.{Machine, on_console, on_system}
use simple_kernel.Panic.{panic}
use simple_kernel.Shell.Commands.{
  Answers, Ran, Args, shows, say, outcome, equals, cmd_help, cmd_clear, cmd_echo, cmd_color,
  cmd_rainbow, cmd_version, cmd_uptime, cmd_sleep,
}
use simple_kernel.Shell.Info.{
  cmd_time, cmd_cpuinfo, cmd_pci, cmd_meminfo, cmd_heapinfo, cmd_allocdemo, cmd_mmap,
}
use simple_kernel.System.{reboot, halt}
use simple_kernel.Vga.{yellow, black, red}

pub cmd_panic : Args → Machine → Ran
cmd_panic args m = outcome (panic (str "panic command invoked") m)

pub cmd_reboot : Answers → Args → Machine → Ran
cmd_reboot answers args m =
    let told = on_console (kprint_colored (str "Rebooting system...\n") yellow black) m in
    elim (reboot answers.controller told.system) [
      | none ↦ Ran.waits
      | some system ↦ Ran.stops (record told { system = system })
    ]

pub cmd_halt : Args → Machine → Ran
cmd_halt args m =
    Ran.stops (on_system halt (on_console (kprint_colored (str "System halted.\n") red black) m))

abbrev pub Command : Type 0
Command = Args → Machine → Ran

-- The first command of that name.
pub find_command : List ℕ → List (String × Command) → Option Command
find_command cmd [] = none
find_command cmd ((name, run) ∷ commands) =
    if equals cmd name then some run else find_command cmd commands

pub unknown_command : List ℕ → Machine → Ran
unknown_command cmd m = shows (λ c. say "\n" (kprint cmd (say "Unknown command: " c))) m

module _ (fuel : ℕ) (cpuid : ℕ → Registers) (config : ℕ → ℕ) (entries : ℕ → MemoryMapEntry)
    (answers : Answers) where
  unfoldable pub commands : List (String × Command)
  commands =
      ("help", cmd_help)
      ∷ ("clear", cmd_clear)
      ∷ ("echo", cmd_echo)
      ∷ ("color", cmd_color)
      ∷ ("rainbow", cmd_rainbow)
      ∷ ("version", cmd_version)
      ∷ ("uptime", cmd_uptime)
      ∷ ("sleep", cmd_sleep answers)
      ∷ ("time", cmd_time fuel answers)
      ∷ ("cpuinfo", cmd_cpuinfo cpuid)
      ∷ ("pci", cmd_pci config)
      ∷ ("meminfo", cmd_meminfo)
      ∷ ("heapinfo", cmd_heapinfo)
      ∷ ("allocdemo", cmd_allocdemo fuel)
      ∷ ("mmap", cmd_mmap entries)
      ∷ ("panic", cmd_panic)
      ∷ ("reboot", cmd_reboot answers)
      ∷ ("halt", cmd_halt)
      ∷ []

  -- The result says whether the shell is to end.
  pub execute_command : List ℕ → Args → Machine → Bool × Ran
  execute_command cmd args m =
      if get_or cmd 0 0 == 0
      then (false, Ran.continues m)
      else if equals cmd "exit"
      then (true, Ran.continues m)
      else elim (find_command cmd commands) [
        | some run ↦ (false, run args m)
        | none ↦ (false, unknown_command cmd m)
      ]
