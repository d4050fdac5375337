-- ===== src/Shell/Commands.antt =====
-- The commands of shell.c that print, and what all commands share. An argument is the string from
-- its pointer on; `Answers` is what the hardware answers while one command runs.
use Prim.Native.String.{String}
use simple_kernel.Base.{ℕ, Bool, Option, none, some, List, [], ◌∷◌, if◌then◌else◌, str}
use simple_kernel.Console.{Console, setcolor}
use simple_kernel.Kernel.{kernel_version}
use simple_kernel.Kprint.{kprint, kprint_rainbow, kprint_u64}
use simple_kernel.Kstring.{kstrcmp, ku64_parse}
use simple_kernel.Machine.{Machine, Outcome, on_console}
use simple_kernel.Shell.Compare.{is_zero}
use simple_kernel.System.{get_uptime_ms, sleep_ms}
use simple_kernel.Vga
use simple_kernel.Vga.{
  entry_color, black, light_red, light_green, light_blue, yellow, light_cyan, light_magenta, white,
}

pub record Answers : Type 0 where
  pub clock : List ℕ
  pub wakes : List ℕ
  pub controller : List ℕ

-- `waits`: the answers, or the fuel, end first.
pub data Ran : Type 0 where
  continues : Machine → Ran
  stops : Machine → Ran
  waits : Ran

abbrev pub Args : Type 0
Args = List (List ℕ)

abbrev pub shows : (Console → Console) → Machine → Ran
shows f m = Ran.continues (on_console f m)

abbrev pub say : String → Console → Console
say text c = kprint (str text) c

abbrev pub outcome : Outcome → Ran
outcome (Outcome.returned m) = Ran.continues m
outcome (Outcome.halted m) = Ran.stops m

-- `kstrcmp(text, name) == 0`
unfoldable pub equals : List ℕ → String → Bool
equals text name = is_zero (kstrcmp text (str name))

pub help_text : Console → Console
help_text c =
    let a = say "  echo     - Print text\n" (
      say "  clear    - Clear the screen\n"
        (say "  help     - Show this help message\n" (say "Available commands:\n" c))) in
    let b = say "  uptime   - Show system uptime\n" (
      say "  version  - Show kernel version\n"
        (say "  rainbow  - Rainbow text demo\n" (say "  color    - Change text color\n" a))) in
    let d = say "  pci      - Enumerate PCI devices\n" (
      say "  cpuinfo  - Show CPU identification\n"
        (say "  time     - Read RTC time\n" (say "  sleep    - Sleep for N milliseconds\n" b))) in
    let e = say "  mmap     - Show BIOS memory map\n" (
      say "  allocdemo- Allocate/free a heap block\n"
        (say "  heapinfo - Show heap statistics\n" (say "  meminfo  - Show PMM statistics\n" d))) in
    say "  exit     - Exit QEMU successfully\n" (
      say "  halt     - Halt the system\n" (
        say "  reboot   - Reboot the system\n"
          (say "  panic    - Trigger a panic for testing\n" e)))

pub cmd_help : Args → Machine → Ran
cmd_help args m = shows help_text m

pub cmd_clear : Args → Machine → Ran
cmd_clear args m = shows (λ c. record c { vga = Vga.clear c.vga }) m

-- The loop that `echo` and `rainbow` have: the arguments with a blank between two.
pub each_arg : (List ℕ → Console → Console) → Args → Console → Console
each_arg print [] c = c
each_arg print (a ∷ []) c = print a c
each_arg print (a ∷ b ∷ args) c = each_arg print (b ∷ args) (print (str " ") (print a c))

pub cmd_echo : Args → Machine → Ran
cmd_echo args m = shows (λ c. say "\n" (each_arg kprint args c)) m

-- `none`: not a name of a color.
pub color_of : List ℕ → Option ℕ
color_of name =
    if equals name "red"
    then some light_red
    else if equals name "green"
    then some light_green
    else if equals name "blue"
    then some light_blue
    else if equals name "yellow"
    then some yellow
    else if equals name "cyan"
    then some light_cyan
    else if equals name "magenta"
    then some light_magenta
    else if equals name "white"
    then some white
    else none

pub cmd_color : Args → Machine → Ran
cmd_color [] m = shows (say "Usage: color <name>\n") m
cmd_color (name ∷ args) m = elim (color_of name) [
  | none ↦ shows (say "Unknown color\n") m
  | some color ↦ shows (λ c. say "Color changed!\n" (setcolor (entry_color color black) c)) m
]

pub cmd_rainbow : Args → Machine → Ran
cmd_rainbow [] m = shows (kprint_rainbow (str "Rainbow text demo!\n")) m
cmd_rainbow (a ∷ args) m =
    shows (λ c. kprint_rainbow (str "\n") (each_arg kprint_rainbow (a ∷ args) c)) m

pub cmd_version : Args → Machine → Ran
cmd_version args m =
    shows (λ c. say "\nArchitecture: x86_64\n" (kprint kernel_version (say "Kernel version: " c))) m

pub cmd_uptime : Args → Machine → Ran
cmd_uptime args m =
    shows (λ c. say "\n" (kprint_u64 (get_uptime_ms m.system) (say "Uptime (ms): " c))) m

-- `argc > 0 && !ku64_parse(args[0], &value)`, as the value afterwards.
pub number_arg : ℕ → Args → Option ℕ
number_arg default [] = some default
number_arg default (a ∷ args) = ku64_parse a

pub cmd_sleep : Answers → Args → Machine → Ran
cmd_sleep answers args m = elim (number_arg 100 args) [
  | none ↦ shows (say "Usage: sleep [ms]\n") m
  | some delay_ms ↦ elim (sleep_ms delay_ms answers.wakes m.system) [
    | none ↦ Ran.waits
    | some (_, system) ↦
        shows (λ c. say "Awake\n" (say " ms...\n" (kprint_u64 delay_ms (say "Sleeping for " c))))
          (record m { system = system })
  ]
]
