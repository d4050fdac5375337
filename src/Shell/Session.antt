-- ===== src/Shell/Session.antt =====
-- The outer loop of `shell_run` of shell.c: a prompt, a line, the history, the parser, the command.
pub mod Rounds
use simple_kernel.Base.{
  ℕ, Bool, true, false, Option, none, some, List, [], ◌∷◌, drop, map, replicate, str, if◌then◌else◌,
}
use simple_kernel.Boot.{MemoryMapEntry}
use simple_kernel.Cpuinfo.{Registers}
use simple_kernel.Event.{Event}
use simple_kernel.Kprint.{kprint, kprint_colored, kprint_rainbow}
use simple_kernel.Machine.{Machine, on_console, on_system}
use simple_kernel.Shell.{History, Parse, cmd_buffer_size, history_add, parse_command}
use simple_kernel.Shell.Commands.{Answers, Ran, Args}
use simple_kernel.Shell.Dispatch.{execute_command}
use simple_kernel.Shell.Editor.{Editor, read_line, prompt}
use simple_kernel.System.{qemu_exit}
use simple_kernel.Vga
use simple_kernel.Vga.{yellow, black}

-- The statics of shell.c and the kernel around them.
pub record Shell : Type 0 where
  pub cmd_buffer : List ℕ
  pub history : History
  pub machine : Machine

pub init : Machine → Machine
init m =
    on_console
      (λ c. kprint (str "Type 'help' for available commands.\n\n") (
        kprint_rainbow (str "Welcome to the kernel shell!\n") (record c { vga = Vga.clear c.vga })))
      m

-- The local variables in front of a prompt; `stack` is what the array on the stack holds.
abbrev pub editor : List ℕ → Shell → Editor
editor stack s = record {
  cmd_buffer = s.cmd_buffer;
  current_line = stack;
  pos = 0;
  history_position = 0;
  history = s.history;
  console = s.machine.console;
}

-- The shell behind a line, with the line in the history.
pub with_line : Editor → Shell → Shell
with_line e s = record {
  cmd_buffer = e.cmd_buffer;
  history = history_add e.cmd_buffer e.history;
  machine = record s.machine { console = e.console };
}

-- How a round ends: the next prompt with the events that are left, the end of the shell, the end of
-- the machine, or waiting.
pub data Round : Type 0 where
  again : Shell → List Event → Round
  exited : Shell → Round
  stopped : Machine → Round
  waiting : Round

pub exit_shell : Shell → Round
exit_shell s =
    let told = on_console (kprint_colored (str "Exiting shell.\n") yellow black) s.machine in
    Round.exited (record s { machine = on_system (qemu_exit 0x10) told })

-- What the shell makes of a command's result.
pub after_command : Shell → List Event → Bool × Ran → Round
after_command s events (true, Ran.continues m) = exit_shell (record s { machine = m })
after_command s events (false, Ran.continues m) = Round.again (record s { machine = m }) events
after_command s events (_, Ran.stops m) = Round.stopped m
after_command s events (_, Ran.waits) = Round.waiting

module _ (fuel : ℕ) (cpuid : ℕ → Registers) (config : ℕ → ℕ) (entries : ℕ → MemoryMapEntry)
    (answers : Answers) where
  -- `history_add`, the parser, which cuts the buffer into strings, and the command.
  pub run_line : Editor → List Event → Shell → Round
  run_line e events s =
      let recorded = with_line e s in
      let parse = parse_command recorded.cmd_buffer in
      let cut = record recorded { cmd_buffer = parse.buffer } in
      after_command cut events (
        execute_command fuel cpuid config entries answers (drop parse.cmd parse.buffer)
          (map (λ a. drop a parse.buffer) parse.args) cut.machine)

  -- One round of the outer loop.
  pub round : List ℕ → List Event → Shell → Round
  round stack events s = elim (read_line events (prompt (editor stack s))) [
    | none ↦ Round.waiting
    | some (e, rest) ↦ run_line e rest s
  ]
