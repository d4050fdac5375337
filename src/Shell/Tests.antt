-- ===== src/Shell/Tests.antt =====
-- The theorems on shell.c at a concrete history.
use simple_kernel.Base.{
  ℕ, ◌+◌, ◌-◌, ◌<◌, ◌≡◌, refl, ap, ◌∙◌, arith, inl, inr, false, some, List, [], ◌∷◌, ◌++◌, map,
  take, drop, str, ltb, ◌==◌, if◌then◌else◌, length, length-set, length-replicate, get_or,
  get_or-replicate, replicate,
}
use simple_kernel.Boot.{MemoryMapEntry}
use simple_kernel.Cpuinfo.{Registers}
use simple_kernel.Event.{Event, up, event_char, event_special}
use simple_kernel.Kstring.Compare.{text}
use simple_kernel.Machine.{on_console}
use simple_kernel.Machine.Sample.{loaded}
use simple_kernel.Shell.{
  History, cmd_buffer_size, history_size, history_get, stored, history_push, history_add, max_args,
  parse_command,
}
use simple_kernel.Shell.Commands.{Answers, Args, cmd_version}
use simple_kernel.Shell.Dispatch.{commands, execute_command}
use simple_kernel.Shell.Dispatch.Table.{Has}
use simple_kernel.Shell.Dispatch.Lookup.{Dispatched, execute_command-Dispatched}
use simple_kernel.Shell.Editor.{Editor, read_line, prompt}
use simple_kernel.Shell.Editor.Bounds.{IsValid as IsEditor}
use simple_kernel.Shell.Editor.Lines.{behind_newline, is_newline, read_line-IsValid}
use simple_kernel.Shell.Editor.Recalling.{fitting, read_line-history_get}
use simple_kernel.Shell.Editor.Typing.{typed, edit, one_line, read_line-typed}
use simple_kernel.Shell.Parsing.{first_word, parse_command-words}
use simple_kernel.Shell.Recall.{IsValid, history_push-get, history_add-newest}
use simple_kernel.Shell.Session.{Shell, editor, after_command, round}
use simple_kernel.Shell.Session.Rounds.{IsValid as IsShell, OnRound, round-runs, round-IsValid}
use simple_kernel.Shell.Strings.{string_at}
use simple_kernel.Shell.Words.{words, split, flush}

abbrev blank_line : List ℕ
blank_line = replicate cmd_buffer_size 0

-- A ring that is full, with its oldest line in row 5.
abbrev full_ring : History
full_ring = record { lines = replicate history_size blank_line; head = 5; count = 32 }

full_ring-IsValid : IsValid full_ring
full_ring-IsValid = record {
  rows = length-replicate history_size blank_line;
  head_lt = omega arith;
  count_le = omega arith;
  row_sized = λ i lt.
      ap length (get_or-replicate history_size i blank_line [] lt)
      ∙ length-replicate {A = ℕ} cmd_buffer_size 0;
}

abbrev pci_line : List ℕ
pci_line = b'p' ∷ b'c' ∷ b'i' ∷ replicate 253 0

history_push-get_example : history_get 3 (history_push pci_line full_ring) ≡ (
    if 3 + 1 == (history_push pci_line full_ring).count
    then stored pci_line (get_or full_ring.lines 5 [])
    else history_get (if ltb 32 history_size then 3 else 3 + 1) full_ring)
history_push-get_example =
    history_push-get pci_line full_ring 3 full_ring-IsValid (unfold history_push in omega arith)

history_add-newest_example :
    (0 < (history_add pci_line full_ring).count)
    × (text (
          history_get ((history_add pci_line full_ring).count - 1) (history_add pci_line full_ring))
        ≡ text pci_line)
history_add-newest_example =
    history_add-newest pci_line full_ring full_ring-IsValid
      (omega (arith, length-replicate {A = ℕ} 253 0)) refl (omega arith)

-- `echo` with two words, and blanks between them.
abbrev echo_line : List ℕ
echo_line = str " echo  a bc" ++ replicate 245 0

parse_command-words_example :
    (string_at (parse_command echo_line).buffer (parse_command echo_line).cmd
      ≡ first_word (words (text echo_line)))
    × (map (string_at (parse_command echo_line).buffer) (parse_command echo_line).args
        ≡ take max_args (drop 1 (words (text echo_line))))
parse_command-words_example = parse_command-words echo_line

-- A shell with the full ring.
abbrev in_use : Shell
in_use = record { cmd_buffer = blank_line; history = full_ring; machine = loaded }

in_use-IsShell : IsShell in_use
in_use-IsShell = record {
  line = length-replicate {A = ℕ} cmd_buffer_size 0;
  ended = refl;
  past = full_ring-IsValid;
}

-- The last line comes back, loses a byte, and is taken.
abbrev keys : List Event
keys = event_special up ∷ event_char 8 ∷ event_char 10 ∷ event_char b'x' ∷ []

in_use-IsEditor : IsEditor (prompt (editor blank_line in_use))
unfolding prompt
in_use-IsEditor = record {
  line = length-replicate {A = ℕ} cmd_buffer_size 0;
  saved = length-set blank_line 0 0 ∙ length-replicate {A = ℕ} cmd_buffer_size 0;
  pos_lt = omega arith;
  ended = refl;
  past = full_ring-IsValid;
  position = omega arith;
}

read_line-IsValid_example :
    (d : Editor) × (read_line keys (prompt (editor blank_line in_use))
      ≡ some (d, event_char b'x' ∷ []))
    × IsEditor d
read_line-IsValid_example =
    read_line-IsValid keys (prompt (editor blank_line in_use)) (event_char b'x' ∷ [])
      in_use-IsEditor (unfold behind_newline is_newline in refl)

read_line-typed_example :
    (d : Editor) × (read_line
        (map event_char (b'o' ∷ 8 ∷ b'k' ∷ []) ++ (event_char 10 ∷ []))
        (prompt (editor blank_line in_use))
      ≡ some (d, []))
    × (text d.cmd_buffer ≡ text (typed (b'o' ∷ 8 ∷ b'k' ∷ []) []))
read_line-typed_example =
    read_line-typed (b'o' ∷ 8 ∷ b'k' ∷ []) [] (editor blank_line in_use)
      (length-replicate {A = ℕ} cmd_buffer_size 0) (unfold one_line in refl)

read_line-history_get_example :
    (d : Editor) × (read_line
        (replicate 2 (event_special up) ++ (event_char 10 ∷ []))
        (prompt (editor blank_line in_use))
      ≡ some (d, []))
    × (text d.cmd_buffer ≡ fitting (history_get (32 - 2) full_ring))
read_line-history_get_example =
    read_line-history_get 2 [] (editor blank_line in_use)
      (length-replicate {A = ℕ} cmd_buffer_size 0) (omega arith) (omega arith)

-- What the commands ask of the machine.
abbrev cpuid : ℕ → Registers
cpuid leaf = record { eax = 0; ebx = 0; ecx = 0; edx = 0 }

abbrev map_entry : ℕ → MemoryMapEntry
map_entry j = record { base = 0x100000; length = 0x1000000; type = 1; acpi = 0 }

abbrev no_answers : Answers
no_answers = record { clock = []; wakes = []; controller = [] }

execute_command-Dispatched_example :
    Dispatched 9 cpuid
      (λ a. 0)
      map_entry
      no_answers
      (str "ls")
      []
      loaded
      (execute_command 9 cpuid (λ a. 0) map_entry no_answers (str "ls") [] loaded)
execute_command-Dispatched_example =
    execute_command-Dispatched 9 cpuid (λ a. 0) map_entry no_answers (str "ls") [] loaded

round-IsValid_example :
    OnRound
      (event_char b'x' ∷ [])
      (round 9 cpuid (λ a. 0) map_entry no_answers blank_line keys in_use)
round-IsValid_example =
    round-IsValid 9 cpuid (λ a. 0) map_entry no_answers blank_line keys (event_char b'x' ∷ [])
      in_use (length-replicate {A = ℕ} cmd_buffer_size 0) in_use-IsShell
      (unfold behind_newline is_newline in refl)

version-Has : Has "version" cmd_version (commands 9 cpuid (λ a. 0) map_entry no_answers)
unfolding Has commands
version-Has = inr (inr (inr (inr (inr (inl (refl, refl))))))

version_first : first_word (words (text (typed (str "version now") []))) ≡ text (str "version")
unfolding words split flush text typed edit str
version_first = refl

round-runs_example :
    (s' : Shell) × (args : Args) × (round 9 cpuid
        (λ a. 0)
        map_entry
        no_answers
        blank_line
        (map event_char (str "version now") ++ (event_char 10 ∷ []))
        in_use
      ≡ after_command s' [] (false, cmd_version args s'.machine))
    × (s'.machine ≡ on_console (λ _. s'.machine.console) in_use.machine)
    × (map text args ≡ take max_args (drop 1 (words (text (typed (str "version now") [])))))
round-runs_example =
    round-runs 9 cpuid (λ a. 0) map_entry no_answers "version" cmd_version (str "version now") []
      blank_line in_use (length-replicate {A = ℕ} cmd_buffer_size 0) (unfold one_line str in refl)
      version-Has version_first
