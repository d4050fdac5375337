-- ===== src/Shell/Session/Rounds.antt =====
-- Whole rounds of `shell_run` of shell.c: from the keys to the function that runs.
use Prim.Native.String.{String}
use simple_kernel.Base.{
  ℕ, zero, suc, ◌+◌, ◌-◌, ◌≡◌, refl, ap, ◌∙◌, arith, Bool, true, false, not, some, List, [], ◌∷◌,
  ◌++◌, ◌==◌, ltb, ◌&&◌, Bool-cases, inl, inr, length, length-set, get_or, get_or-set_same, take,
  drop, map, str,
}
use simple_kernel.Boot.{MemoryMapEntry}
use simple_kernel.Cpuinfo.{Registers}
use simple_kernel.Event.{Event, event_char}
use simple_kernel.Kstring.Compare.{text}
use simple_kernel.Machine.{Machine, on_console}
use simple_kernel.Shell.{
  cmd_buffer_size, max_args, skip_spaces, skip_word, end_word, parse_args, parse_command,
  history_add,
}
use simple_kernel.Shell.Commands.{Answers, Ran, Args}
use simple_kernel.Shell.Dispatch.{Command, commands}
use simple_kernel.Shell.Dispatch.Table.{Has}
use simple_kernel.Shell.Dispatch.Lookup.{execute_command-Has}
use simple_kernel.Shell.Editor.{Editor, read_line, prompt}
use simple_kernel.Shell.Editor.Bounds.{IsValid as IsEditor}
use simple_kernel.Shell.Editor.Lines.{behind_newline, read_line-IsValid}
use simple_kernel.Shell.Editor.Typing.{typed, one_line, read_line-typed}
use simple_kernel.Shell.Parsing.{first_word, parse_command-words}
use simple_kernel.Shell.Recall.{IsValid as IsHistory, history_add-IsValid}
use simple_kernel.Shell.Session.{
  Shell, Round, editor, with_line, exit_shell, after_command, run_line, round,
}
use simple_kernel.Shell.Strings.{string_at}
use simple_kernel.Shell.Words.{words}

map-string_at :
    (b : List ℕ) (args : List ℕ) → map text (map (λ a. drop a b) args) ≡ map (string_at b) args
map-string_at b [] = refl
map-string_at b (a ∷ args) = ap (λ l. string_at b a ∷ l) (map-string_at b args)

module _ (fuel : ℕ) (cpuid : ℕ → Registers) (config : ℕ → ℕ) (entries : ℕ → MemoryMapEntry)
    (answers : Answers) where
  round-line :
      (stack : List ℕ) (events rest : List Event) (d : Editor) (s : Shell)
      → read_line events (prompt (editor stack s)) ≡ some (d, rest)
      → round fuel cpuid config entries answers stack events s
        ≡ run_line fuel cpuid config entries answers d rest s
  unfolding round
  round-line stack events rest d s read = rw (round, read) refl

  -- From a shell whose command buffer has its size, a line that is typed without the arrow keys
  -- and whose first word is the name of a command in the table makes the round run that command's
  -- function once, on a machine that differs from the one before in the console only; its
  -- arguments are the words behind the first, 16 at most, and the events behind the newline are
  -- left.
  pub round-runs :
      (name : String) (run : Command) (chars : List ℕ) (rest : List Event) (stack : List ℕ)
      (s : Shell)
      → length s.cmd_buffer ≡ cmd_buffer_size
      → one_line chars ≡ true
      → Has name run (commands fuel cpuid config entries answers)
      → first_word (words (text (typed chars []))) ≡ text (str name)
      → (s' : Shell) × (args : Args) × (round fuel cpuid config entries answers stack
            (map event_char chars ++ (event_char 10 ∷ rest))
            s
          ≡ after_command s' rest (false, run args s'.machine))
        × (s'.machine ≡ on_console (λ _. s'.machine.console) s.machine)
        × (map text args ≡ take max_args (drop 1 (words (text (typed chars [])))))
  unfolding run_line with_line
  round-runs name run chars rest stack s size own has named =
      let (d, read, same) = read_line-typed chars rest (editor stack s) size own in
      let p = parse_command d.cmd_buffer in
      let (first, others) = parse_command-words d.cmd_buffer in
      let cmd = drop p.cmd p.buffer in
      let args = map (λ a. drop a p.buffer) p.args in
      let m = record s.machine { console = d.console } in
      let word : text cmd ≡ text (str name) =
        first ∙ (ap (λ t. first_word (words t)) same ∙ named) in
      let ran =
        execute_command-Has fuel cpuid config entries answers name run cmd args m has word in
      let cut : Shell = record {
        cmd_buffer = p.buffer;
        history = history_add d.cmd_buffer d.history;
        machine = m;
      } in
      (
        cut,
        args,
        round-line stack _ rest d s read ∙ ap (λ r. after_command cut rest r) ran,
        refl,
        map-string_at p.buffer p.args ∙ (others ∙ ap (λ t. take max_args (drop 1 (words t))) same),
      )

-- A shell's command buffer and history.
pub record IsValid (s : Shell) : Type 0 where
  pub line : length s.cmd_buffer ≡ cmd_buffer_size
  pub ended : get_or s.cmd_buffer (cmd_buffer_size - 1) 0 ≡ 0
  pub past : IsHistory s.history

-- What the parser keeps of the buffer: its writes are all NULs.
record Cut (b b' : List ℕ) : Type 0 where
  size : length b' ≡ length b
  nul : (j : ℕ) → get_or b j 0 ≡ 0 → get_or b' j 0 ≡ 0

Cut-refl : (b : List ℕ) → Cut b b
Cut-refl b = record { size = refl; nul = λ j h. h }

Cut-trans : (a b c : List ℕ) → Cut a b → Cut b c → Cut a c
Cut-trans a b c f g = record { size = g.size ∙ f.size; nul = λ j h. g.nul j (f.nul j h) }

end_word-Cut : (b : List ℕ) (i : ℕ) → Cut b (end_word b i).0
unfolding end_word
end_word-Cut b i = elim (Bool-cases (not (get_or b i 0 == 0))) [
  | inl more ↦ rw more (record { size = length-set b i 0; nul = λ j h. get_or-set_same b i j 0 h })
  | inr end ↦ rw end (Cut-refl b)
]

parse_args-Cut :
    (rounds : ℕ) (b : List ℕ) (i : ℕ) (args : List ℕ) → Cut b (parse_args rounds b i args).0
unfolding parse_args
parse_args-Cut zero b i args = Cut-refl b
parse_args-Cut (suc rounds) b i args =
    let start = skip_spaces (length b) b i in
    let end = skip_word (length b) b start in
    let after = end_word b end in
    let rest =
      Cut-trans b after.0 _ (end_word-Cut b end)
        (parse_args-Cut rounds after.0 after.1 (args ++ (start ∷ []))) in
    elim (Bool-cases (not (get_or b i 0 == 0) && ltb (length args) max_args)) [
      | inl more ↦ rw more (elim (Bool-cases (get_or b start 0 == 0)) [
        | inl done ↦ rw done (Cut-refl b)
        | inr word ↦ rw word rest
      ])
      | inr done ↦ rw done (Cut-refl b)
    ]

parse_command-Cut : (b : List ℕ) → Cut b (parse_command b).buffer
unfolding parse_command
parse_command-Cut b = Cut-trans b _ _ (end_word-Cut b _) (parse_args-Cut (max_args + 1) _ _ [])

on_machine-IsValid : (m : Machine) (s : Shell) → IsValid s → IsValid (record s { machine = m })
on_machine-IsValid m s v = record { line = v.line; ended = v.ended; past = v.past }

-- A round that does not end the machine leaves a valid shell, and the events behind its line.
unfoldable pub OnRound : List Event → Round → Type 0
OnRound rest (Round.again s left) = IsValid s × (left ≡ rest)
OnRound rest (Round.exited s) = IsValid s
OnRound rest (Round.stopped m) = Unit {0}
OnRound rest Round.waiting = Unit {0}

after_command-OnRound :
    (s : Shell) (rest : List Event) (r : Bool × Ran)
    → IsValid s
    → OnRound rest (after_command s rest r)
unfolding after_command OnRound exit_shell
after_command-OnRound s rest (true, Ran.continues m) v = on_machine-IsValid _ s v
after_command-OnRound s rest (false, Ran.continues m) v = (on_machine-IsValid m s v, refl)
after_command-OnRound s rest (true, Ran.stops m) v = tt
after_command-OnRound s rest (false, Ran.stops m) v = tt
after_command-OnRound s rest (true, Ran.waits) v = tt
after_command-OnRound s rest (false, Ran.waits) v = tt

-- The editor that a valid shell starts at a prompt.
prompt-IsValid :
    (stack : List ℕ) (s : Shell)
    → length stack ≡ cmd_buffer_size
    → IsValid s
    → IsEditor (prompt (editor stack s))
unfolding prompt
prompt-IsValid stack s size v = record {
  line = v.line;
  saved = length-set stack 0 0 ∙ size;
  pos_lt = omega arith;
  ended = v.ended;
  past = v.past;
  position = omega arith;
}

module _ (fuel : ℕ) (cpuid : ℕ → Registers) (config : ℕ → ℕ) (entries : ℕ → MemoryMapEntry)
    (answers : Answers) where
  -- From a shell whose command buffer has its size and ends with a NUL and whose history is valid,
  -- with a stack array of that size and a newline among the events, a round that goes on or exits
  -- leaves such a shell, whatever keys come and whatever the command does, and the next round
  -- starts at the event behind the newline.
  pub round-IsValid :
      (stack : List ℕ) (events rest : List Event) (s : Shell)
      → length stack ≡ cmd_buffer_size
      → IsValid s
      → behind_newline events ≡ some rest
      → OnRound rest (round fuel cpuid config entries answers stack events s)
  unfolding run_line with_line
  round-IsValid stack events rest s size v newline =
      let (d, read, w) =
        read_line-IsValid events (prompt (editor stack s)) rest (prompt-IsValid stack s size v)
          newline in
      let kept = parse_command-Cut d.cmd_buffer in
      rw (round-line fuel cpuid config entries answers stack events rest d s read) (
        after_command-OnRound _ rest _ (record {
          line = kept.size ∙ w.line;
          ended = kept.nul (cmd_buffer_size - 1) w.ended;
          past = history_add-IsValid d.cmd_buffer d.history w.line w.past;
        }))
