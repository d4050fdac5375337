-- ===== src/Shell/Dispatch/Lookup.antt =====
-- `execute_command` of shell.c: what is done with the first word of a line.
use Prim.Native.String.{String}
use simple_kernel.Base.{
  ℕ, ◌≡◌, ◌≢◌, refl, sym, ◌∙◌, Bool, true, false, List, [], ◌∷◌, ◌++◌, ◌==◌, Bool-cases,
  Option-cases, inl, inr, get_or, str,
}
use simple_kernel.Boot.{MemoryMapEntry}
use simple_kernel.Console.{Console}
use simple_kernel.Console.Output.{serial_write-append}
use simple_kernel.Cpuinfo.{Registers}
use simple_kernel.Kprint.{kprint}
use simple_kernel.Kprint.Numbers.{kprint-serial}
use simple_kernel.Kstring.{kstrcmp}
use simple_kernel.Kstring.Compare.{text}
use simple_kernel.Machine.{Machine}
use simple_kernel.Serial
use simple_kernel.Shell.Commands.{Answers, Ran, Args, say, equals}
use simple_kernel.Shell.Compare.{is_zero}
use simple_kernel.Shell.Dispatch.{Command, find_command, unknown_command, commands, execute_command}
use simple_kernel.Shell.Dispatch.Table.{
  Has, Lacks, equals-text, equals-other, text-equals, find_command-found, find_command-none,
  find_command-Has, Has-is_callable, is_named, is_distinct, is_callable,
}

-- What the shell says about a word that is no command.
unfoldable pub complaint : List ℕ → List ℕ
complaint cmd = str "Unknown command: " ++ (text cmd ++ str "\n")

unknown_command-serial :
    (cmd : List ℕ) (m : Machine)
    → (c : Console) × (unknown_command cmd m ≡ Ran.continues (record m { console = c }))
      × (c.serial ≡ Serial.write (complaint cmd) m.console.serial)
unfolding unknown_command complaint str text
unknown_command-serial cmd m =
    let a = say "Unknown command: " m.console in
    let b = kprint cmd a in
    let first : a.serial ≡ Serial.write (str "Unknown command: ") m.console.serial =
      kprint-serial _ m.console in
    let second : b.serial ≡ Serial.write (text cmd) a.serial = kprint-serial cmd a in
    let third : (say "\n" b).serial ≡ Serial.write (str "\n") b.serial = kprint-serial _ b in
    (
      say "\n" b,
      refl,
      third
          ∙ (rw (second, first)
              (sym (
                serial_write-append (str "Unknown command: ") (text cmd ++ str "\n")
                  m.console.serial
                ∙ serial_write-append (text cmd) (str "\n")
                    (Serial.write (str "Unknown command: ") m.console.serial)))),
    )

text-empty : (cmd : List ℕ) → (get_or cmd 0 0 == 0) ≡ true → text cmd ≡ []
unfolding text
text-empty [] h = refl
text-empty (c ∷ cmd) h = rw h refl

empty-text : (cmd : List ℕ) → text cmd ≡ [] → (get_or cmd 0 0 == 0) ≡ true
unfolding text
empty-text [] h = refl
empty-text (c ∷ cmd) h = elim (Bool-cases (c == 0)) [
  | inl end ↦ end
  | inr more ↦ let none : (c ∷ text cmd) ≡ [] = rw more at h in cc none
]

nonempty-text : (cmd : List ℕ) → (get_or cmd 0 0 == 0) ≡ false → text cmd ≢ []
nonempty-text cmd more none = let blank = empty-text cmd none in cc (blank, more)

module _ (fuel : ℕ) (cpuid : ℕ → Registers) (config : ℕ → ℕ) (entries : ℕ → MemoryMapEntry)
    (answers : Answers) where
  -- The four ways of a line.
  pub data Dispatched (cmd : List ℕ) (args : Args) (m : Machine) : Bool × Ran → Type 0 where
    empty : text cmd ≡ [] → Dispatched cmd args m (false, Ran.continues m)
    exit : text cmd ≡ text (str "exit") → Dispatched cmd args m (true, Ran.continues m)
    runs :
        (name : String) (run : Command)
        → Has name run (commands fuel cpuid config entries answers)
        → text cmd ≡ text (str name)
        → Dispatched cmd args m (false, run args m)
    unknown :
        (c : Console)
        → text cmd ≢ []
        → text cmd ≢ text (str "exit")
        → Lacks cmd (commands fuel cpuid config entries answers)
        → c.serial ≡ Serial.write (complaint cmd) m.console.serial
        → Dispatched cmd args m (false, Ran.continues (record m { console = c }))

  -- An empty word does nothing, exit ends the shell, a word with the text of a name in the table
  -- runs the function beside it on the arguments, and a word that is neither empty nor exit nor in
  -- the table changes only the console, whose serial line is told the word.
  pub execute_command-Dispatched :
      (cmd : List ℕ) (args : Args) (m : Machine)
      → Dispatched cmd args m (execute_command fuel cpuid config entries answers cmd args m)
  unfolding execute_command
  execute_command-Dispatched cmd args m = elim (Bool-cases (get_or cmd 0 0 == 0)) [
    | inl blank ↦ rw blank (Dispatched.empty (text-empty cmd blank))
    | inr more ↦ rw more (elim (Bool-cases (equals cmd "exit")) [
      | inl leave ↦ rw leave (Dispatched.exit (equals-text cmd "exit" leave))
      | inr stay ↦
          rw stay
            (elim (Option-cases (find_command cmd (commands fuel cpuid config entries answers))) [
              | inl missing ↦
                  let (c, says, line) = unknown_command-serial cmd m in
                  rw (missing, says)
                    (Dispatched.unknown c (nonempty-text cmd more) (equals-other cmd "exit" stay)
                      (find_command-none cmd _ missing) line)
              | inr (run, found) ↦
                  let (name, has, same) = find_command-found cmd _ run found in
                  rw found (Dispatched.runs name run has same)
            ])
    ])
  ]

  commands-is_distinct : is_distinct (commands fuel cpuid config entries answers) ≡ true
  unfolding is_distinct is_named commands equals is_zero kstrcmp str
  commands-is_distinct = refl

  commands-is_callable : is_callable (commands fuel cpuid config entries answers) ≡ true
  unfolding is_callable commands equals is_zero kstrcmp str
  commands-is_callable = refl

  -- Every command of the table is reached: whatever the arguments, a word with the text of its name
  -- runs its function.
  pub execute_command-Has :
      (name : String) (run : Command) (cmd : List ℕ) (args : Args) (m : Machine)
      → Has name run (commands fuel cpuid config entries answers)
      → text cmd ≡ text (str name)
      → execute_command fuel cpuid config entries answers cmd args m ≡ (false, run args m)
  unfolding execute_command
  execute_command-Has name run cmd args m has same =
      let table = commands fuel cpuid config entries answers in
      let (some_char, other) = Has-is_callable name run table commands-is_callable has in
      let found = find_command-Has name run cmd table commands-is_distinct has same in
      elim (Bool-cases (get_or cmd 0 0 == 0)) [
        | inl blank ↦
            let none = empty-text (str name) (sym same ∙ text-empty cmd blank) in
            cc (none, some_char)
        | inr more ↦ elim (Bool-cases (equals cmd "exit")) [
          | inl leave ↦
              let exit = text-equals (str name) "exit" (sym same ∙ equals-text cmd "exit" leave) in
              cc (exit, other)
          | inr stay ↦ rw (more, stay, found) refl
        ]
      ]
