-- ===== src/Shell/Dispatch/Table.antt =====
-- The table of commands of shell.c as names and functions, and the search in it: the names are
-- compared as texts.
use Prim.Native.String.{String}
use simple_kernel.Base.{
  ℕ, ◌≡◌, ◌≢◌, ◌⊎◌, refl, sym, ap, ◌∙◌, arith, Bool, true, false, ◌&&◌, ◌||◌, not, none, some, List,
  [], ◌∷◌, ◌==◌, Bool-cases, both_true, inl, inr, get_or, str,
}
use simple_kernel.Kstring.{kstrcmp}
use simple_kernel.Kstring.Compare.{text, kstrcmp-zero_iff}
use simple_kernel.Shell.Commands.{equals}
use simple_kernel.Shell.Compare.{is_zero_lem, is_zero-pos}
use simple_kernel.Shell.Dispatch.{Command, find_command}

-- The table has a line with this name and this function.
unfoldable pub Has : String → Command → List (String × Command) → Type 0
Has name run [] = ⊥
Has name run ((n, r) ∷ table) = ((name ≡ n) × (run ≡ r)) ⊎ Has name run table

-- No name of the table is the text.
unfoldable pub Lacks : List ℕ → List (String × Command) → Type 0
Lacks cmd [] = Unit {0}
Lacks cmd ((n, r) ∷ table) = (text cmd ≢ text (str n)) × Lacks cmd table

pub equals-text :
    (cmd : List ℕ) (name : String) → equals cmd name ≡ true → text cmd ≡ text (str name)
unfolding equals
equals-text cmd name e = (kstrcmp-zero_iff cmd (str name)).0 (is_zero_lem _ e)

pub equals-other :
    (cmd : List ℕ) (name : String) → equals cmd name ≡ false → text cmd ≢ text (str name)
unfolding equals
equals-other cmd name ne same =
    let yes = is_zero-pos (kstrcmp cmd (str name)) ((kstrcmp-zero_iff cmd (str name)).1 same) in
    cc (yes, ne)

pub text-equals :
    (cmd : List ℕ) (name : String) → text cmd ≡ text (str name) → equals cmd name ≡ true
unfolding equals
text-equals cmd name same =
    is_zero-pos (kstrcmp cmd (str name)) ((kstrcmp-zero_iff cmd (str name)).1 same)

pub find_command-found :
    (cmd : List ℕ) (table : List (String × Command)) (run : Command)
    → find_command cmd table ≡ some run
    → (name : String) × Has name run table × (text cmd ≡ text (str name))
unfolding find_command Has
find_command-found cmd [] run h = cc h
find_command-found cmd ((n, r) ∷ table) run h = elim (Bool-cases (equals cmd n)) [
  | inl here ↦
      let found : some r ≡ some run = rw here at h in
      (n, inl (refl, cc found), equals-text cmd n here)
  | inr further ↦
      let (name, has, same) = find_command-found cmd table run (rw further at h) in
      (name, inr has, same)
]

pub find_command-none :
    (cmd : List ℕ) (table : List (String × Command))
    → find_command cmd table ≡ none
    → Lacks cmd table
unfolding find_command Lacks
find_command-none cmd [] h = tt
find_command-none cmd ((n, r) ∷ table) h = elim (Bool-cases (equals cmd n)) [
  | inl here ↦ let found : some r ≡ none = rw here at h in cc found
  | inr further ↦ (equals-other cmd n further, find_command-none cmd table (rw further at h))
]

-- A name stands in the table; no name stands in it twice; none is empty or `exit`.
unfoldable pub is_named : List ℕ → List (String × Command) → Bool
is_named cmd [] = false
is_named cmd ((n, r) ∷ table) = equals cmd n || is_named cmd table

unfoldable pub is_distinct : List (String × Command) → Bool
is_distinct [] = true
is_distinct ((n, r) ∷ table) = not (is_named (str n) table) && is_distinct table

unfoldable pub is_callable : List (String × Command) → Bool
is_callable [] = true
is_callable ((n, r) ∷ table) =
    (not (get_or (str n) 0 0 == 0) && not (equals (str n) "exit")) && is_callable table

Has-is_named :
    (name : String) (run : Command) (cmd : List ℕ) (table : List (String × Command))
    → Has name run table
    → text cmd ≡ text (str name)
    → is_named cmd table ≡ true
unfolding Has is_named
Has-is_named name run cmd [] has same = absurd has
Has-is_named name run cmd ((n, r) ∷ table) (inl (e, _)) same =
    let here = text-equals cmd n (same ∙ ap (λ t. text (str t)) e) in ground (arith, here)
Has-is_named name run cmd ((n, r) ∷ table) (inr has) same =
    let further = Has-is_named name run cmd table has same in ground (arith, further)

pub find_command-Has :
    (name : String) (run : Command) (cmd : List ℕ) (table : List (String × Command))
    → is_distinct table ≡ true
    → Has name run table
    → text cmd ≡ text (str name)
    → find_command cmd table ≡ some run
unfolding find_command Has is_distinct
find_command-Has name run cmd [] distinct has same = absurd has
find_command-Has name run cmd ((n, r) ∷ table) distinct (inl (e, f)) same =
    rw (text-equals cmd n (same ∙ ap (λ t. text (str t)) e)) (ap some (sym f))
find_command-Has name run cmd ((n, r) ∷ table) distinct (inr has) same =
    let both = both_true (not (is_named (str n) table)) (is_distinct table) distinct in
    elim (Bool-cases (equals cmd n)) [
      | inl here ↦
          let named =
            Has-is_named name run (str n) table has (sym (equals-text cmd n here) ∙ same) in
          absurd (ground (arith, both.0, named))
      | inr further ↦ rw further (find_command-Has name run cmd table both.1 has same)
    ]

pub Has-is_callable :
    (name : String) (run : Command) (table : List (String × Command))
    → is_callable table ≡ true
    → Has name run table
    → ((get_or (str name) 0 0 == 0) ≡ false) × (equals (str name) "exit" ≡ false)
unfolding is_callable Has
Has-is_callable name run [] callable has = absurd has
Has-is_callable name run ((n, r) ∷ table) callable (inl (e, _)) =
    let both =
      both_true (not (get_or (str n) 0 0 == 0) && not (equals (str n) "exit")) (is_callable table)
        callable in
    let own = both_true (not (get_or (str n) 0 0 == 0)) (not (equals (str n) "exit")) both.0 in
    rw e (ground (arith, own.0), ground (arith, own.1))
Has-is_callable name run ((n, r) ∷ table) callable (inr has) =
    let both =
      both_true (not (get_or (str n) 0 0 == 0) && not (equals (str n) "exit")) (is_callable table)
        callable in
    Has-is_callable name run table both.1 has
