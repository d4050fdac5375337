-- ===== src/Shell/Editor/Typing.antt =====
-- What is typed at the prompt of shell.c, and the line as one that is edited at its end.
use simple_kernel.Base.{
  ℕ, zero, suc, ◌+◌, ◌-◌, ◌<◌, ◌≡◌, refl, sym, ap, ap₂, ◌∙◌, arith, Bool, true, false, ◌&&◌, ◌||◌,
  not, some, List, [], ◌∷◌, ◌++◌, map, ltb, ◌==◌, if◌then◌else◌, Bool-cases, both_true, inl, inr,
  length, length-set, take, take_all, take-set_behind, take-set_snoc, take-take, length-take_full,
  set,
}
use simple_kernel.Console.{Console}
use simple_kernel.Event.{Event, char, event_char}
use simple_kernel.Kstring.Compare.{text}
use simple_kernel.Shell.{cmd_buffer_size}
use simple_kernel.Shell.Editor.{
  Editor, Step, leave_history, key_backspace, key_char, key, on_event, read_line, prompt,
}
use simple_kernel.Shell.Editor.Lines.{read_line-more, read_line-complete}

-- The specification: backspace and delete take the last byte away, any other byte is put behind the
-- line unless that has 255 bytes.
unfoldable pub edit : ℕ → List ℕ → List ℕ
edit c line =
    if c == 8 || c == 0x7F
    then take (length line - 1) line
    else if ltb (length line + 1) cmd_buffer_size
    then line ++ (c ∷ [])
    else line

unfoldable pub typed : List ℕ → List ℕ → List ℕ
typed [] line = line
typed (c ∷ chars) line = typed chars (edit c line)

unfoldable pub one_line : List ℕ → Bool
one_line [] = true
one_line (c ∷ chars) = not (c == 10) && one_line chars

-- The text ends at the first NUL.
pub text-set_end : (b : List ℕ) (n : ℕ) → n < length b → text (set b n 0) ≡ text (take n b)
unfolding text
text-set_end [] n h = absurd (omega arith)
text-set_end (c ∷ b) zero h = refl
text-set_end (c ∷ b) (suc n) h = elim (Bool-cases (c == 0)) [
  | inl end ↦ rw end refl
  | inr more ↦ rw more (ap (λ t. c ∷ t) (text-set_end b n (omega arith)))
]

-- The buffer holds the line, and the history is not in use.
record Holds (line : List ℕ) (e : Editor) : Type 0 where
  size : length e.cmd_buffer ≡ cmd_buffer_size
  here : take e.pos e.cmd_buffer ≡ line
  room : e.pos < cmd_buffer_size
  own : e.history_position ≡ e.history.count

Holds-count : (line : List ℕ) (e : Editor) → Holds line e → length line ≡ e.pos
Holds-count line e h =
    ap length (sym h.here) ∙ length-take_full e.pos e.cmd_buffer (omega (arith, h.size, h.room))

leave_history-own : (e : Editor) → e.history_position ≡ e.history.count → leave_history e ≡ e
unfolding leave_history
leave_history-own e own =
    let same : (e.history_position == e.history.count) ≡ true = ground arith in rw same refl

erase_last-Holds :
    (line : List ℕ) (e : Editor)
    → Holds line e
    → Holds (take (length line - 1) line) (key_backspace e)
unfolding key_backspace
erase_last-Holds line e h =
    let n : length line ≡ e.pos = Holds-count line e h in
    elim (Bool-cases (ltb 0 e.pos)) [
      | inl inside ↦
          rw (inside, leave_history-own e h.own)
            (record {
              size = length-set e.cmd_buffer (e.pos - 1) 0 ∙ h.size;
              here =
                  take-set_behind (e.pos - 1) (e.pos - 1) e.cmd_buffer 0 (omega arith)
                  ∙ (sym (take-take (e.pos - 1) e.pos e.cmd_buffer (omega arith))
                      ∙ ap₂ take (ap (λ k. k - 1) (sym n)) h.here);
              room = omega (arith, h.room);
              own = h.own;
            })
      | inr start ↦
          let z : e.pos ≡ 0 = ground arith in
          let empty : take (length line - 1) line ≡ line =
            take_all (length line - 1) line (omega arith) in
          rw (start, empty) h
    ]

put-Holds :
    (c : ℕ) (line : List ℕ) (e : Editor)
    → Holds line e
    → Holds
        (if ltb (length line + 1) cmd_buffer_size then line ++ (c ∷ []) else line)
        (key_char c e)
unfolding key_char
put-Holds c line e h =
    let n : length line ≡ e.pos = Holds-count line e h in
    let written = set e.cmd_buffer e.pos c in
    rw n (elim (Bool-cases (ltb (e.pos + 1) cmd_buffer_size)) [
      | inl room ↦
          rw (room, leave_history-own e h.own)
            (record {
              size = length-set written (e.pos + 1) 0 ∙ (length-set e.cmd_buffer e.pos c ∙ h.size);
              here =
                  take-set_behind (e.pos + 1) (e.pos + 1) written 0 (omega arith)
                  ∙ (take-set_snoc e.pos e.cmd_buffer c (omega (arith, h.size, h.room))
                      ∙ ap (λ l. l ++ (c ∷ [])) h.here);
              room = ground arith;
              own = h.own;
            })
      | inr full ↦ rw full h
    ])

shown :
    (line : List ℕ) (e : Editor) (console : Console)
    → Holds line e
    → Holds line (record e { console = console })
shown line e console h = record { size = h.size; here = h.here; room = h.room; own = h.own }

-- One byte.
key-edit :
    (c : ℕ) (line : List ℕ) (e : Editor)
    → (c == 10) ≡ false
    → Holds line e
    → (next : Editor) × (key c e ≡ Step.reads_on next) × Holds (edit c line) next
unfolding key edit
key-edit c line e letter h = rw letter (elim (Bool-cases (c == 8 || c == 0x7F)) [
  | inl back ↦ rw back (_, refl, erase_last-Holds line e h)
  | inr other ↦ rw other (_, refl, put-Holds c line e h)
])

on_event-edit :
    (c : ℕ) (line : List ℕ) (e : Editor)
    → (c == 10) ≡ false
    → Holds line e
    → (next : Editor) × (on_event char c e ≡ Step.reads_on next) × Holds (edit c line) next
unfolding on_event
on_event-edit c line e letter h = key-edit c line _ letter (shown line e _ h)

typed-Holds :
    (chars line : List ℕ) (rest : List Event) (e : Editor)
    → one_line chars ≡ true
    → Holds line e
    → (d : Editor) × (read_line (map event_char chars ++ (event_char 10 ∷ rest)) e ≡ some (d, rest))
      × (text d.cmd_buffer ≡ text (typed chars line))
unfolding typed one_line on_event key
typed-Holds [] line rest e own h = (
  _,
  read_line-complete (event_char 10) rest e _ refl,
  text-set_end e.cmd_buffer e.pos (omega (arith, h.size, h.room)) ∙ ap text h.here,
)
typed-Holds (c ∷ chars) line rest e own h =
    let both = both_true (not (c == 10)) (one_line chars) own in
    let letter : (c == 10) ≡ false = ground (arith, both.0) in
    let (next, goes_on, holds) = on_event-edit c line e letter h in
    let (d, read, same) = typed-Holds chars (edit c line) rest next both.1 holds in
    (d, read_line-more (event_char c) _ e next goes_on ∙ read, same)

-- At a fresh prompt with a command buffer of its size, what is typed up to the newline without the
-- arrow keys is the text of the command buffer afterwards, as a line to whose end bytes are added
-- up to 255 of them and whose last byte backspace and delete take away; the events behind the
-- newline are left.
pub read_line-typed :
    (chars : List ℕ) (rest : List Event) (e : Editor)
    → length e.cmd_buffer ≡ cmd_buffer_size
    → one_line chars ≡ true
    → (d : Editor) × (read_line (map event_char chars ++ (event_char 10 ∷ rest)) (prompt e)
        ≡ some (d, rest))
      × (text d.cmd_buffer ≡ text (typed chars []))
unfolding prompt
read_line-typed chars rest e size own =
    typed-Holds chars [] rest (prompt e) own
      (record { size = size; here = refl; room = omega arith; own = refl })
