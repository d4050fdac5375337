-- ===== src/Shell/Editor/Recalling.antt =====
-- What the up key brings back in the line editor of shell.c.
use simple_kernel.Base.{
  ℕ, zero, suc, ◌+◌, ◌-◌, ◌≤◌, ◌<◌, ◌≡◌, refl, sym, ap, ap₂, ◌∙◌, arith, true, false, ◌&&◌, ◌||◌,
  not, some, List, [], ◌∷◌, ◌++◌, ltb, ◌==◌, Bool-cases, inl, inr, length, length-set, append_nil,
  snoc-append, take, take_all, take-set_behind, take-set_snoc, replicate, set,
}
use simple_kernel.Event.{Event, up, event_char, event_special}
use simple_kernel.Kstring.Compare.{text}
use simple_kernel.Shell.{cmd_buffer_size, history_get}
use simple_kernel.Shell.Editor.{
  Editor, Step, copy_text, set_buffer, save_line, key_up, key, on_event, read_line, prompt,
}
use simple_kernel.Shell.Editor.Lines.{read_line-more, read_line-complete}
use simple_kernel.Shell.Editor.Typing.{text-set_end}

-- The bytes in front of the cursor are the line.
record Shows (line : List ℕ) (e : Editor) : Type 0 where
  size : length e.cmd_buffer ≡ cmd_buffer_size
  here : take e.pos e.cmd_buffer ≡ line
  room : e.pos < cmd_buffer_size

-- What the copy leaves, with room for `n` bytes from `i` on.
record Copied (line buffer : List ℕ) (i n : ℕ) (r : List ℕ × ℕ) : Type 0 where
  size : length r.0 ≡ length buffer
  here : take r.1 r.0 ≡ take i buffer ++ take n (text line)
  room : r.1 < cmd_buffer_size

-- Nothing more is copied.
Copied-stop :
    (line buffer : List ℕ) (i n : ℕ)
    → take n (text line) ≡ []
    → i < cmd_buffer_size
    → Copied line buffer i n (buffer, i)
Copied-stop line buffer i n none lt = record {
  size = refl;
  here = sym (append_nil (take i buffer)) ∙ ap (λ l. take i buffer ++ l) (sym none);
  room = lt;
}

copy_text-Copied :
    (line : List ℕ) (i n : ℕ) (buffer : List ℕ)
    → length buffer ≡ cmd_buffer_size
    → i + n + 1 ≡ cmd_buffer_size
    → Copied line buffer i n (copy_text line i buffer)
unfolding copy_text text
copy_text-Copied [] i n buffer size sum =
    Copied-stop [] buffer i n (take_all n [] (omega arith)) (omega arith)
copy_text-Copied (c ∷ line) i zero buffer size sum =
    let full : (not (c == 0) && ltb (i + 1) cmd_buffer_size) ≡ false = ground arith in
    rw full (Copied-stop (c ∷ line) buffer i 0 refl (omega arith))
copy_text-Copied (c ∷ line) i (suc n) buffer size sum = elim (Bool-cases (c == 0)) [
  | inl end ↦
      let none : text (c ∷ line) ≡ [] = rw end refl in
      rw end (Copied-stop (c ∷ line) buffer i (suc n) (ap (λ l. take (suc n) l) none) (omega arith))
  | inr some_char ↦
      let more : ltb (i + 1) cmd_buffer_size ≡ true = ground arith in
      let rest =
        copy_text-Copied line (i + 1) n (set buffer i c) (length-set buffer i c ∙ size)
          (omega arith) in
      let whole : text (c ∷ line) ≡ c ∷ text line = rw some_char refl in
      rw (some_char, more)
        (record {
          size = rest.size ∙ length-set buffer i c;
          here =
              rest.here
              ∙ (ap (λ l. l ++ take n (text line)) (take-set_snoc i buffer c (omega arith))
                  ∙ (snoc-append (take i buffer) (take n (text line)) c
                      ∙ ap (λ l. take i buffer ++ take (suc n) l) (sym whole)));
          room = rest.room;
        })
]

-- What fits into the command buffer.
abbrev pub fitting : List ℕ → List ℕ
fitting line = take (cmd_buffer_size - 1) (text line)

set_buffer-Shows :
    (line : List ℕ) (e : Editor)
    → length e.cmd_buffer ≡ cmd_buffer_size
    → Shows (fitting line) (set_buffer line e)
unfolding set_buffer
set_buffer-Shows line e size =
    let r = copy_text-Copied line 0 (cmd_buffer_size - 1) e.cmd_buffer size (omega arith) in
    let buffer = (copy_text line 0 e.cmd_buffer).0 in
    let end = (copy_text line 0 e.cmd_buffer).1 in
    record {
      size = length-set buffer end 0 ∙ (r.size ∙ size);
      here = take-set_behind end end buffer 0 (omega arith) ∙ r.here;
      room = r.room;
    }

-- What the up key makes of an editor at position `p + 1`.
record Upped (e e' : Editor) (p : ℕ) : Type 0 where
  history : e'.history ≡ e.history
  position : e'.history_position ≡ p
  shows : Shows (fitting (history_get p e.history)) e'

key_up-Upped :
    (e : Editor)
    → length e.cmd_buffer ≡ cmd_buffer_size
    → 0 < e.history_position
    → e.history_position ≤ e.history.count
    → Upped e (key_up e) (e.history_position - 1)
unfolding key_up save_line set_buffer
key_up-Upped e size pos le =
    let more : (e.history.count == 0 || e.history_position == 0) ≡ false = ground arith in
    rw more (elim (Bool-cases (e.history_position == e.history.count)) [
      | inl own ↦
          rw own (record { history = refl; position = refl; shows = set_buffer-Shows _ _ size })
      | inr old ↦
          rw old (record { history = refl; position = refl; shows = set_buffer-Shows _ _ size })
    ])

on_event-Upped :
    (e : Editor)
    → length e.cmd_buffer ≡ cmd_buffer_size
    → 0 < e.history_position
    → e.history_position ≤ e.history.count
    → (next : Editor) × (on_event up 0 e ≡ Step.reads_on next)
      × Upped e next (e.history_position - 1)
unfolding on_event
on_event-Upped e size pos le = (
  _,
  refl,
  (let h = key_up-Upped _ size pos le in
      record { history = h.history; position = h.position; shows = h.shows }),
)

-- The text of a buffer in which the line is ended.
text-fitting : (line : List ℕ) (n : ℕ) → text (take n (text line)) ≡ take n (text line)
unfolding text
text-fitting line zero = refl
text-fitting [] (suc n) = refl
text-fitting (c ∷ line) (suc n) = elim (Bool-cases (c == 0)) [
  | inl end ↦ rw end refl
  | inr more ↦ rw (more, more) (ap (λ t. c ∷ t) (text-fitting line n))
]

Shows-text :
    (line : List ℕ) (e : Editor)
    → Shows (fitting line) e
    → text (set e.cmd_buffer e.pos 0) ≡ fitting line
Shows-text line e s =
    text-set_end e.cmd_buffer e.pos (omega (arith, s.size, s.room))
    ∙ (ap text s.here ∙ text-fitting line (cmd_buffer_size - 1))

ups-fitting :
    (n : ℕ) (rest : List Event) (e : Editor)
    → length e.cmd_buffer ≡ cmd_buffer_size
    → n < e.history_position
    → e.history_position ≤ e.history.count
    → (d : Editor) × (read_line (replicate (suc n) (event_special up) ++ (event_char 10 ∷ rest)) e
        ≡ some (d, rest))
      × (text d.cmd_buffer ≡ fitting (history_get (e.history_position - suc n) e.history))
unfolding on_event key
ups-fitting zero rest e size lt le =
    let (next, goes_on, u) = on_event-Upped e size (omega arith) le in
    (
      _,
      read_line-more (event_special up) (event_char 10 ∷ rest) e next goes_on
          ∙ read_line-complete (event_char 10) rest next _ refl,
      Shows-text _ next u.shows,
    )
ups-fitting (suc n) rest e size lt le =
    let (next, goes_on, u) = on_event-Upped e size (omega arith) le in
    let further : n < next.history_position = omega (arith, u.position) in
    let within : next.history_position ≤ next.history.count =
      rw (u.history, u.position) (omega arith) in
    let (d, read, same) = ups-fitting n rest next u.shows.size further within in
    let there : next.history_position - suc n ≡ e.history_position - suc (suc n) =
      omega (arith, u.position) in
    (
      d,
      read_line-more (event_special up) _ e next goes_on ∙ read,
      same ∙ ap₂ (λ k h. fitting (history_get k h)) there u.history,
    )

-- At a fresh prompt with a command buffer of its size, as many presses of the up key as one likes
-- from 1 to the number of lines in the history, and then return, give the text of the line that
-- many entries back, cut to 255 bytes; the events behind are left.
pub read_line-history_get :
    (n : ℕ) (rest : List Event) (e : Editor)
    → length e.cmd_buffer ≡ cmd_buffer_size
    → 0 < n
    → n ≤ e.history.count
    → (d : Editor) × (read_line
          (replicate n (event_special up) ++ (event_char 10 ∷ rest))
          (prompt e)
        ≡ some (d, rest))
      × (text d.cmd_buffer ≡ fitting (history_get (e.history.count - n) e.history))
unfolding prompt
read_line-history_get zero rest e size pos le = absurd (omega arith)
read_line-history_get (suc n) rest e size pos le =
    ups-fitting n rest (prompt e) size (omega arith) (omega arith)
