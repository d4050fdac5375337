-- ===== src/Shell/Editor/Bounds.antt =====
-- The positions and the buffers of the line editor of shell.c, event by event.
use simple_kernel.Base.{
  ℕ, ◌+◌, ◌-◌, ◌≤◌, ◌<◌, ◌≡◌, refl, ◌∙◌, arith, ◌&&◌, ◌||◌, not, List, [], ◌∷◌, ltb, leb, ◌==◌,
  Bool-cases, inl, inr, length, length-set, get_or, get_or-set_ne, get_or-set_same, set,
}
use simple_kernel.Console.{Console}
use simple_kernel.Event.{EventType, char, up, down, left, right}
use simple_kernel.Kstring.Memory.{length-kmemcpy_between}
use simple_kernel.Shell.{cmd_buffer_size}
use simple_kernel.Shell.Editor.{
  Editor, Step, copy_text, set_buffer, save_line, key_up, key_down, leave_history, key_backspace,
  key_char, key, on_event,
}
use simple_kernel.Shell.Recall.{IsValid as IsHistory}

pub record IsValid (e : Editor) : Type 0 where
  pub line : length e.cmd_buffer ≡ cmd_buffer_size
  pub saved : length e.current_line ≡ cmd_buffer_size
  pub pos_lt : e.pos < cmd_buffer_size
  pub ended : get_or e.cmd_buffer (cmd_buffer_size - 1) 0 ≡ 0
  pub past : IsHistory e.history
  pub position : e.history_position ≤ e.history.count

-- What the second loop of `shell_set_buffer` leaves.
record Copied (buffer : List ℕ) (r : List ℕ × ℕ) : Type 0 where
  size : length r.0 ≡ length buffer
  end : r.1 < cmd_buffer_size
  last : get_or r.0 (cmd_buffer_size - 1) 0 ≡ get_or buffer (cmd_buffer_size - 1) 0

copy_text-Copied :
    (text : List ℕ) (i : ℕ) (buffer : List ℕ)
    → i < cmd_buffer_size
    → Copied buffer (copy_text text i buffer)
unfolding copy_text
copy_text-Copied [] i buffer lt = record { size = refl; end = lt; last = refl }
copy_text-Copied (c ∷ text) i buffer lt =
    elim (Bool-cases (not (c == 0) && ltb (i + 1) cmd_buffer_size)) [
      | inl more ↦
          let next : i + 1 < cmd_buffer_size = ground arith in
          let rest = copy_text-Copied text (i + 1) (set buffer i c) next in
          rw more (record {
            size = rest.size ∙ length-set buffer i c;
            end = rest.end;
            last = rest.last ∙ get_or-set_ne buffer i (cmd_buffer_size - 1) c 0 (omega arith);
          })
      | inr done ↦ rw done (record { size = refl; end = lt; last = refl })
    ]

set_buffer-IsValid : (text : List ℕ) (e : Editor) → IsValid e → IsValid (set_buffer text e)
unfolding set_buffer
set_buffer-IsValid text e v =
    let r = copy_text-Copied text 0 e.cmd_buffer (omega arith) in
    let buffer = (copy_text text 0 e.cmd_buffer).0 in
    let end = (copy_text text 0 e.cmd_buffer).1 in
    record {
      line = length-set buffer end 0 ∙ (r.size ∙ v.line);
      saved = v.saved;
      pos_lt = r.end;
      ended = get_or-set_same buffer end (cmd_buffer_size - 1) 0 (r.last ∙ v.ended);
      past = v.past;
      position = v.position;
    }

save_line-IsValid : (e : Editor) → IsValid e → IsValid (save_line e)
unfolding save_line
save_line-IsValid e v = record {
  line = v.line;
  saved = length-kmemcpy_between 0 0 cmd_buffer_size e.cmd_buffer e.current_line ∙ v.saved;
  pos_lt = v.pos_lt;
  ended = v.ended;
  past = v.past;
  position = v.position;
}

set_buffer-IsValid_at :
    (text : List ℕ) (p : ℕ) (e : Editor)
    → p ≤ e.history.count
    → IsValid e
    → IsValid (set_buffer text (record e { history_position = p }))
set_buffer-IsValid_at text p e le v = set_buffer-IsValid text _ (record {
  line = v.line;
  saved = v.saved;
  pos_lt = v.pos_lt;
  ended = v.ended;
  past = v.past;
  position = le;
})

key_up-IsValid : (e : Editor) → IsValid e → IsValid (key_up e)
unfolding key_up save_line
key_up-IsValid e v = elim (Bool-cases (e.history.count == 0 || e.history_position == 0)) [
  | inl none_left ↦ rw none_left v
  | inr more ↦ rw more (elim (Bool-cases (e.history_position == e.history.count)) [
    | inl own ↦ rw own (
        set_buffer-IsValid_at _ (e.history_position - 1) (save_line e) (omega (arith, v.position))
          (save_line-IsValid e v))
    | inr old ↦
        rw old (set_buffer-IsValid_at _ (e.history_position - 1) e (omega (arith, v.position)) v)
  ])
]

key_down-IsValid : (e : Editor) → IsValid e → IsValid (key_down e)
unfolding key_down
key_down-IsValid e v = elim (Bool-cases (leb e.history.count e.history_position)) [
  | inl newest ↦ rw newest v
  | inr older ↦
      let le : e.history_position + 1 ≤ e.history.count = ground arith in
      rw older (elim (Bool-cases (e.history_position + 1 == e.history.count)) [
        | inl own ↦ rw own (set_buffer-IsValid_at _ (e.history_position + 1) e le v)
        | inr old ↦ rw old (set_buffer-IsValid_at _ (e.history_position + 1) e le v)
      ])
]

leave_history-IsValid : (e : Editor) → IsValid e → IsValid (leave_history e)
unfolding leave_history save_line
leave_history-IsValid e v = elim (Bool-cases (not (e.history_position == e.history.count))) [
  | inl old ↦
      let saved = save_line-IsValid e v in
      rw old (record {
        line = v.line;
        saved = saved.saved;
        pos_lt = v.pos_lt;
        ended = v.ended;
        past = v.past;
        position = omega arith;
      })
  | inr own ↦ rw own v
]

leave_history-pos : (e : Editor) → (leave_history e).pos ≡ e.pos
unfolding leave_history save_line
leave_history-pos e = elim (Bool-cases (not (e.history_position == e.history.count))) [
  | inl old ↦ rw old refl
  | inr own ↦ rw own refl
]

key_backspace-IsValid : (e : Editor) → IsValid e → IsValid (key_backspace e)
unfolding key_backspace
key_backspace-IsValid e v =
    let own = leave_history e in
    let w = leave_history-IsValid e v in
    elim (Bool-cases (ltb 0 e.pos)) [
      | inl inside ↦ rw inside (record {
        line = length-set own.cmd_buffer (own.pos - 1) 0 ∙ w.line;
        saved = w.saved;
        pos_lt = omega (arith, w.pos_lt);
        ended = get_or-set_same own.cmd_buffer (own.pos - 1) (cmd_buffer_size - 1) 0 w.ended;
        past = w.past;
        position = w.position;
      })
      | inr start ↦ rw start v
    ]

key_char-IsValid : (c : ℕ) (e : Editor) → IsValid e → IsValid (key_char c e)
unfolding key_char
key_char-IsValid c e v =
    let own = leave_history e in
    let w = leave_history-IsValid e v in
    let same : own.pos ≡ e.pos = leave_history-pos e in
    elim (Bool-cases (ltb (e.pos + 1) cmd_buffer_size)) [
      | inl room ↦
          let next : own.pos + 1 < cmd_buffer_size = ground (arith, same) in
          let written = set own.cmd_buffer own.pos c in
          rw room (record {
            line =
                length-set written (own.pos + 1) 0 ∙ (length-set own.cmd_buffer own.pos c ∙ w.line);
            saved = w.saved;
            pos_lt = next;
            ended = get_or-set_same written (own.pos + 1) (cmd_buffer_size - 1) 0 (
                get_or-set_ne own.cmd_buffer own.pos (cmd_buffer_size - 1) c 0 (omega arith)
                ∙ w.ended);
            past = w.past;
            position = w.position;
          })
      | inr full ↦ rw full v
    ]

-- A step keeps what its two kinds of editor state have in common.
unfoldable pub OnStep : (Editor → Type 0) → Step → Type 0
OnStep P (Step.reads_on e) = P e
OnStep P (Step.complete e) = P e

key-IsValid : (c : ℕ) (e : Editor) → IsValid e → OnStep IsValid (key c e)
unfolding key OnStep
key-IsValid c e v = elim (Bool-cases (c == 10)) [
  | inl newline ↦ rw newline (record {
    line = length-set e.cmd_buffer e.pos 0 ∙ v.line;
    saved = v.saved;
    pos_lt = v.pos_lt;
    ended = get_or-set_same e.cmd_buffer e.pos (cmd_buffer_size - 1) 0 v.ended;
    past = v.past;
    position = v.position;
  })
  | inr other ↦ rw other (elim (Bool-cases (c == 8 || c == 0x7F)) [
    | inl back ↦ rw back (key_backspace-IsValid e v)
    | inr letter ↦ rw letter (key_char-IsValid c e v)
  ])
]

on_screen-IsValid :
    (console : Console) (e : Editor) → IsValid e → IsValid (record e { console = console })
on_screen-IsValid console e v = record {
  line = v.line;
  saved = v.saved;
  pos_lt = v.pos_lt;
  ended = v.ended;
  past = v.past;
  position = v.position;
}

-- An event leaves the editor's buffers and positions in their bounds.
pub on_event-IsValid :
    (t : EventType) (ch : ℕ) (e : Editor) → IsValid e → OnStep IsValid (on_event t ch e)
unfolding on_event OnStep
on_event-IsValid left ch e v = on_screen-IsValid _ e v
on_event-IsValid right ch e v = on_screen-IsValid _ e v
on_event-IsValid up ch e v = key_up-IsValid _ (on_screen-IsValid _ e v)
on_event-IsValid down ch e v = key_down-IsValid _ (on_screen-IsValid _ e v)
on_event-IsValid char ch e v = key-IsValid ch _ (on_screen-IsValid _ e v)
