-- ===== src/Shell/Editor.antt =====
-- The line editor in `shell_run` of shell.c, event by event. The static command buffer and history,
-- the local variables of one round of the outer loop, and the console are its state.
pub mod Bounds
pub mod Lines
pub mod Recalling
pub mod Typing
use simple_kernel.Base.{
  ℕ, zero, suc, ◌+◌, ◌-◌, Bool, true, false, ◌&&◌, ◌||◌, not, Option, none, some, List, [], ◌∷◌,
  ltb, leb, ◌==◌, if◌then◌else◌, get_or, set, str,
}
use simple_kernel.Base.Int.{ℤ, pos, negsuc}
use simple_kernel.Console.{Console}
use simple_kernel.Event.{EventType, Event, char, up, down, left, right}
use simple_kernel.Kprint.{kprint, kprint_colored}
use simple_kernel.Kstring.{kmemcpy_between}
use simple_kernel.Shell.{History, cmd_buffer_size, history_get}
use simple_kernel.Vga
use simple_kernel.Vga.{light_cyan, light_green, black}

pub record Editor : Type 0 where
  pub cmd_buffer : List ℕ
  pub current_line : List ℕ
  pub pos : ℕ
  pub history_position : ℕ
  pub history : History
  pub console : Console

abbrev on_screen : (Console → Console) → Editor → Editor
on_screen f e = record e { console = f e.console }

-- The first loop of `shell_set_buffer`.
pub erase : ℕ → Console → Console
erase zero c = c
erase (suc n) c = erase n (kprint (str "\u{8}") c)

-- The second loop, from `i` on: the buffer and `*pos`.
pub copy_text : List ℕ → ℕ → List ℕ → List ℕ × ℕ
copy_text [] i buffer = (buffer, i)
copy_text (c ∷ text) i buffer =
    let rest = copy_text text (i + 1) (set buffer i c) in
    if not (c == 0) && ltb (i + 1) cmd_buffer_size then rest else (buffer, i)

pub set_buffer : List ℕ → Editor → Editor
set_buffer text e =
    let (buffer, end) = copy_text text 0 e.cmd_buffer in
    record e {
      cmd_buffer = set buffer end 0;
      pos = end;
      console = kprint text (erase e.pos e.console);
    }

-- `kmemcpy(current_line, cmd_buffer, CMD_BUFFER_SIZE)`
pub save_line : Editor → Editor
save_line e = record e {
  current_line = kmemcpy_between 0 0 cmd_buffer_size e.cmd_buffer e.current_line;
}

-- The lines that `INPUT_EVENT_UP` and `INPUT_EVENT_DOWN` lead to.
pub key_up : Editor → Editor
key_up e =
    if e.history.count == 0 || e.history_position == 0
    then e
    else (let saved = if e.history_position == e.history.count then save_line e else e in
        let previous = saved.history_position - 1 in
        set_buffer (history_get previous saved.history)
          (record saved { history_position = previous }))

pub key_down : Editor → Editor
key_down e =
    if leb e.history.count e.history_position
    then e
    else (let next = record e { history_position = e.history_position + 1 } in
        if next.history_position == next.history.count
        then set_buffer next.current_line next
        else set_buffer (history_get next.history_position next.history) next)

-- An edit of a line from the history makes it the current line.
pub leave_history : Editor → Editor
leave_history e =
    if not (e.history_position == e.history.count)
    then record (save_line e) { history_position = e.history.count }
    else e

pub key_backspace : Editor → Editor
key_backspace e =
    if ltb 0 e.pos
    then (let own = leave_history e in
        record own {
          cmd_buffer = set own.cmd_buffer (own.pos - 1) 0;
          pos = own.pos - 1;
          console = kprint (str "\u{8}") own.console;
        })
    else e

pub key_char : ℕ → Editor → Editor
key_char c e =
    if ltb (e.pos + 1) cmd_buffer_size
    then (let own = leave_history e in
        record own {
          cmd_buffer = set (set own.cmd_buffer own.pos c) (own.pos + 1) 0;
          pos = own.pos + 1;
          console = kprint (c ∷ 0 ∷ []) own.console;
        })
    else e

-- One event: the loop goes on, or the line is complete.
pub data Step : Type 0 where
  reads_on : Editor → Step
  complete : Editor → Step

pub key : ℕ → Editor → Step
key c e =
    if c == 10
    then Step.complete
        (record e { cmd_buffer = set e.cmd_buffer e.pos 0; console = kprint (str "\n") e.console })
    else if c == 8 || c == 0x7F
    then Step.reads_on (key_backspace e)
    else Step.reads_on (key_char c e)

abbrev scrolled : ℤ → Console → Console
scrolled delta c = record c { vga = Vga.scroll_view delta c.vga }

abbrev to_bottom : Editor → Editor
to_bottom e = on_screen (λ c. record c { vga = Vga.scroll_to_bottom c.vga }) e

pub on_event : EventType → ℕ → Editor → Step
on_event left ch e = Step.reads_on (on_screen (scrolled (negsuc 0)) e)
on_event right ch e = Step.reads_on (on_screen (scrolled (pos 1)) e)
on_event up ch e = Step.reads_on (key_up (to_bottom e))
on_event down ch e = Step.reads_on (key_down (to_bottom e))
on_event char ch e = key ch (to_bottom e)

-- The inner loop on the events as they come, with what is left of them. `none`: it still waits.
pub read_line : List Event → Editor → Option (Editor × List Event)
read_line [] e = none
read_line (event ∷ events) e = elim (on_event event.type event.ch e) [
  | Step.reads_on next ↦ read_line events next
  | Step.complete done ↦ some (done, events)
]

-- What stands in front of the inner loop. The command buffer is what it was.
unfoldable pub prompt : Editor → Editor
prompt e = record e {
  current_line = set e.current_line 0 0;
  pos = 0;
  history_position = e.history.count;
  console =
      kprint_colored (str "> ") light_green black
        (kprint_colored (str "kernel") light_cyan black e.console);
}
