-- ===== src/Keyboard.antt =====
-- keyboard.c and keyboard_map.h: scancodes to events, the ring of events, and the line reader.
-- The static variables are the record; `getevent` on an empty ring waits for the next interrupt,
-- which is `none` here.
mod Tests
pub mod Decode
pub mod Layout
pub mod Map
pub mod Queue
use simple_kernel.Base.{
  ℕ, ◌+◌, ◌-◌, ◌%◌, Bool, true, false, ◌&&◌, ◌||◌, not, Option, none, some, List, [], ◌∷◌, bit_and,
  ltb, ◌==◌, if◌then◌else◌, get_or, set,
}
use simple_kernel.Event.{EventType, Event, char, up, down, left, right, event_char, event_special}
use Map.{
  key_lshift, key_rshift, key_extended_prefix, key_lshift_release, key_rshift_release, key_arrow_up,
  key_arrow_left, key_arrow_right, key_arrow_down, map_size, scancode_to_ascii,
  scancode_to_ascii_shift,
}

abbrev pub buffer_size : ℕ
buffer_size = 256

pub record Keyboard : Type 0 where
  pub shift_pressed : Bool
  pub extended_prefix : Bool
  pub input_queue : List Event
  pub head : ℕ
  pub tail : ℕ

pub queue_event : Event → Keyboard → Keyboard
queue_event e k =
    let next = (k.head + 1) % buffer_size in
    if next == k.tail then k else record k { input_queue = set k.input_queue k.head e; head = next }

-- The `switch` behind an extended prefix.
pub extended_key : ℕ → Keyboard → Keyboard
extended_key scancode k =
    if scancode == key_arrow_up
    then queue_event (event_special up) k
    else if scancode == key_arrow_down
    then queue_event (event_special down) k
    else if scancode == key_arrow_left
    then queue_event (event_special left) k
    else if scancode == key_arrow_right
    then queue_event (event_special right) k
    else k

-- `sizeof` of the first table bounds the index of both.
pub ascii_of : Bool → ℕ → ℕ
ascii_of shift scancode =
    if ltb scancode map_size
    then (if shift
        then get_or scancode_to_ascii_shift scancode 0
        else get_or scancode_to_ascii scancode 0)
    else 0

-- The code behind the two tests of the prefix.
pub plain_key : ℕ → Keyboard → Keyboard
plain_key scancode k =
    if scancode == key_lshift || scancode == key_rshift
    then record k { shift_pressed = true }
    else if scancode == key_lshift_release || scancode == key_rshift_release
    then record k { shift_pressed = false }
    else if not (bit_and scancode 0x80 == 0)
    then k
    else if not (ascii_of k.shift_pressed scancode == 0)
    then queue_event (event_char (ascii_of k.shift_pressed scancode)) k
    else k

-- The code behind the test for the prefix; the flag is the first argument.
pub by_prefix : Bool → ℕ → Keyboard → Keyboard
by_prefix true scancode k =
    if not (bit_and scancode 0x80 == 0)
    then record k { extended_prefix = false }
    else extended_key scancode (record k { extended_prefix = false })
by_prefix false scancode k = plain_key scancode k

pub process_scancode : ℕ → Keyboard → Keyboard
process_scancode scancode k =
    if scancode == key_extended_prefix
    then record k { extended_prefix = true }
    else by_prefix k.extended_prefix scancode k

pub has_input : Keyboard → Bool
has_input k = not (k.head == k.tail)

pub getevent : Keyboard → Option (Event × Keyboard)
getevent k =
    if has_input k
    then some
        (get_or k.input_queue k.tail (event_char 0), record k { tail = (k.tail + 1) % buffer_size })
    else none

unfoldable pub reset_state : Keyboard → Keyboard
reset_state k = record k { shift_pressed = false; extended_prefix = false; head = 0; tail = 0 }

unfoldable pub init : Keyboard → Keyboard
init k = reset_state k

-- `keyboard_getchar` on the events as they come, with what is left of them; events that are no
-- characters are dropped. `none`: it still waits.
pub getchar : List Event → Option (ℕ × List Event)
getchar [] = none
getchar (e ∷ events) =
    let rest = getchar events in elim e.type [ char ↦ some (e.ch, events) | _ ↦ rest ]

-- `keyboard_get_line` on the characters as they come, with what is left of them. `pos < max_len - 1`
-- is a test of `int`s, so it fails at `max_len` 0 too.
pub get_line_from : List ℕ → ℕ → ℕ → List ℕ → Option (List ℕ × List ℕ)
get_line_from [] pos max_len buffer =
    if ltb (pos + 1) max_len then none else some (set buffer pos 0, [])
get_line_from (c ∷ chars) pos max_len buffer =
    let back = get_line_from chars (pos - 1) max_len buffer in
    let skip = get_line_from chars pos max_len buffer in
    let store = get_line_from chars (pos + 1) max_len (set buffer pos c) in
    if ltb (pos + 1) max_len
    then (if c == 10
        then some (set buffer pos 0, chars)
        else if c == 8 && ltb 0 pos
        then back
        else if not (c == 8)
        then store
        else skip)
    else some (set buffer pos 0, c ∷ chars)

pub get_line : List ℕ → ℕ → List ℕ → Option (List ℕ × List ℕ)
get_line chars max_len buffer = get_line_from chars 0 max_len buffer
