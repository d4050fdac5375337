-- ===== src/Input.antt =====
-- input.c: the events of the serial line and of the keyboard as one stream. `none` is waiting, for a
-- byte of the serial line or, in `getevent`, for an interrupt.
mod Tests
pub mod Stream
use simple_kernel.Base.{ℕ, not, Option, none, some, List, [], ◌∷◌, ◌==◌, if◌then◌else◌}
use simple_kernel.Event.{Event, char, up, down, left, right, event_char, event_special}
use simple_kernel.Keyboard
use simple_kernel.Keyboard.{Keyboard}
use simple_kernel.Serial
use simple_kernel.Serial.{Serial}

infixl 5 ◌>>=◌
abbrev ◌>>=◌ : {A : Type 0} → Option (ℕ × Serial) → (ℕ × Serial → Option A) → Option A
none >>= f = none
some r >>= f = f r

-- The `switch` over the third byte of an escape sequence.
arrow_event : ℕ → ℕ → Event
arrow_event c third =
    if third == b'A'
    then event_special up
    else if third == b'B'
    then event_special down
    else if third == b'C'
    then event_special right
    else if third == b'D'
    then event_special left
    else event_char c

-- What is left of an escape sequence behind its first byte `c`.
escape_event : ℕ → Serial → Option (Event × Serial)
escape_event c s = do
  (second, s) ← Serial.read_char s
  if not (second == b'[')
      then some (event_char c, s)
      else (do (third, s) ← Serial.read_char s; some (arrow_event c third, s))

serial_event : ℕ → Serial → Option (Event × Serial)
serial_event c s =
    if not (c == 0x1B)
    then some (event_char c, s)
    else if not (Serial.has_input s)
    then some (event_char c, s)
    else escape_event c s

pub read_serial_event : Serial → Option (Event × Serial)
read_serial_event s = do
  (raw, s) ← Serial.read_char s
  serial_event (if raw == 13 then 10 else raw) s

pub record Sources : Type 0 where
  pub serial : Serial
  pub keyboard : Keyboard

-- One round of the loop of `input_getevent`.
pub getevent : Sources → Option (Event × Sources)
getevent s =
    if Serial.has_input s.serial
    then elim (read_serial_event s.serial) [
      | none ↦ none
      | some (e, serial) ↦ some (e, record s { serial = serial })
    ]
    else if Keyboard.has_input s.keyboard
    then elim (Keyboard.getevent s.keyboard) [
      | none ↦ none
      | some (e, keyboard) ↦ some (e, record s { keyboard = keyboard })
    ]
    else none

-- `input_getchar` on the events that `getevent` gives one after the other, with what is left of
-- them; the arrow keys are dropped. `none`: it still waits.
pub getchar : List Event → Option (ℕ × List Event)
getchar [] = none
getchar (event ∷ events) =
    let rest = getchar events in elim event.type [ char ↦ some (event.ch, events) | _ ↦ rest ]
