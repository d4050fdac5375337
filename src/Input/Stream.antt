-- ===== src/Input/Stream.antt =====
-- The bytes of a serial terminal, and the events of input.c.
use simple_kernel.Base.{
  ℕ, zero, suc, ◌≡◌, refl, sym, ap, ap₂, ◌∙◌, arith, Bool, true, false, not, ◌&&◌, Option, none,
  some, List, [], ◌∷◌, ◌++◌, ◌==◌, both_true, length, append_assoc,
}
use simple_kernel.Event.{EventType, Event, char, up, down, left, right}
use simple_kernel.Input.{arrow_event, escape_event, serial_event, read_serial_event}
use simple_kernel.Serial
use simple_kernel.Serial.{Serial}

-- What a terminal sends for an event: a character as it is, an arrow key as an escape sequence.
unfoldable pub encode : EventType → ℕ → List ℕ
encode char c = c ∷ []
encode up c = 0x1B ∷ b'[' ∷ b'A' ∷ []
encode down c = 0x1B ∷ b'[' ∷ b'B' ∷ []
encode right c = 0x1B ∷ b'[' ∷ b'C' ∷ []
encode left c = 0x1B ∷ b'[' ∷ b'D' ∷ []

-- No character is an escape or a carriage return, and the arrow keys have no character.
unfoldable pub is_sendable : EventType → ℕ → Bool
is_sendable char c = not (c == 0x1B) && not (c == 13)
is_sendable _ c = c == 0

unfoldable pub all_sendable : List Event → Bool
all_sendable [] = true
all_sendable (e ∷ events) = is_sendable e.type e.ch && all_sendable events

unfoldable pub encode_all : List Event → List ℕ
encode_all [] = []
encode_all (e ∷ events) = encode e.type e.ch ++ encode_all events

-- As many calls of `input_read_serial_event`. `none`: one of them waits.
pub read_events : ℕ → Serial → Option (List Event × Serial)
read_events zero s = some ([], s)
read_events (suc n) s = elim (read_serial_event s) [
  | none ↦ none
  | some (e, next) ↦ elim (read_events n next) [
    | none ↦ none
    | some (events, last) ↦ some (e ∷ events, last)
  ]
]

abbrev line_with : Serial → List ℕ → Serial
line_with s bytes = record { initialized = true; rx = bytes; outs = s.outs }

read_serial_event-encode :
    (t : EventType) (c : ℕ) (rest : List ℕ) (s : Serial)
    → is_sendable t c ≡ true
    → read_serial_event (line_with s (encode t c ++ rest))
      ≡ some (record { type = t; ch = c }, line_with s rest)
unfolding read_serial_event serial_event escape_event arrow_event encode is_sendable
    Serial.read_char Serial.has_input
read_serial_event-encode char c rest s ok =
    let both = both_true (not (c == 0x1B)) (not (c == 13)) ok in
    let no_escape : (c == 0x1B) ≡ false = ground (arith, both.0) in
    let no_return : (c == 13) ≡ false = ground (arith, both.1) in rw (no_return, no_escape) refl
read_serial_event-encode up c rest s ok = let z : c ≡ 0 = ground arith in rw z refl
read_serial_event-encode down c rest s ok = let z : c ≡ 0 = ground arith in rw z refl
read_serial_event-encode right c rest s ok = let z : c ≡ 0 = ground arith in rw z refl
read_serial_event-encode left c rest s ok = let z : c ≡ 0 = ground arith in rw z refl

read_events-line :
    (events : List Event) (rest : List ℕ) (s : Serial)
    → all_sendable events ≡ true
    → read_events (length events) (line_with s (encode_all events ++ rest))
      ≡ some (events, line_with s rest)
unfolding read_events encode_all all_sendable
read_events-line [] rest s ok = refl
read_events-line (e ∷ events) rest s ok =
    let both = both_true (is_sendable e.type e.ch) (all_sendable events) ok in
    let first = read_serial_event-encode e.type e.ch (encode_all events ++ rest) s both.0 in
    rw
      (
        append_assoc (encode e.type e.ch) (encode_all events) rest,
        read_events,
        first,
        read_events-line events rest s both.1,
      )
      refl

-- On an initialised line, the bytes that a terminal sends for a sequence of events, no character
-- of which is an escape or a carriage return, are read back by input_read_serial_event as exactly
-- these events, without waiting, and the bytes behind them are left.
pub read_events-encode_all :
    (events : List Event) (rest : List ℕ) (s : Serial)
    → s.initialized ≡ true
    → s.rx ≡ encode_all events ++ rest
    → all_sendable events ≡ true
    → read_events (length events) s ≡ some (events, record s { rx = rest })
read_events-encode_all events rest s ready bytes ok =
    let here : s ≡ line_with s (encode_all events ++ rest) =
      ap₂ (λ i b. record { initialized = i; rx = b; outs = s.outs }) ready bytes in
    ap (λ t. read_events (length events) t) here
    ∙ (read_events-line events rest s ok
        ∙ ap (λ i. some (events, record { initialized = i; rx = rest; outs = s.outs })) (sym ready))
