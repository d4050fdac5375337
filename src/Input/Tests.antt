-- ===== src/Input/Tests.antt =====
-- The theorem on the serial events of input.c at a concrete line.
use simple_kernel.Base.{◌≡◌, refl, true, some, List, [], ◌∷◌, length}
use simple_kernel.Event.{Event, up, event_char, event_special}
use simple_kernel.Input.Stream.{
  encode, encode_all, is_sendable, all_sendable, read_events, read_events-encode_all,
}
use simple_kernel.Serial.{Serial}

abbrev events : List Event
events = event_char b'a' ∷ event_special up ∷ []

-- `a`, the up key, and `b`.
abbrev line : Serial
line = record { initialized = true; rx = b'a' ∷ 0x1B ∷ b'[' ∷ b'A' ∷ b'b' ∷ []; outs = [] }

read_events-encode_all_example :
    read_events (length events) line ≡ some (events, record line { rx = b'b' ∷ [] })
read_events-encode_all_example =
    read_events-encode_all events (b'b' ∷ []) line refl (unfold encode_all encode in refl)
      (unfold all_sendable is_sendable in refl)
