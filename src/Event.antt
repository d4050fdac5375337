-- ===== src/Event.antt =====
-- input.h: the events that the keyboard and the serial line give, and the two builders that
-- keyboard.c and input.c both have.
use simple_kernel.Base.{ℕ}

pub data EventType : Type 0 where
  char up down left right : EventType

pub record Event : Type 0 where
  pub type : EventType
  pub ch : ℕ

abbrev pub event_char : ℕ → Event
event_char c = record { type = EventType.char; ch = c }

abbrev pub event_special : EventType → Event
event_special t = record { type = t; ch = 0 }
