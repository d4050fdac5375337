-- ===== src/Keyboard/Decode.antt =====
-- `keyboard_process_scancode` of keyboard.c: what one scancode does to the flags and to the ring.
use simple_kernel.Base.{
  ℕ, ◌<◌, ◌≡◌, refl, sym, ◌∙◌, Bool, true, false, ◌&&◌, ◌||◌, not, Option, none, some, arith,
  bit_and, leb, ◌==◌, ==_iff, if◌then◌else◌, Bool-cases, inl, inr, all_below, all_below_sound, str,
}
use simple_kernel.Event.{Event, up, down, left, right, event_char, event_special}
use simple_kernel.Keyboard.{
  Keyboard, queue_event, extended_key, plain_key, by_prefix, process_scancode,
}
use simple_kernel.Keyboard.Layout.{key_char, key_char-ascii_of}
use simple_kernel.Keyboard.Queue.{
  IsValid, EventQueue, contents, enqueue, queue_event-IsValid, queue_event-enqueue,
}

-- The scancode set as a state machine of its own: the two flags, and the event that is sent.
pub record Decoded : Type 0 where
  pub shift : Bool
  pub prefix : Bool
  pub sent : Option Event

pub arrow : ℕ → Option Event
arrow c =
    if c == 0x48
    then some (event_special up)
    else if c == 0x50
    then some (event_special down)
    else if c == 0x4B
    then some (event_special left)
    else if c == 0x4D
    then some (event_special right)
    else none

-- A key that is released, or that has no character, sends nothing.
pub typed : Bool → ℕ → Option Event
typed shift c =
    if leb 0x80 c || key_char shift c == 0 then none else some (event_char (key_char shift c))

pub decode : Bool → Bool → ℕ → Decoded
decode shift true c = record {
  shift = shift;
  prefix = c == 0xE0;
  sent = if leb 0x80 c then none else arrow c;
}
decode shift false c = record {
  shift = (shift || (c == 0x2A || c == 0x36)) && not (c == 0xAA || c == 0xB6);
  prefix = c == 0xE0;
  sent = typed shift c;
}

pub send : Option Event → EventQueue → EventQueue
send none q = q
send (some e) q = enqueue e q

release_table :
    all_below 256 (λ c. (if bit_and c 0x80 == 0 then not (leb 0x80 c) else leb 0x80 c)) ≡ true
unfolding all_below
release_table = refl

-- Bit 7 of a scancode is set exactly from 0x80 on.
release_bit : (c : ℕ) → c < 256 → not (bit_and c 0x80 == 0) ≡ leb 0x80 c
release_bit c h = flag _ _ (all_below_sound 256 _ c release_table h)
  where
    flag : (a b : Bool) → (if a then not b else b) ≡ true → not a ≡ b
    flag a b e = ground arith

-- What the code leaves: the two flags, and the events.
pub record Follows (d : Decoded) (k k' : Keyboard) : Type 0 where
  pub valid : IsValid k'
  pub shift : k'.shift_pressed ≡ d.shift
  pub prefix : k'.extended_prefix ≡ d.prefix
  pub events : contents k' ≡ send d.sent (contents k)

queue_event-flags :
    (e : Event) (k : Keyboard)
    → ((queue_event e k).shift_pressed ≡ k.shift_pressed)
      × ((queue_event e k).extended_prefix ≡ k.extended_prefix)
unfolding queue_event
queue_event-flags e k = ground arith

sends :
    (e : Event) (k : Keyboard)
    → IsValid k
    → Follows
        (record { shift = k.shift_pressed; prefix = k.extended_prefix; sent = some e })
        k
        (queue_event e k)
unfolding send
sends e k v = record {
  valid = queue_event-IsValid k v e;
  shift = (queue_event-flags e k).0;
  prefix = (queue_event-flags e k).1;
  events = queue_event-enqueue k v e;
}

stays :
    (k : Keyboard)
    → IsValid k
    → Follows (record { shift = k.shift_pressed; prefix = k.extended_prefix; sent = none }) k k
unfolding send
stays k v = record { valid = v; shift = refl; prefix = refl; events = refl }

extended_key-Follows :
    (c : ℕ) (k : Keyboard)
    → IsValid k
    → Follows
        (record { shift = k.shift_pressed; prefix = k.extended_prefix; sent = arrow c })
        k
        (extended_key c k)
unfolding extended_key arrow
extended_key-Follows c k v = elim (Bool-cases (c == 0x48)) [
  | inl u ↦ rw (u, extended_key, arrow) (sends (event_special up) k v)
  | inr a ↦ elim (Bool-cases (c == 0x50)) [
    | inl d ↦ rw (a, d, extended_key, arrow) (sends (event_special down) k v)
    | inr b ↦ elim (Bool-cases (c == 0x4B)) [
      | inl l ↦ rw (a, b, l, extended_key, arrow) (sends (event_special left) k v)
      | inr e ↦ elim (Bool-cases (c == 0x4D)) [
        | inl r ↦ rw (a, b, e, r, extended_key, arrow) (sends (event_special right) k v)
        | inr f ↦ rw (a, b, e, f, extended_key, arrow) (stays k v)
      ]
    ]
  ]
]

shift_is_silent_at : (s : Bool) → (typed s 0x2A ≡ none) × (typed s 0x36 ≡ none)
unfolding typed key_char str
shift_is_silent_at true = (refl, refl)
shift_is_silent_at false = (refl, refl)

shift_is_silent : (s : Bool) (c : ℕ) → (c == 0x2A || c == 0x36) ≡ true → typed s c ≡ none
shift_is_silent s c h = elim (Bool-cases (c == 0x2A)) [
  | inl e ↦ let n : c ≡ 0x2A = (==_iff _ _).0 e in rw n (shift_is_silent_at s).0
  | inr a ↦ let n : c ≡ 0x36 = ground arith in rw n (shift_is_silent_at s).1
]

typed-none : (s : Bool) (c : ℕ) → (leb 0x80 c || key_char s c == 0) ≡ true → typed s c ≡ none
unfolding typed
typed-none s c h = rw h

typed-some :
    (s : Bool) (c : ℕ)
    → (leb 0x80 c || key_char s c == 0) ≡ false
    → typed s c ≡ some (event_char (key_char s c))
unfolding typed
typed-some s c h = rw h

same_shift : (b : Bool) → ((b || false) && not false) ≡ b
same_shift true = refl
same_shift false = refl

plain_key-Follows :
    (c : ℕ) (k : Keyboard)
    → IsValid k
    → c < 256
    → Follows
        (record {
          shift = (k.shift_pressed || (c == 0x2A || c == 0x36)) && not (c == 0xAA || c == 0xB6);
          prefix = k.extended_prefix;
          sent = typed k.shift_pressed c;
        })
        k
        (plain_key c k)
unfolding plain_key
plain_key-Follows c k v h = elim (Bool-cases (c == 0x2A || c == 0x36)) [
  | inl press ↦
      let up : (c == 0xAA || c == 0xB6) ≡ false = ground arith in
      rw (press, up, shift_is_silent k.shift_pressed c press)
        (record {
          valid = record { storage = v.storage; head_in = v.head_in; tail_in = v.tail_in };
          shift = ground arith;
          prefix = refl;
          events = unfold send in refl;
        })
  | inr a ↦ elim (Bool-cases (c == 0xAA || c == 0xB6)) [
    | inl release ↦
        let high : leb 0x80 c ≡ true = ground arith in
        rw (a, release)
          (record {
            valid = record { storage = v.storage; head_in = v.head_in; tail_in = v.tail_in };
            shift = ground arith;
            prefix = refl;
            events = unfold send typed in rw high;
          })
    | inr b ↦
        rw (a, b, release_bit c h, same_shift, key_char-ascii_of k.shift_pressed c h)
          (elim (Bool-cases (leb 0x80 c || key_char k.shift_pressed c == 0)) [
            | inl silent ↦
                rw (typed-none k.shift_pressed c silent) (elim (Bool-cases (leb 0x80 c)) [
                  | inl high ↦ rw high (stays k v)
                  | inr low ↦
                      let z : (key_char k.shift_pressed c == 0) ≡ true = ground arith in
                      rw (low, z) (stays k v)
                ])
            | inr types ↦
                let low : leb 0x80 c ≡ false = ground arith in
                let char : (key_char k.shift_pressed c == 0) ≡ false = ground arith in
                rw (low, char, typed-some k.shift_pressed c types)
                  (sends (event_char (key_char k.shift_pressed c)) k v)
          ])
  ]
]

-- The code behind the test for the prefix, and the same of the state machine.
by_prefix-Follows :
    (c : ℕ) (k : Keyboard) (p : Bool)
    → k.extended_prefix ≡ p
    → IsValid k
    → c < 256
    → (c == 0xE0) ≡ false
    → Follows (decode k.shift_pressed p c) k (by_prefix p c k)
unfolding by_prefix decode
by_prefix-Follows c k true e v h plain = rw (release_bit c h) (elim (Bool-cases (leb 0x80 c)) [
  | inl high ↦
      rw (high, plain)
        (record {
          valid = record { storage = v.storage; head_in = v.head_in; tail_in = v.tail_in };
          shift = refl;
          prefix = refl;
          events = unfold send in refl;
        })
  | inr low ↦
      let next = record k { extended_prefix = false } in
      let f =
        extended_key-Follows c next
          (record { storage = v.storage; head_in = v.head_in; tail_in = v.tail_in }) in
      rw (low, plain)
        (record { valid = f.valid; shift = f.shift; prefix = f.prefix; events = f.events })
])
by_prefix-Follows c k false e v h plain =
    let f = plain_key-Follows c k v h in
    record {
      valid = f.valid;
      shift = f.shift;
      prefix = f.prefix ∙ e ∙ sym plain;
      events = f.events;
    }

prefix-Follows :
    (k : Keyboard) (p : Bool)
    → IsValid k
    → Follows (decode k.shift_pressed p 0xE0) k (record k { extended_prefix = true })
unfolding decode typed
prefix-Follows k true v = record {
  valid = record { storage = v.storage; head_in = v.head_in; tail_in = v.tail_in };
  shift = refl;
  prefix = refl;
  events = unfold send in refl;
}
prefix-Follows k false v = record {
  valid = record { storage = v.storage; head_in = v.head_in; tail_in = v.tail_in };
  shift = sym (same_shift k.shift_pressed);
  prefix = refl;
  events = unfold send in refl;
}

-- On a valid keyboard one scancode does what the state machine says, whose characters are those of
-- the US layout written out by rows: to the two flags, and to the queue of events.
pub process_scancode-Follows :
    (c : ℕ) (k : Keyboard)
    → IsValid k
    → c < 256
    → Follows (decode k.shift_pressed k.extended_prefix c) k (process_scancode c k)
unfolding process_scancode
process_scancode-Follows c k v h = elim (Bool-cases (c == 0xE0)) [
  | inl is ↦ let n : c ≡ 0xE0 = (==_iff _ _).0 is in rw n (prefix-Follows k k.extended_prefix v)
  | inr plain ↦ rw plain (by_prefix-Follows c k k.extended_prefix refl v h plain)
]
