-- ===== src/Serial.antt =====
-- serial.c: the first serial port. What has arrived and is not yet read is `rx`; what the driver
-- writes to ports is the list `outs` of ports and values, oldest first. Waiting for the transmitter
-- (`serial_tx_ready`) changes nothing that the driver keeps.
use simple_kernel.Base.{
  ℕ, ◌+◌, Bool, true, false, not, Option, none, some, List, [], ◌∷◌, ◌++◌, ◌==◌, if◌then◌else◌, u8,
}

abbrev pub com1_port : ℕ
com1_port = 0x3F8

pub record Serial : Type 0 where
  pub initialized : Bool
  pub rx : List ℕ
  pub outs : List (ℕ × ℕ)

abbrev outb : ℕ → ℕ → Serial → Serial
outb port value s = record s { outs = s.outs ++ ((port, value) ∷ []) }

unfoldable pub init : Serial → Serial
init s =
    let a = outb (com1_port + 1) 0x00 s in
    let b = outb (com1_port + 3) 0x80 a in
    let c = outb (com1_port + 0) 0x01 b in
    let d = outb (com1_port + 1) 0x00 c in
    let e = outb (com1_port + 3) 0x03 d in
    let f = outb (com1_port + 2) 0xC7 e in
    let g = outb (com1_port + 4) 0x0B f in record g { initialized = true }

-- The call on '\n' writes '\r', and makes no further call.
unfoldable pub write_char : ℕ → Serial → Serial
write_char c s =
    if not s.initialized
    then s
    else outb com1_port (u8 c) (if c == 10 then outb com1_port 13 s else s)

-- The text in front of its NUL.
unfoldable pub write : List ℕ → Serial → Serial
write [] s = s
write (c ∷ str) s = write str (write_char c s)

unfoldable pub has_input : Serial → Bool
has_input s = if not s.initialized then false else elim s.rx [ [] ↦ false | _ ↦ true ]

-- `none`: it waits for input.
unfoldable pub read_char : Serial → Option (ℕ × Serial)
unfolding has_input
read_char s =
    if has_input s
    then elim s.rx [ [] ↦ none | c ∷ rest ↦ some (c, record s { rx = rest }) ]
    else none
