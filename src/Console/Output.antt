-- ===== src/Console/Output.antt =====
-- What console.c puts on the serial line and on the terminal.
use simple_kernel.Base.{
  ℕ, ◌≡◌, refl, sym, ◌∙◌, true, List, [], ◌∷◌, ◌++◌, ◌==◌, if◌then◌else◌, Bool-cases, inl, inr, u8,
  append_nil, append_assoc,
}
use simple_kernel.Console.{Console, write_char, write}
use simple_kernel.Kstring.Compare.{text}
use simple_kernel.Serial
use simple_kernel.Serial.{Serial, com1_port}
use simple_kernel.Vga
use simple_kernel.Vga.{Vga}
use simple_kernel.Vga.Put.{writestring-IsValid}
use simple_kernel.Vga.Valid.{IsValid}

-- The bytes of a text on the line: a carriage return in front of each newline.
pub crlf : List ℕ → List ℕ
crlf [] = []
crlf (c ∷ line) = if c == 10 then 13 ∷ u8 c ∷ crlf line else u8 c ∷ crlf line

-- Bytes written to the port of the line.
pub sent : List ℕ → List (ℕ × ℕ)
sent [] = []
sent (b ∷ bytes) = (com1_port, b) ∷ sent bytes

write_char-outs :
    (c : ℕ) (s : Serial)
    → s.initialized ≡ true
    → ((Serial.write_char c s).outs ≡ s.outs ++ sent (crlf (c ∷ [])))
      × ((Serial.write_char c s).initialized ≡ true)
unfolding Serial.write_char crlf sent
write_char-outs c s ready = elim (Bool-cases (c == 10)) [
  | inl newline ↦
      rw (ready, newline)
        (append_assoc s.outs ((com1_port, 13) ∷ []) ((com1_port, u8 c) ∷ []), refl)
  | inr other ↦ rw (ready, other) (refl, refl)
]

sent-crlf_cons :
    (c : ℕ) (line : List ℕ) → sent (crlf (c ∷ line)) ≡ sent (crlf (c ∷ [])) ++ sent (crlf line)
unfolding crlf sent
sent-crlf_cons c line = elim (Bool-cases (c == 10)) [ inl e ↦ rw e refl | inr e ↦ rw e refl ]

-- On an initialised line a text arrives byte for byte, with a carriage return in front of each
-- newline.
pub serial_write-crlf :
    (line : List ℕ) (s : Serial)
    → s.initialized ≡ true
    → (Serial.write line s).outs ≡ s.outs ++ sent (crlf line)
unfolding Serial.write
serial_write-crlf [] s ready = unfold crlf sent in sym (append_nil s.outs)
serial_write-crlf (c ∷ line) s ready =
    let (first, still) = write_char-outs c s ready in
    serial_write-crlf line (Serial.write_char c s) still
    ∙ rw (first, sent-crlf_cons c line)
        (append_assoc s.outs (sent (crlf (c ∷ []))) (sent (crlf line)))

pub serial_write-append :
    (a b : List ℕ) (s : Serial) → Serial.write (a ++ b) s ≡ Serial.write b (Serial.write a s)
unfolding Serial.write
serial_write-append [] b s = refl
serial_write-append (c ∷ a) b s = serial_write-append a b (Serial.write_char c s)

-- The two outputs get the same text, the one in front of the NUL.
pub write-outputs :
    (t : List ℕ) (c : Console)
    → ((write t c).vga ≡ Vga.writestring (text t) c.vga)
      × ((write t c).serial ≡ Serial.write (text t) c.serial)
unfolding write text Vga.writestring Serial.write write_char
write-outputs [] c = (refl, refl)
write-outputs (ch ∷ t) c = elim (Bool-cases (ch == 0)) [
  | inl end ↦ rw end (refl, refl)
  | inr more ↦ rw more (write-outputs t (write_char ch c))
]

-- On a console with an initialised serial line, what is written reaches the line as that text, and
-- the terminal stays valid.
pub write-crlf :
    (t : List ℕ) (c : Console)
    → c.serial.initialized ≡ true
    → IsValid c.vga
    → ((write t c).serial.outs ≡ c.serial.outs ++ sent (crlf (text t))) × IsValid (write t c).vga
write-crlf t c ready v =
    let (screen, line) = write-outputs t c in
    (
      rw line (serial_write-crlf (text t) c.serial ready),
      rw screen (writestring-IsValid (text t) c.vga v),
    )
