-- ===== src/Kprint/Numbers.antt =====
-- The printers of kprint.c on the serial line and in colour.
use simple_kernel.Base.{
  ℕ, ◌+◌, ◌-◌, ◌*◌, u64, ◌<◌, ◌^◌, ◌≡◌, refl, sym, ap, ◌∙◌, arith, true, Option, some, none, ◌||◌,
  List, [], ◌∷◌, ◌++◌, ◌==◌, if◌then◌else◌, Bool-cases, inl, inr, replicate, ltb,
}
use simple_kernel.Console.{Console, write_char, setcolor}
use simple_kernel.Console.Output.{crlf, sent, write-outputs, write-crlf}
use simple_kernel.Kprint.{kprint, kprint_u64, kprint_rainbow, rainbow_from, reset_color, next_color}
use simple_kernel.Kstring.{ku64_parse, ku64_to_dec, first_char, parse_from}
use simple_kernel.Kstring.Compare.{text}
use simple_kernel.Kstring.Number.{ku64_parse-ku64_to_dec}
use simple_kernel.Serial
use simple_kernel.Serial.{Serial}
use simple_kernel.Vga
use simple_kernel.Vga.{Vga, light_grey, black, entry_color}
use simple_kernel.Vga.Valid.{IsValid}

pub kprint-serial :
    (t : List ℕ) (c : Console) → (kprint t c).serial ≡ Serial.write (text t) c.serial
unfolding kprint
kprint-serial t c = (write-outputs t c).1

-- A parser sees only the text in front of the NUL.
parse_from-text : (t : List ℕ) (out : ℕ) → parse_from out (text t) ≡ parse_from out t
unfolding parse_from text
parse_from-text [] out = refl
parse_from-text (c ∷ t) out = elim (Bool-cases (c == 0)) [
  | inl end ↦ rw end refl
  | inr more ↦
      rw (more, more)
        (ap (λ (r : Option ℕ). if ltb c b'0' || ltb b'9' c then none else r)
          (parse_from-text t (u64 (out * 10 + (c - b'0')))))
]

first_char-text : (t : List ℕ) → first_char (text t) ≡ first_char t
unfolding text
first_char-text [] = refl
first_char-text (c ∷ t) = ground arith

ku64_parse-text : (t : List ℕ) → ku64_parse (text t) ≡ ku64_parse t
unfolding ku64_parse
ku64_parse-text t = rw (parse_from-text t 0, first_char-text t) refl

-- For a 64-bit value on a console with an initialised serial line and a valid terminal, kprint_u64
-- sends a numeral down the line that ku64_parse reads as the value, and the terminal stays valid.
pub kprint_u64-ku64_parse :
    (value : ℕ) (c : Console)
    → value < 2 ^ 64
    → c.serial.initialized ≡ true
    → IsValid c.vga
    → (t : List ℕ) × ((kprint_u64 value c).serial.outs ≡ c.serial.outs ++ sent (crlf t))
      × (ku64_parse t ≡ some value)
      × IsValid (kprint_u64 value c).vga
unfolding kprint_u64 kprint
kprint_u64-ku64_parse value c fits ready v =
    let t = ku64_to_dec (replicate 32 0) 32 value in
    let (line, screen) = write-crlf t c ready v in
    (
      text t,
      line,
      ku64_parse-text t
          ∙ ku64_parse-ku64_to_dec (replicate 32 0) 32 value (omega arith) (omega arith) fits,
      screen,
    )

rainbow_from-serial :
    (index : ℕ) (t : List ℕ) (c : Console)
    → (rainbow_from index t c).serial ≡ Serial.write (text t) c.serial
unfolding rainbow_from text Serial.write write_char setcolor
rainbow_from-serial index [] c = refl
rainbow_from-serial index (ch ∷ t) c = elim (Bool-cases (ch == 0)) [
  | inl end ↦ rw end refl
  | inr more ↦ elim (Bool-cases (ch == 10)) [
    | inl newline ↦
        let same : ch ≡ 10 = ground arith in
        rw (more, newline) (rainbow_from-serial index t (write_char 10 c) ∙ rw same refl)
    | inr other ↦
        rw (more, other)
          (rainbow_from-serial (next_color index) t
            (write_char ch (setcolor (entry_color index black) c)))
  ]
]

-- A text in rainbow colours reaches the serial line as it would uncoloured, and leaves the colour
-- light grey on black.
kprint_rainbow-serial :
    (t : List ℕ) (c : Console)
    → ((kprint_rainbow t c).serial ≡ (kprint t c).serial)
      × ((kprint_rainbow t c).vga.terminal_color ≡ light_grey)
unfolding kprint_rainbow kprint reset_color setcolor
kprint_rainbow-serial t c =
    (rainbow_from-serial 1 t c ∙ sym (write-outputs t c).1, unfold Vga.setcolor entry_color in refl)
