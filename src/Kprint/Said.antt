-- ===== src/Kprint/Said.antt =====
-- What the printers of kprint.c tell the serial line, one after the other.
use simple_kernel.Base.{ℕ, ◌≡◌, sym, ◌∙◌, List, [], ◌∷◌, ◌++◌, replicate, str}
use simple_kernel.Console.{Console, setcolor}
use simple_kernel.Console.Output.{serial_write-append, write-outputs}
use simple_kernel.Kprint.{kprint, kprint_colored, kprint_hex, kprint_u64, reset_color}
use simple_kernel.Kprint.Numbers.{kprint-serial}
use simple_kernel.Kstring.{ku64_to_dec, ku64_to_hex}
use simple_kernel.Kstring.Compare.{text}
use simple_kernel.Serial

-- The serial line of the second console is that of the first, told a text more.
abbrev pub Said : List ℕ → Console → Console → Type 0
Said t c c' = c'.serial ≡ Serial.write t c.serial

pub Said-append : (t u : List ℕ) (c d e : Console) → Said t c d → Said u d e → Said (t ++ u) c e
Said-append t u c d e first second = second ∙ rw first (sym (serial_write-append t u c.serial))

pub kprint-Said : (t : List ℕ) (c : Console) → Said (text t) c (kprint t c)
kprint-Said t c = kprint-serial t c

pub kprint_colored-Said :
    (t : List ℕ) (fg bg : ℕ) (c : Console) → Said (text t) c (kprint_colored t fg bg c)
unfolding kprint_colored reset_color setcolor
kprint_colored-Said t fg bg c = (write-outputs t (setcolor _ c)).1

-- The numerals as they are printed.
pub dec_text : ℕ → List ℕ
dec_text value = text (ku64_to_dec (replicate 32 0) 32 value)

pub hex_text : ℕ → List ℕ
hex_text value = b'0' ∷ b'x' ∷ text (ku64_to_hex (replicate 32 0) 32 value)

pub kprint_u64-Said : (value : ℕ) (c : Console) → Said (dec_text value) c (kprint_u64 value c)
unfolding kprint_u64 dec_text
kprint_u64-Said value c = kprint-Said _ c

pub kprint_hex-Said : (value : ℕ) (c : Console) → Said (hex_text value) c (kprint_hex value c)
unfolding kprint_hex hex_text
kprint_hex-Said value c =
    Said-append (b'0' ∷ b'x' ∷ []) _ c (kprint (str "0x") c) (kprint_hex value c)
      (unfold str text in kprint-Said (str "0x") c) (kprint-Said _ (kprint (str "0x") c))
