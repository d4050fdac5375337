-- ===== src/Keyboard/Layout.antt =====
-- The US layout written out by the rows of the keyboard, beside the two tables of keyboard_map.h.
use Prim.Native.String.{String}
use simple_kernel.Base.{
  ℕ, ◌-◌, ◌<◌, ◌≡◌, refl, sym, Bool, true, false, leb, ◌==◌, ==_iff, if◌then◌else◌, get_or, str,
  all_below, all_below_sound,
}
use simple_kernel.Keyboard.{ascii_of}

-- A row of keys: the first one's scancode, and the characters without and with shift.
record Row : Type 0 where
  first : ℕ
  plain : String
  shifted : String

abbrev digits : Row
digits = record { first = 0x02; plain = "1234567890-="; shifted = "!@#$%^&*()_+" }

abbrev upper : Row
upper = record { first = 0x10; plain = "qwertyuiop[]"; shifted = "QWERTYUIOP{}" }

abbrev home : Row
home = record { first = 0x1E; plain = "asdfghjkl;'`"; shifted = "ASDFGHJKL:\"~" }

abbrev lower : Row
lower = record { first = 0x2B; plain = "\\zxcvbnm,./"; shifted = "|ZXCVBNM<>?" }

abbrev on_row : Row → Bool → ℕ → ℕ
on_row row shift c = get_or (str (if shift then row.shifted else row.plain)) (c - row.first) 0

-- The keys that give the same with shift and without: backspace, tab, return, * and the space bar.
-- No other key has a character.
unfoldable pub key_char : Bool → ℕ → ℕ
key_char shift c =
    if c == 0x0E
    then 8
    else if c == 0x0F
    then 9
    else if c == 0x1C
    then 10
    else if c == 0x37
    then b'*'
    else if c == 0x39
    then b' '
    else if leb 0x2B c
    then on_row lower shift c
    else if leb 0x1E c
    then on_row home shift c
    else if leb 0x10 c
    then on_row upper shift c
    else if leb 0x02 c
    then on_row digits shift c
    else 0

plain_table : all_below 256 (λ c. key_char false c == ascii_of false c) ≡ true
unfolding all_below key_char ascii_of str
plain_table = refl

shifted_table : all_below 256 (λ c. key_char true c == ascii_of true c) ≡ true
unfolding all_below key_char ascii_of str
shifted_table = refl

pub key_char-ascii_of : (shift : Bool) (c : ℕ) → c < 256 → ascii_of shift c ≡ key_char shift c
key_char-ascii_of true c h = sym ((==_iff _ _).0 (all_below_sound 256 _ c shifted_table h))
key_char-ascii_of false c h = sym ((==_iff _ _).0 (all_below_sound 256 _ c plain_table h))
