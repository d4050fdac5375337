-- ===== src/Panic/Report.antt =====
-- The message of panic.c on the serial line, and the state that it leaves.
use simple_kernel.Base.{ℕ, ◌≡◌, refl, false, List, [], ◌∷◌, ◌++◌, str}
use simple_kernel.Console.{Console}
use simple_kernel.Kprint.{kprint, kprint_colored, kprint_hex}
use simple_kernel.Kprint.Said.{
  Said, Said-append, kprint-Said, kprint_colored-Said, kprint_hex-Said, hex_text,
}
use simple_kernel.Kstring.Compare.{text}
use simple_kernel.Machine.{Machine, Outcome}
use simple_kernel.Panic.{stop, panic, panicf}
use simple_kernel.System.{halt, qemu_exit}
use simple_kernel.Vga.{light_red, black}

-- The machine with another console, halted, with interrupts off, behind the write of the code to the
-- emulator's exit port.
unfoldable pub dead : ℕ → Console → Machine → Machine
dead code c m = record m {
  console = c;
  system = record m.system { interrupts = false; outs = m.system.outs ++ ((0xF4, code) ∷ []) };
}

-- What a run leaves that stops with a code, and tells the serial line a text before.
abbrev pub Stops : Outcome → ℕ → List ℕ → Machine → Type 0
Stops o code t m = (c : Console) × (o ≡ Outcome.halted (dead code c m)) × Said t m.console c

abbrev title : Console → Console
title c = kprint_colored (str "\nPANIC: ") light_red black c

title-Said : (c : Console) → Said (str "\nPANIC: ") c (title c)
title-Said c = unfold str text in kprint_colored-Said (str "\nPANIC: ") light_red black c

newline-Said : (c : Console) → Said (str "\n") c (kprint (str "\n") c)
newline-Said c = unfold str text in kprint-Said (str "\n") c

pub panic-Stops :
    (message : List ℕ) (m : Machine)
    → Stops (panic message m) 0x21 (str "\nPANIC: " ++ (text message ++ str "\n")) m
unfolding panic stop dead halt qemu_exit
panic-Stops message m =
    let a = title m.console in
    let b = kprint message a in
    let c = kprint (str "\n") b in
    (
      c,
      refl,
      Said-append (str "\nPANIC: ") (text message ++ str "\n") m.console a c (title-Said m.console)
          (Said-append (text message) (str "\n") a b c (kprint-Said message a) (newline-Said b)),
    )

pub panicf-Stops :
    (prefix : List ℕ) (value : ℕ) (m : Machine)
    → Stops
        (panicf prefix value m)
        0x21
        (str "\nPANIC: " ++ (text prefix ++ (hex_text value ++ str "\n")))
        m
unfolding panicf stop dead halt qemu_exit
panicf-Stops prefix value m =
    let a = title m.console in
    let b = kprint prefix a in
    let c = kprint_hex value b in
    let d = kprint (str "\n") c in
    (
      d,
      refl,
      Said-append (str "\nPANIC: ") (text prefix ++ (hex_text value ++ str "\n")) m.console a d
          (title-Said m.console)
          (Said-append (text prefix) (hex_text value ++ str "\n") a b d (kprint-Said prefix a) (
            Said-append (hex_text value) (str "\n") b c d (kprint_hex-Said value b)
              (newline-Said c))),
    )
