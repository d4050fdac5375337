-- ===== src/Trap/Report.antt =====
-- The dump of trap.c as a text: the fields of a frame in their order.
use Prim.Native.String.{String}
use simple_kernel.Base.{
  ℕ, ◌≡◌, refl, List, [], ◌∷◌, ◌++◌, ◌==◌, if◌then◌else◌, Bool-cases, inl, inr, str, get_or,
}
use simple_kernel.Console.{Console}
use simple_kernel.Kprint.{kprint, kprint_colored, kprint_hex, kprint_u64}
use simple_kernel.Kprint.Said.{
  Said, Said-append, kprint-Said, kprint_colored-Said, kprint_hex-Said, kprint_u64-Said, hex_text,
  dec_text,
}
use simple_kernel.Kstring.Compare.{text}
use simple_kernel.Machine.{Machine}
use simple_kernel.Panic.{stop, panicf}
use simple_kernel.Panic.Report.{Stops, dead, panicf-Stops}
use simple_kernel.System.{halt, qemu_exit}
use simple_kernel.Trap.{TrapFrame, show_hex, dump_frame, exception, exception_names}
use simple_kernel.Vga.{light_red, black}

-- Names with values, each value as a hexadecimal numeral.
pub values_text : List (String × ℕ) → List ℕ
values_text [] = str "\n"
values_text ((name, value) ∷ values) = text (str name) ++ (hex_text value ++ values_text values)

-- The registers that are shown; the address of the fault only with a page fault.
unfoldable pub registers : TrapFrame → List (String × ℕ)
registers f =
    ("\n rax=", f.rax)
    ∷ (" rbx=", f.rbx)
    ∷ (" rcx=", f.rcx)
    ∷ (" rdx=", f.rdx)
    ∷ ("\n rsi=", f.rsi)
    ∷ (" rdi=", f.rdi)
    ∷ (" rbp=", f.rbp)
    ∷ ("\n r8=", f.r8)
    ∷ (" r9=", f.r9)
    ∷ (" r10=", f.r10)
    ∷ (" r11=", f.r11)
    ∷ ("\n r12=", f.r12)
    ∷ (" r13=", f.r13)
    ∷ (" r14=", f.r14)
    ∷ (" r15=", f.r15)
    ∷ []

unfoldable pub shown : TrapFrame → ℕ → List (String × ℕ)
shown f cr2 =
    (" err=", f.error_code)
    ∷ (" rip=", f.rip)
    ∷ (" cs=", f.cs)
    ∷ (" rflags=", f.rflags)
    ∷ (if f.vector == 14 then (" cr2=", cr2) ∷ registers f else registers f)

pub frame_text : TrapFrame → ℕ → List ℕ
frame_text f cr2 = str " vector=" ++ (dec_text f.vector ++ values_text (shown f cr2))

-- The values printed one after the other, and the newline.
show_values : List (String × ℕ) → Console → Console
show_values [] c = kprint (str "\n") c
show_values ((name, value) ∷ values) c = show_values values (show_hex (str name) value c)

show_values-Said :
    (values : List (String × ℕ)) (c : Console) → Said (values_text values) c (show_values values c)
unfolding show_values values_text show_hex
show_values-Said [] c = unfold str text in kprint-Said (str "\n") c
show_values-Said ((name, value) ∷ values) c =
    let a = kprint (str name) c in
    let b = kprint_hex value a in
    let d = show_values values b in
    Said-append (text (str name)) (hex_text value ++ values_text values) c a d
      (kprint-Said (str name) c)
      (Said-append (hex_text value) (values_text values) a b d (kprint_hex-Said value a)
        (show_values-Said values b))

dump_frame-show_values :
    (f : TrapFrame) (cr2 : ℕ) (c : Console)
    → dump_frame f cr2 c
      ≡ show_values (shown f cr2) (kprint_u64 f.vector (kprint (str " vector=") c))
unfolding dump_frame shown registers show_values
dump_frame-show_values f cr2 c = elim (Bool-cases (f.vector == 14)) [
  | inl fault ↦ rw fault refl
  | inr other ↦ rw other refl
]

pub dump_frame-Said :
    (f : TrapFrame) (cr2 : ℕ) (c : Console) → Said (frame_text f cr2) c (dump_frame f cr2 c)
unfolding frame_text
dump_frame-Said f cr2 c =
    let a = kprint (str " vector=") c in
    let b = kprint_u64 f.vector a in
    rw (dump_frame-show_values f cr2 c) (
      Said-append (str " vector=") (dec_text f.vector ++ values_text (shown f cr2)) c a
        (show_values (shown f cr2) b) (unfold str text in kprint-Said (str " vector=") c)
        (Said-append (dec_text f.vector) (values_text (shown f cr2)) a b
          (show_values (shown f cr2) b) (kprint_u64-Said f.vector a)
          (show_values-Said (shown f cr2) b)))

-- What an exception says: its name, and the frame.
pub exception_text : TrapFrame → ℕ → List ℕ
exception_text f cr2 =
    str "\nEXCEPTION: " ++ (text (str (get_or exception_names f.vector "")) ++ frame_text f cr2)

pub exception-Stops :
    (f : TrapFrame) (cr2 : ℕ) (m : Machine)
    → Stops (exception f cr2 m) 0x22 (exception_text f cr2) m
unfolding exception exception_text stop dead halt qemu_exit
exception-Stops f cr2 m =
    let name = str (get_or exception_names f.vector "") in
    let a = kprint_colored (str "\nEXCEPTION: ") light_red black m.console in
    let b = kprint name a in
    let c = dump_frame f cr2 b in
    (
      c,
      refl,
      Said-append (str "\nEXCEPTION: ") (text name ++ frame_text f cr2) m.console a c
          (unfold str text in kprint_colored-Said (str "\nEXCEPTION: ") light_red black m.console)
          (Said-append (text name) (frame_text f cr2) a b c (kprint-Said name a)
            (dump_frame-Said f cr2 b)),
    )

-- What a vector that no line has says.
pub unhandled_text : ℕ → List ℕ
unhandled_text vector = str "\nPANIC: Unhandled IRQ vector " ++ (hex_text vector ++ str "\n")

pub unhandled-Stops :
    (vector : ℕ) (m : Machine)
    → Stops (panicf (str "Unhandled IRQ vector ") vector m) 0x21 (unhandled_text vector) m
unfolding unhandled_text
unhandled-Stops vector m = unfold str text in panicf-Stops (str "Unhandled IRQ vector ") vector m
