-- ===== src/Trap.antt =====
-- trap.h and trap.c: the interrupt controllers, the installation of the stubs, and the dispatch of a
-- vector. What the hardware gives is in the arguments: the byte at the keyboard's port and the
-- address of a page fault.
mod Tests
pub mod Interrupts
pub mod Report
use Prim.Native.String.{String}
use simple_kernel.Base.{ℕ, ◌+◌, List, [], ◌∷◌, ltb, leb, ◌==◌, if◌then◌else◌, get_or, str}
use simple_kernel.Console.{Console}
use simple_kernel.Idt
use simple_kernel.Idt.{Idt, install_stubs}
use simple_kernel.Keyboard
use simple_kernel.Keyboard.{process_scancode}
use simple_kernel.Kprint.{kprint, kprint_colored, kprint_u64, kprint_hex}
use simple_kernel.Machine.{Machine, Outcome, on_console, on_system}
use simple_kernel.Panic.{stop, panicf}
use simple_kernel.System.{System, outb, timer_tick}
use simple_kernel.Vga.{light_red, black}

-- `trap_frame_t`
pub record TrapFrame : Type 0 where
  pub r15 : ℕ
  pub r14 : ℕ
  pub r13 : ℕ
  pub r12 : ℕ
  pub r11 : ℕ
  pub r10 : ℕ
  pub r9 : ℕ
  pub r8 : ℕ
  pub rbp : ℕ
  pub rdi : ℕ
  pub rsi : ℕ
  pub rdx : ℕ
  pub rcx : ℕ
  pub rbx : ℕ
  pub rax : ℕ
  pub vector : ℕ
  pub error_code : ℕ
  pub rip : ℕ
  pub cs : ℕ
  pub rflags : ℕ

abbrev pub pic1_command : ℕ
pic1_command = 0x20

abbrev pub pic1_data : ℕ
pic1_data = 0x21

abbrev pub pic2_command : ℕ
pic2_command = 0xA0

abbrev pub pic2_data : ℕ
pic2_data = 0xA1

pub exception_names : List String
exception_names =
    "Divide Error" ∷ "Debug" ∷ "NMI" ∷ "Breakpoint" ∷ "Overflow" ∷ "Bound Range" ∷ "Invalid Opcode"
    ∷ "Device Not Available" ∷ "Double Fault" ∷ "Coprocessor Segment" ∷ "Invalid TSS"
    ∷ "Segment Not Present" ∷ "Stack Fault" ∷ "General Protection" ∷ "Page Fault" ∷ "Reserved"
    ∷ "x87 Floating Point" ∷ "Alignment Check" ∷ "Machine Check" ∷ "SIMD Floating Point"
    ∷ "Virtualization" ∷ "Control Protection" ∷ "Reserved" ∷ "Reserved" ∷ "Reserved" ∷ "Reserved"
    ∷ "Reserved" ∷ "Reserved" ∷ "Hypervisor Injection" ∷ "VMM Communication" ∷ "Security"
    ∷ "Reserved" ∷ []

pub pic_remap : System → System
pic_remap s =
    let a = outb pic2_command 0x11 (outb pic1_command 0x11 s) in
    let b = outb pic2_data 0x28 (outb pic1_data 0x20 a) in
    let c = outb pic2_data 0x02 (outb pic1_data 0x04 b) in
    let d = outb pic2_data 0x01 (outb pic1_data 0x01 c) in
    outb pic2_data 0xFF (outb pic1_data 0xF8 d)

pub pic_send_eoi : ℕ → System → System
pic_send_eoi irq s = outb pic1_command 0x20 (if leb 8 irq then outb pic2_command 0x20 s else s)

-- The arguments are the address of the table and those of the stubs. The register is loaded with the
-- table's limit and base.
unfoldable pub init : ℕ → (ℕ → ℕ) → Machine → Machine
init table_addr stub m = record m {
  idt = install_stubs 48 0 stub (Idt.init table_addr m.idt);
  system = pic_remap m.system;
}

-- One name and one value of the dump.
pub show_hex : List ℕ → ℕ → Console → Console
show_hex name value c = kprint_hex value (kprint name c)

pub dump_frame : TrapFrame → ℕ → Console → Console
dump_frame f cr2 c =
    let a = kprint_u64 f.vector (kprint (str " vector=") c) in
    let b =
      show_hex (str " cs=") f.cs
        (show_hex (str " rip=") f.rip (show_hex (str " err=") f.error_code a)) in
    let d = show_hex (str " rflags=") f.rflags b in
    let e = if f.vector == 14 then show_hex (str " cr2=") cr2 d else d in
    let g = show_hex (str " rbx=") f.rbx (show_hex (str "\n rax=") f.rax e) in
    let h = show_hex (str " rdx=") f.rdx (show_hex (str " rcx=") f.rcx g) in
    let i =
      show_hex (str " rbp=") f.rbp
        (show_hex (str " rdi=") f.rdi (show_hex (str "\n rsi=") f.rsi h)) in
    let j = show_hex (str " r9=") f.r9 (show_hex (str "\n r8=") f.r8 i) in
    let k = show_hex (str " r11=") f.r11 (show_hex (str " r10=") f.r10 j) in
    let l = show_hex (str " r13=") f.r13 (show_hex (str "\n r12=") f.r12 k) in
    kprint (str "\n") (show_hex (str " r15=") f.r15 (show_hex (str " r14=") f.r14 l))

-- The code for the vectors below 32.
pub exception : TrapFrame → ℕ → Machine → Outcome
exception f cr2 m = stop 0x22 (
    on_console
      (λ c. dump_frame f cr2 (
        kprint (str (get_or exception_names f.vector ""))
          (kprint_colored (str "\nEXCEPTION: ") light_red black c)))
      m)

-- `keyboard_handler`, with the byte that the port gives.
pub keyboard_handler : ℕ → Machine → Machine
keyboard_handler scancode m = record m { keyboard = process_scancode scancode m.keyboard }

pub dispatch : TrapFrame → ℕ → ℕ → Machine → Outcome
dispatch f scancode cr2 m =
    if ltb f.vector 32
    then exception f cr2 m
    else if f.vector == 32
    then Outcome.returned (on_system (pic_send_eoi 0) (on_system timer_tick m))
    else if f.vector == 33
    then Outcome.returned (on_system (pic_send_eoi 1) (keyboard_handler scancode m))
    else if f.vector == 39
    then Outcome.returned (on_system (pic_send_eoi 7) m)
    else panicf (str "Unhandled IRQ vector ") f.vector m
