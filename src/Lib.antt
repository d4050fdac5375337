-- ===== src/Lib.antt =====
-- A small x86-64 kernel, as a library of models of its C code and theorems about them.
--
-- The parts and their files:
--   Boot      src/boot_info.h, src/boot.c: the boot information, the memory map
--   Pmm       src/pmm.c: the bitmap of physical frames (pmm_init, pmm_alloc_frames, pmm_free_frames
--             are init, alloc_frames, free_frames). It reads the boot information; the heap calls it
--   Heap      src/heap.c: the block list of kmalloc, kcalloc and kfree. The headers are a store from
--             addresses to headers, so that aliases of a block are visible
--   Kstring   src/kstring.c: memory and string routines, numbers to text and back
--   Event     src/input.h: the events that the two input drivers give
--   Keyboard  src/keyboard.c, src/keyboard_map.h: scancodes to events, a ring of 256 slots
--   Serial    src/serial.c: the serial port as the bytes to read and the list of port writes
--   Input     src/input.c: the serial line and the keyboard as one stream of events
--   Vga       src/vga.c, src/vga.h: a terminal of 256 rows of history and a viewport on the screen
--   Console   src/console.c: the terminal and the serial line as one output
--   Kprint    src/kprint.c: the printers, on the console
--   System    src/system.c: the ticks, the timer, sleep, reboot, halt and the emulator's exit
--   Gdt       src/gdt.c: the segment descriptors and the task state segment
--   Machine   the states of all parts side by side, as the parts below share them
--   Panic     src/panic.c: the two ways to stop with a message
--   Trap      src/trap.c, src/trap.h: the interrupt controllers and the dispatch of a vector
--   Kernel    src/kernel.c: kernel_main, up to the shell and behind it
--   Shell     src/shell.c: the ring of 32 history lines and the parser of a command line; its
--             children are Commands and Info (the cmd_ functions), Dispatch (the table and
--             execute_command), Editor (the inner loop of shell_run) and Session (the outer one)
--   Pci       src/pci.c: the configuration address and the enumeration of devices
--   Rtc       src/rtc.c: the clock, its two loops on the answers of the registers, the conversions
--   Cpuinfo   src/cpuinfo.c: the fields of the processor's signature
--   Idt       src/idt.c and the loop of src/trap.c that installs the trap stubs
--   Base      what they share: C arrays as lists, Boolean tests, widths, bits, integers
--
-- A component is a record of its static variables, and an operation is a function from its arguments
-- and that record to its result and the record afterwards. A function keeps the C name, less the
-- prefix that is the module here (kmalloc, kstrcmp and the like keep theirs). A local loop is a
-- function of its own, named for what it does. Addresses and fixed-width integers are natural numbers
-- with their wrap-around written out; a pointer is an address, 0 for NULL, or an index into an array.
-- What hardware answers (the configuration space, the processor's registers, the clock's registers) is
-- a parameter or a list of answers, and port writes are a list where the order of writes matters.
-- Waiting for input that has not come is `none`.
--
-- Loops with a bound recur on the rounds that are left. The walks over the heap's list, and the clock's
-- second loop, which the code does not bound, take fuel; for the heap's first-fit search and for its
-- coalescing, fuel above the length of the list is proved to be enough. The commands that use them take
-- the fuel as an argument. The parser of command lines goes at most `max_args + 1` rounds, since each
-- but the last fills an argument. Loops that wait for hardware go over the list of what comes: the
-- events of the editor, the ticks that wake system_sleep_ms (`wakes`), the statuses that
-- system_reboot reads (`controller`), the answers of the clock (`clock`). A computation that stops the
-- processor gives the state in which it stops.
--
-- Not modelled: the assembly files; the port and processor instructions in src/io.h and src/cpu.h, whose
-- effects are the lists of port writes, the interrupt flag and the arguments; port reads whose answer
-- nothing depends on; the bytes that allocdemo writes into its block; interrupts that arrive while a
-- command runs, apart from the ticks that end a sleep.
pub mod Base
pub mod Boot
pub mod Console
pub mod Cpuinfo
pub mod Event
pub mod Gdt
pub mod Heap
pub mod Idt
pub mod Input
pub mod Kernel
pub mod Keyboard
pub mod Kprint
pub mod Kstring
pub mod Machine
pub mod Panic
pub mod Pci
pub mod Pmm
pub mod Rtc
pub mod Serial
pub mod Shell
pub mod System
pub mod Trap
pub mod Vga
