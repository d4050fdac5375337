-- ===== src/Shell/Info.antt =====
-- The commands of shell.c that read another part of the kernel. What the hardware gives is an
-- argument.
use simple_kernel.Base.{
  ℕ, zero, suc, ◌+◌, Bool, Option, none, some, List, [], ◌∷◌, ltb, ◌==◌, if◌then◌else◌, length,
  ◌||◌,
}
use simple_kernel.Boot.{MemoryMapEntry, get_memory_map, memory_type_name}
use simple_kernel.Console.{Console}
use simple_kernel.Cpuinfo.{Registers, CpuInfo, cpu_info_read}
use simple_kernel.Heap
use simple_kernel.Heap.{Heap, kmalloc, kfree}
use simple_kernel.Kprint.{kprint, kprint_u64, kprint_hex}
use simple_kernel.Machine.{Machine}
use simple_kernel.Pci.{Device, enumerate, class_name}
use simple_kernel.Pmm
use simple_kernel.Rtc.{Time, read_time}
use simple_kernel.Shell.Commands.{Answers, Ran, Args, shows, say, number_arg}

-- A number of two digits.
pub two_digits : ℕ → Console → Console
two_digits n c = kprint_u64 n (if ltb n 10 then say "0" c else c)

pub show_time : Time → Console → Console
show_time now c =
    let date =
      two_digits now.day
        (say "-" (two_digits now.month (say "-" (kprint_u64 now.year (say "RTC time: " c))))) in
    let time =
      two_digits now.second
        (say ":" (two_digits now.minute (say ":" (two_digits now.hour (say " " date))))) in
    say "\n" time

-- `rtc_read_time` returns 1, since the pointer is not null.
pub cmd_time : ℕ → Answers → Args → Machine → Ran
cmd_time fuel answers args m = elim (read_time fuel answers.clock) [
  | none ↦ Ran.waits
  | some now ↦ shows (show_time now) m
]

pub yes_no : Bool → Console → Console
yes_no b c = if b then say "yes" c else say "no" c

pub show_cpu : CpuInfo → Console → Console
show_cpu info c =
    let a =
      kprint_u64 info.family (say "\nCPU family: " (kprint info.vendor (say "CPU vendor: " c))) in
    let b =
      kprint_u64 info.stepping
        (say "\nCPU stepping: " (kprint_u64 info.model (say "\nCPU model: " a))) in
    let d = yes_no info.apic_present (say "\nAPIC present: " b) in
    say "\n" (yes_no info.msr_supported (say "\nMSR supported: " d))

pub cmd_cpuinfo : (ℕ → Registers) → Args → Machine → Ran
cmd_cpuinfo cpuid args m = shows (show_cpu (cpu_info_read cpuid)) m

abbrev pub max_functions : ℕ
max_functions = 64

pub show_device : Device → Console → Console
show_device d c =
    let a =
      kprint_u64 d.function
        (say " func=" (kprint_u64 d.slot (say " slot=" (kprint_u64 d.bus (say "bus=" c))))) in
    let b = kprint_hex d.device_id (say " device=" (kprint_hex d.vendor_id (say " vendor=" a))) in
    say "\n" (say (class_name d.class_code d.subclass) (say " class=" b))

pub show_devices : List Device → Console → Console
show_devices [] c = c
show_devices (d ∷ devices) c = show_devices devices (show_device d c)

-- `u8 count` holds the number of devices, which is at most 64.
pub cmd_pci : (ℕ → ℕ) → Args → Machine → Ran
cmd_pci config args m =
    let devices = enumerate config max_functions in
    shows
      (λ c. show_devices devices (say "\n" (kprint_u64 (length devices) (say "PCI devices: " c)))) m

pub show_three :
    (Console → Console) × ℕ → (Console → Console) × ℕ → (Console → Console) × ℕ → Console → Console
show_three (first, a) (second, b) (third, d) c =
    say "\n" (kprint_u64 d (third (kprint_u64 b (second (kprint_u64 a (first c))))))

pub cmd_meminfo : Args → Machine → Ran
cmd_meminfo args m =
    shows
      (show_three (say "PMM total bytes: ", Pmm.total_bytes m.heap.frames)
        (say "\nPMM free bytes: ", Pmm.free_bytes m.heap.frames)
        (say "\nPMM reserved bytes: ", Pmm.reserved_bytes m.heap.frames))
      m

pub cmd_heapinfo : Args → Machine → Ran
cmd_heapinfo args m =
    shows
      (show_three (say "Heap total bytes: ", m.heap.total_bytes)
        (say "\nHeap used bytes: ", m.heap.used_bytes)
        (say "\nHeap free bytes: ", Heap.free_bytes m.heap))
      m

-- What stands behind the allocation. The bytes that the command writes into the block are not
-- modelled.
pub demo_block : ℕ → ℕ → ℕ → Machine → Ran
demo_block fuel size ptr m = elim (kfree fuel ptr m.heap) [
  | none ↦ Ran.waits
  | some h ↦
      shows
        (λ c.
          say "Freed allocation\n"
            (say "\n" (kprint_hex ptr (say " bytes at " (kprint_u64 size (say "Allocated " c))))))
        (record m { heap = h })
]

pub cmd_allocdemo : ℕ → Args → Machine → Ran
cmd_allocdemo fuel args m = elim (number_arg 64 args) [
  | none ↦ shows (say "Usage: allocdemo [bytes]\n") m
  | some size ↦ elim (kmalloc fuel size m.heap) [
    | none ↦ Ran.waits
    | some (ptr, h) ↦
        let after = record m { heap = h } in
        if ptr == 0 then shows (say "Allocation failed\n") after else demo_block fuel size ptr after
  ]
]

pub show_entry : ℕ → MemoryMapEntry → Console → Console
show_entry i e c =
    let a = kprint_hex e.base (say "] base=" (kprint_u64 i (say "[" c))) in
    let b = kprint_hex e.length (say " len=" a) in
    say "\n" (say (memory_type_name e.type) (say " type=" b))

pub show_entries : ℕ → ℕ → (ℕ → MemoryMapEntry) → Console → Console
show_entries zero i entries c = c
show_entries (suc rounds) i entries c =
    show_entries rounds (i + 1) entries (show_entry i (entries i) c)

-- What `count` holds afterwards; it is 0 in front of the call.
abbrev count_after : Option ℕ → ℕ
count_after none = 0
count_after (some count) = count

pub cmd_mmap : (ℕ → MemoryMapEntry) → Args → Machine → Ran
cmd_mmap entries args m =
    let (addr, stored) = get_memory_map m.boot (some 0) in
    let count = count_after stored in
    if addr == 0 || count == 0
    then shows (say "No memory map available\n") m
    else shows (show_entries count 0 entries) m
