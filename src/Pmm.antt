-- ===== src/Pmm.antt =====
-- pmm.c: the allocator of physical page frames. The bitmap is the list of its bytes; the other
-- static variables are the fields beside it.
mod Tests
pub mod Align
pub mod Alloc
pub mod Bitmap
pub mod Disjoint
pub mod Free
pub mod Init
pub mod Marks
pub mod Range
pub mod Valid
use simple_kernel.Base.{
  ℕ, zero, suc, ◌+◌, ◌-◌, ◌*◌, ◌/◌, ◌%◌, ◌^◌, Bool, true, false, ◌||◌, not, List, bit_and, bit_or,
  ltb, leb, ◌==◌, if◌then◌else◌, u8, u64, add64, sub64, get_or, set, length,
}
use simple_kernel.Boot.{MemoryMapEntry, BootInfo, sizeof_entry, sizeof_boot_info}
use simple_kernel.Kstring.{kmemset}

abbrev pub page_size : ℕ
page_size = 4096

abbrev pub max_memory : ℕ
max_memory = 2 ^ 30

abbrev pub max_frames : ℕ
max_frames = max_memory / page_size

pub record Pmm : Type 0 where
  pub frame_bitmap : List ℕ
  pub frame_limit : ℕ
  pub total_frames : ℕ
  pub free_frames : ℕ

-- The three functions take the bitmap that they read or update.
pub bit_set : List ℕ → ℕ → List ℕ
bit_set m frame = set m (frame / 8) (bit_or (get_or m (frame / 8) 0) (u8 (2 ^ (frame % 8))))

-- `~` is taken at the width of `unsigned`, and the cast cuts it to a byte.
pub bit_clear : List ℕ → ℕ → List ℕ
bit_clear m frame =
    set m (frame / 8) (bit_and (get_or m (frame / 8) 0) (u8 (2 ^ 32 - 1 - 2 ^ (frame % 8))))

unfoldable pub bit_test : List ℕ → ℕ → Bool
bit_test m frame = not (bit_and (get_or m (frame / 8) 0) (u8 (2 ^ (frame % 8))) == 0)

-- The loops go over the `rounds` frames that are left.
pub reserve_pages : ℕ → ℕ → Pmm → Pmm
reserve_pages zero addr s = s
reserve_pages (suc rounds) addr s =
    let frame = addr / page_size in
    reserve_pages rounds (addr + page_size) (
      if bit_test s.frame_bitmap frame then s else record s {
        frame_bitmap = bit_set s.frame_bitmap frame;
        free_frames = sub64 s.free_frames 1;
      })

pub free_pages : ℕ → ℕ → Pmm → Pmm
free_pages zero addr s = s
free_pages (suc rounds) addr s =
    let frame = addr / page_size in
    free_pages rounds (addr + page_size) (
      if bit_test s.frame_bitmap frame
      then record s {
        frame_bitmap = bit_clear s.frame_bitmap frame;
        free_frames = add64 s.free_frames 1;
      }
      else s)

-- `~(PMM_PAGE_SIZE - 1)` at 64 bits.
abbrev page_mask : ℕ
page_mask = 2 ^ 64 - 1 - (page_size - 1)

pub page_align_up : ℕ → ℕ
page_align_up value = bit_and (sub64 (add64 value page_size) 1) page_mask

pub page_align_down : ℕ → ℕ
page_align_down value = bit_and value page_mask

-- How often `for (addr = start; addr < end; addr += PMM_PAGE_SIZE)` goes round.
abbrev pub page_rounds : ℕ → ℕ → ℕ
page_rounds start end = (end - start + (page_size - 1)) / page_size

abbrev pub clip : ℕ → ℕ
clip end = if ltb max_memory end then max_memory else end

pub reserve_range : ℕ → ℕ → Pmm → Pmm
reserve_range base len s =
    let start = page_align_down base in
    let end = page_align_up (add64 base len) in
    if leb max_memory start then s else reserve_pages (page_rounds start (clip end)) start s

pub free_range : ℕ → ℕ → Pmm → Pmm
free_range base len s =
    let start = page_align_up base in
    let end = page_align_down (add64 base len) in
    if leb end start || leb max_memory start
    then s
    else free_pages (page_rounds start (clip end)) start s

-- The memory map is an array at `memory_map_addr`; `entries` reads it.
pub init_entries : ℕ → ℕ → (ℕ → MemoryMapEntry) → Pmm → Pmm
init_entries zero i entries s = s
init_entries (suc rounds) i entries s =
    let e = entries i in
    init_entries rounds (i + 1) entries (if e.type == 1 then free_range e.base e.length s else s)

-- The state in front of the first loop of `pmm_init`.
pub cleared : Pmm → Pmm
cleared s = record s {
  frame_bitmap = kmemset 0 0xFF (length s.frame_bitmap) s.frame_bitmap;
  total_frames = s.frame_limit;
  free_frames = 0;
}

-- `info_addr` is the address of `*boot_info`.
pub init : ℕ → BootInfo → (ℕ → MemoryMapEntry) → Pmm → Pmm
init info_addr info entries s =
    let mapped = init_entries info.memory_map_entries 0 entries (cleared s) in
    let low = reserve_range 0 0x100000 mapped in
    let kernel =
      reserve_range info.kernel_phys_start (sub64 info.kernel_phys_end info.kernel_phys_start)
        low in
    let handed = reserve_range info_addr sizeof_boot_info kernel in
    let map =
      reserve_range info.memory_map_addr (u64 (sizeof_entry * info.memory_map_entries)) handed in
    reserve_range 0x1000 0x4000 map

-- The frames from `frame` on get their bits set.
pub set_run : ℕ → ℕ → List ℕ → List ℕ
set_run zero frame m = m
set_run (suc n) frame m = set_run n (frame + 1) (bit_set m frame)

-- The search, with `rounds` frames left. The result is the address that is returned, 0 for NULL.
-- Each counter is at most `frame_limit`, so none wraps.
pub alloc_scan : ℕ → ℕ → ℕ → ℕ → ℕ → Pmm → ℕ × Pmm
alloc_scan count zero frame run_start run_length s = (0, s)
alloc_scan count (suc rounds) frame run_start run_length s = elim (bit_test s.frame_bitmap frame) [
  | false ↦
      let start = if run_length == 0 then frame else run_start in
      elim (run_length + 1 == count) [
        | true ↦ (
          u64 (start * page_size),
          record s {
            frame_bitmap = set_run count start s.frame_bitmap;
            free_frames = sub64 s.free_frames count;
          },
        )
        | false ↦ alloc_scan count rounds (frame + 1) start (run_length + 1) s
      ]
  | true ↦ alloc_scan count rounds (frame + 1) run_start 0 s
]

pub alloc_frames : ℕ → Pmm → ℕ × Pmm
alloc_frames count s =
    if count == 0 || ltb s.frame_limit count then (0, s) else alloc_scan count s.frame_limit 0 0 0 s

pub alloc_frame : Pmm → ℕ × Pmm
alloc_frame s = alloc_frames 1 s

-- `frame + i` stays at most `frame_limit`, where the loop stops.
pub free_run : ℕ → ℕ → Pmm → Pmm
free_run zero current s = s
free_run (suc n) current s =
    elim (leb s.frame_limit current || not (bit_test s.frame_bitmap current)) [
      | true ↦ s
      | false ↦ free_run n (current + 1) (record s {
        frame_bitmap = bit_clear s.frame_bitmap current;
        free_frames = add64 s.free_frames 1;
      })
    ]

pub free_frames : ℕ → ℕ → Pmm → Pmm
free_frames frame_ptr count s =
    if frame_ptr == 0 || count == 0
    then s
    else if leb s.frame_limit (frame_ptr / page_size)
    then s
    else free_run count (frame_ptr / page_size) s

pub free_frame : ℕ → Pmm → Pmm
free_frame frame_ptr s = free_frames frame_ptr 1 s

pub total_bytes : Pmm → ℕ
total_bytes s = u64 (s.total_frames * page_size)

pub free_bytes : Pmm → ℕ
free_bytes s = u64 (s.free_frames * page_size)

pub reserved_bytes : Pmm → ℕ
reserved_bytes s = sub64 (total_bytes s) (free_bytes s)
