-- ===== src/Boot.antt =====
-- boot_info.h and boot.c: what the boot loader hands over, and the accessors of the memory map.
use Prim.Native.String.{String}
use simple_kernel.Base.{ℕ, Option, none, some, ◌==◌, if◌then◌else◌}

-- `memory_map_entry_t`
pub record MemoryMapEntry : Type 0 where
  pub base : ℕ
  pub length : ℕ
  pub type : ℕ
  pub acpi : ℕ

-- `boot_info_t`
pub record BootInfo : Type 0 where
  pub magic : ℕ
  pub version : ℕ
  pub memory_map_entries : ℕ
  pub reserved0 : ℕ
  pub memory_map_addr : ℕ
  pub kernel_phys_start : ℕ
  pub kernel_phys_end : ℕ
  pub kernel_virt_start : ℕ
  pub pml4_addr : ℕ

abbrev pub boot_info_magic : ℕ
boot_info_magic = 0xB007B007

-- `sizeof` of the two, whose fields need no padding.
abbrev pub sizeof_entry : ℕ
sizeof_entry = 24

abbrev pub sizeof_boot_info : ℕ
sizeof_boot_info = 56

-- The static `current_boot_info` is the first argument, `none` for a null pointer, and so is
-- `count`, which stands for what it points at. The results are the address and `*count` afterwards.
unfoldable pub get_memory_map : Option BootInfo → Option ℕ → ℕ × Option ℕ
get_memory_map none none = (0, none)
get_memory_map none (some _) = (0, some 0)
get_memory_map (some info) none = (info.memory_map_addr, none)
get_memory_map (some info) (some _) = (info.memory_map_addr, some info.memory_map_entries)

unfoldable pub memory_type_name : ℕ → String
memory_type_name type =
    if type == 1
    then "usable"
    else if type == 2
    then "reserved"
    else if type == 3
    then "acpi_reclaim"
    else if type == 4
    then "acpi_nvs"
    else if type == 5
    then "bad_memory"
    else "unknown"
