-- ===== src/Pmm/Tests.antt =====
-- The theorems on pmm.c at concrete allocators and boot information.
use simple_kernel.Base.{
  ℕ, ◌*◌, ◌≡◌, refl, ◌⊎◌, not, ◌||◌, arith, [], ◌∷◌, length-replicate, replicate,
}
use simple_kernel.Boot.{MemoryMapEntry, BootInfo, boot_info_magic}
use simple_kernel.Pmm.{
  Pmm, page_size, max_frames, bit_test, alloc_frames, alloc_scan, free_frames, init,
}
use simple_kernel.Pmm.Alloc.{Found, Full, alloc_frames-first_fit}
use simple_kernel.Pmm.Disjoint.{AllApart, alloc_all, alloc_all-AllApart}
use simple_kernel.Pmm.Bitmap.{count_free}
use simple_kernel.Pmm.Free.{Restored, free_frames-alloc_frames}
use simple_kernel.Pmm.Init.{Fits, reserved, usable, init-IsValid}
use simple_kernel.Pmm.Valid.{IsValid}

-- Eight frames, of which 3, 5 and 6 are free.
abbrev eight_frames : Pmm
eight_frames = record {
  frame_bitmap = 0x97 ∷ [];
  frame_limit = 8;
  total_frames = 8;
  free_frames = 3;
}

eight_frames-IsValid : IsValid eight_frames
eight_frames-IsValid = record {
  covers = omega arith;
  small = omega arith;
  total = refl;
  counted = unfold count_free bit_test in refl;
}

alloc_frames-first_fit_example :
    Found 2 eight_frames (alloc_frames 2 eight_frames)
    ⊎ Full 2 eight_frames (alloc_frames 2 eight_frames)
alloc_frames-first_fit_example =
    alloc_frames-first_fit 2 eight_frames eight_frames-IsValid (omega arith)

frame_five : (alloc_frames 2 eight_frames).0 ≡ 5 * page_size
unfolding alloc_frames alloc_scan bit_test
frame_five = refl

free_frames-alloc_frames_example :
    Restored eight_frames
      (free_frames (alloc_frames 2 eight_frames).0 2 (alloc_frames 2 eight_frames).1)
free_frames-alloc_frames_example =
    free_frames-alloc_frames 2 eight_frames eight_frames-IsValid (omega arith)
      (λ e. omega (arith, e, frame_five))

-- One usable entry of 16 MiB behind the first, and the kernel in it.
abbrev map_entry : ℕ → MemoryMapEntry
map_entry j = record { base = 0x100000; length = 0x1000000; type = 1; acpi = 0 }

abbrev boot_info : BootInfo
boot_info = record {
  magic = boot_info_magic;
  version = 1;
  memory_map_entries = 1;
  reserved0 = 0;
  memory_map_addr = 0x8000;
  kernel_phys_start = 0x100000;
  kernel_phys_end = 0x140000;
  kernel_virt_start = 0;
  pml4_addr = 0x1000;
}

abbrev at_reset : Pmm
at_reset = record {
  frame_bitmap = replicate 32768 0;
  frame_limit = max_frames;
  total_frames = 0;
  free_frames = 0;
}

boot_info-Fits : Fits 0x7000 boot_info map_entry
boot_info-Fits = record {
  map_entries = λ j lt ram. omega arith;
  kernel_start = omega arith;
  kernel_end = omega arith;
  info_end = omega arith;
  map_end = omega arith;
}

-- Frame 512 is in the entry, behind the kernel.
init-IsValid_example :
    IsValid (init 0x7000 boot_info map_entry at_reset)
    × (bit_test (init 0x7000 boot_info map_entry at_reset).frame_bitmap 512
        ≡ (reserved 0x7000 boot_info 512 || not (usable map_entry 1 0 512)))
init-IsValid_example =
    init-IsValid 0x7000 boot_info map_entry at_reset (length-replicate {A = ℕ} 32768 0) refl
      boot_info-Fits 512 (omega arith)

-- Three calls, of which the last finds nothing.
alloc_all-AllApart_example :
    AllApart (alloc_all (2 ∷ 1 ∷ 1 ∷ []) eight_frames).0
    × IsValid (alloc_all (2 ∷ 1 ∷ 1 ∷ []) eight_frames).1
alloc_all-AllApart_example = alloc_all-AllApart (2 ∷ 1 ∷ 1 ∷ []) eight_frames eight_frames-IsValid
