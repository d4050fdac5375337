-- ===== src/Heap/Tests.antt =====
-- The theorems on heap.c at a concrete heap.
use simple_kernel.Base.{
  ℕ, all_below, all_below_sound, ◌<◌, ◌≤◌, inl, inr, ◌+◌, ◌-◌, ◌*◌, ◌/◌, ◌^◌, ◌≡◌, refl, arith,
  true, false, some, [], ◌∷◌, leb, ◌==◌, if◌then◌else◌,
}
use simple_kernel.Heap.{Heap, Header, align_up, kmalloc, kfree, header_size}
use simple_kernel.Heap.Align.{align_up-bounds}
use simple_kernel.Heap.Blocks.{IsBlocks}
use simple_kernel.Heap.Fit.{first_fit}
use simple_kernel.Heap.Exhausted.{rounded, pages_needed, kmalloc-exhausted}
use simple_kernel.Heap.Joined.{Block, Has, view}
use simple_kernel.Heap.Claim.{IsLaid}
use simple_kernel.Heap.Malloc.{IsAllocated, kmalloc-IsAllocated}
use simple_kernel.Heap.Release.{Released, kfree-Released}
use simple_kernel.Pmm.{bit_test}
use simple_kernel.Pmm.Alloc.{Blocked}
use simple_kernel.Pmm.Bitmap.{count_free}
use simple_kernel.Pmm.Valid.{IsValid}

align_up-bounds_example :
    align_up (2 ^ 64 - 1)
    ≡ (if leb (2 ^ 64 - 1) (2 ^ 64 - 16) then (2 ^ 64 - 1 + 15) / 16 * 16 else 0)
align_up-bounds_example = align_up-bounds (2 ^ 64 - 1) (omega arith)

-- A block in use, and a free one right behind it; no frames are left.
abbrev two_blocks : ℕ → Header
two_blocks p =
    if p == 0x1000
    then record { size = 64; next = 0x1058; free = false }
    else record { size = 3984; next = 0; free = true }

abbrev small_heap : Heap
small_heap = record {
  header = two_blocks;
  head = 0x1000;
  total_bytes = 4072;
  used_bytes = 64;
  frames = record { frame_bitmap = []; frame_limit = 0; total_frames = 0; free_frames = 0 };
}

small_heap-IsBlocks : IsBlocks small_heap 0 0x1000 (0x1000 ∷ 0x1058 ∷ [])
unfolding IsBlocks
small_heap-IsBlocks = (refl, omega arith, (refl, omega arith, refl))

small_heap-IsLaid : IsLaid small_heap 0 0x1000 (0x1000 ∷ 0x1058 ∷ [])
unfolding IsLaid
small_heap-IsLaid = (
  refl,
  omega arith,
  omega arith,
  omega arith,
  (refl, omega arith, omega arith, omega arith, refl),
)

second_fits : first_fit small_heap (align_up 100) (0x1000 ∷ 0x1058 ∷ []) ≡ 0x1058
unfolding first_fit align_up
second_fits = refl

kmalloc-IsAllocated_example :
    (h' : Heap) × (kmalloc 3 100 small_heap
      ≡ some (first_fit small_heap (align_up 100) (0x1000 ∷ 0x1058 ∷ []) + header_size, h'))
    × IsAllocated small_heap
        (0x1000 ∷ 0x1058 ∷ [])
        (first_fit small_heap (align_up 100) (0x1000 ∷ 0x1058 ∷ []))
        100
        h'
kmalloc-IsAllocated_example =
    kmalloc-IsAllocated 3 100 small_heap (0x1000 ∷ 0x1058 ∷ []) small_heap-IsLaid (omega arith)
      (omega arith) (omega arith) (omega (arith, second_fits))

kfree-Released_example :
    (h' : Heap) × (kfree 3 (0x1000 + header_size) small_heap ≡ some h')
    × Released small_heap 0x1000 (0x1000 ∷ 0x1058 ∷ []) h'
kfree-Released_example =
    kfree-Released 3 0x1000 small_heap (0x1000 ∷ 0x1058 ∷ []) small_heap-IsBlocks (omega arith)
      (omega arith) refl

-- The same blocks, and a bitmap whose eight frames are in use.
abbrev full_heap : Heap
full_heap = record small_heap {
  frames = record { frame_bitmap = 0xFF ∷ []; frame_limit = 8; total_frames = 8; free_frames = 0 };
}

full_heap-IsBlocks : IsBlocks full_heap 0 0x1000 (0x1000 ∷ 0x1058 ∷ [])
unfolding IsBlocks
full_heap-IsBlocks = (refl, omega arith, (refl, omega arith, refl))

full_heap-IsValid : IsValid full_heap.frames
full_heap-IsValid = record {
  covers = omega arith;
  small = omega arith;
  total = refl;
  counted = unfold count_free bit_test in refl;
}

all_used : all_below 8 (λ f. bit_test (0xFF ∷ []) f) ≡ true
unfolding all_below bit_test
all_used = refl

-- No block has 4000 bytes.
full_heap-small :
    (b : Block)
    → Has b (view full_heap (0x1000 ∷ 0x1058 ∷ []))
    → b.free ≡ true
    → b.size < rounded 4000
unfolding Has view
full_heap-small b (inl e) free = rw e (omega arith)
full_heap-small b (inr (inl e)) free = rw e (omega arith)
full_heap-small b (inr (inr none)) free = absurd none

full_heap-Blocked : (t : ℕ) → t + pages_needed 4000 ≤ 8 → Blocked (0xFF ∷ []) t (pages_needed 4000)
full_heap-Blocked t h = (
  t,
  omega arith,
  omega arith,
  all_below_sound 8 (λ f. bit_test (0xFF ∷ []) f) t all_used (omega arith),
)

kmalloc-exhausted_example : kmalloc 3 4000 full_heap ≡ some (0, full_heap)
kmalloc-exhausted_example =
    kmalloc-exhausted 3 4000 full_heap (0x1000 ∷ 0x1058 ∷ []) full_heap-IsBlocks (omega arith)
      full_heap-IsValid (omega arith) (omega arith) full_heap-small full_heap-Blocked
