-- ===== src/Heap/Exhausted.antt =====
-- `kmalloc` of heap.c where the blocks and the frames have no room.
use simple_kernel.Base.{
  ℕ, ◌+◌, add64, ◌-◌, ◌*◌, ◌/◌, ◌^◌, ◌<◌, ◌≤◌, ◌≡◌, refl, inl, inr, ◌∙◌, arith, true, false,
  Bool-cases, some, List, [], ◌∷◌, length, leb,
}
use simple_kernel.Heap.{Heap, align_up, pages_for, header_size, kmalloc, expand}
use simple_kernel.Heap.Align.{align_up-mod}
use simple_kernel.Heap.Blocks.{IsBlocks}
use simple_kernel.Heap.Fit.{first_fit, claim_grown-null, kmalloc-first_fit}
use simple_kernel.Heap.Joined.{Block, Has, view}
use simple_kernel.Pmm.{alloc_frames}
use simple_kernel.Pmm.Alloc.{Blocked, alloc_frames-first_fit}
use simple_kernel.Pmm.Valid.{IsValid}

-- The bytes rounded up to 16, and the pages that they fill with the header in front of them, rounded
-- up to 16 too.
abbrev pub rounded : ℕ → ℕ
rounded bytes = (bytes + 15) / 16 * 16

abbrev pub pages_needed : ℕ → ℕ
pages_needed bytes = (rounded bytes + 32 + 4095) / 4096

align_up-rounded : (bytes : ℕ) → bytes ≤ 2 ^ 64 - 8192 → align_up bytes ≡ rounded bytes
align_up-rounded bytes h = omega (arith, align_up-mod bytes)

pages_for-pages_needed :
    (bytes : ℕ) → bytes ≤ 2 ^ 64 - 8192 → pages_for (rounded bytes) ≡ pages_needed bytes
pages_for-pages_needed bytes h = omega (arith, align_up-mod (add64 (rounded bytes) header_size))

pages_needed-pos : (bytes : ℕ) → 0 < pages_needed bytes
pages_needed-pos bytes = omega arith

first_fit-none :
    (h : Heap) (size : ℕ) (ps : List ℕ)
    → ((b : Block) → Has b (view h ps) → b.free ≡ true → b.size < size)
    → first_fit h size ps ≡ 0
unfolding first_fit view Has
first_fit-none h size [] unfit = refl
first_fit-none h size (p ∷ ps) unfit = elim (Bool-cases (h.header p).free) [
  | inl free ↦
      let small : leb size (h.header p).size ≡ false =
        (let lt = unfit _ (inl refl) free in ground arith) in
      rw (free, small) (first_fit-none h size ps (λ b has. unfit b (inr has)))
  | inr used ↦ rw used (first_fit-none h size ps (λ b has. unfit b (inr has)))
]

-- An allocator without a run.
alloc_frames-exhausted :
    (pages : ℕ) (h : Heap)
    → IsValid h.frames
    → 0 < pages
    → ((t : ℕ) → t + pages ≤ h.frames.frame_limit → Blocked h.frames.frame_bitmap t pages)
    → alloc_frames pages h.frames ≡ (0, h.frames)
alloc_frames-exhausted pages h v pos full = elim (alloc_frames-first_fit pages h.frames v pos) [
  | inl found ↦
      let (f, from, below, used) = full found.start found.in_limit in
      let free = found.was_free f from below in cc (free, used)
  | inr none ↦ none.unchanged
]

-- On a heap whose blocks form a list, with fuel for its length, and with a valid frame allocator,
-- `kmalloc` of some bytes returns NULL and changes nothing, neither blocks nor frames, when no free
-- block has the bytes rounded up to 16 and every run of the pages that they need with a header has a
-- frame in use.
pub kmalloc-exhausted :
    (fuel bytes : ℕ) (h : Heap) (ps : List ℕ)
    → IsBlocks h 0 h.head ps
    → length ps < fuel
    → IsValid h.frames
    → 0 < bytes
    → bytes ≤ 2 ^ 64 - 8192
    → ((b : Block) → Has b (view h ps) → b.free ≡ true → b.size < rounded bytes)
    → ((t : ℕ)
        → t + pages_needed bytes ≤ h.frames.frame_limit
        → Blocked h.frames.frame_bitmap t (pages_needed bytes))
    → kmalloc fuel bytes h ≡ some (0, h)
unfolding expand
kmalloc-exhausted fuel bytes h ps b lt v pos fits unfit full =
    let size = align_up-rounded bytes fits in
    let pages = pages_for-pages_needed bytes fits in
    let none : first_fit h (rounded bytes) ps ≡ 0 = first_fit-none h (rounded bytes) ps unfit in
    let refused = alloc_frames-exhausted (pages_needed bytes) h v (pages_needed-pos bytes) full in
    let run = kmalloc-first_fit fuel bytes h ps b lt pos in
    (rw (size, none, pages, refused) at run) ∙ claim_grown-null (rounded bytes) h
