-- ===== src/Heap/Fit.antt =====
-- `kmalloc` of heap.c and the list of blocks.
use simple_kernel.Base.{
  ℕ, zero, suc, ◌<◌, ◌≡◌, refl, inl, inr, arith, true, false, ◌&&◌, Bool-cases, Option, none, some,
  List, [], ◌∷◌, length, leb, ◌==◌, if◌then◌else◌,
}
use simple_kernel.Heap.{Heap, align_up, find_fit, claim_block, expand, kmalloc}
use simple_kernel.Heap.Blocks.{IsBlocks}

-- The first of the blocks that is free and large enough, 0 for none.
unfoldable pub first_fit : Heap → ℕ → List ℕ → ℕ
first_fit h size [] = 0
first_fit h size (p ∷ ps) =
    if (h.header p).free && leb size (h.header p).size then p else first_fit h size ps

find_fit-first_fit :
    (fuel size : ℕ) (h : Heap) (low block : ℕ) (ps : List ℕ)
    → IsBlocks h low block ps
    → length ps < fuel
    → find_fit fuel size block h ≡ some (first_fit h size ps)
unfolding IsBlocks first_fit find_fit
find_fit-first_fit zero size h low block ps b lt = absurd (omega arith)
find_fit-first_fit (suc fuel) size h low block [] b lt =
    let end : (block == 0) ≡ true = ground arith in rw (end, find_fit) refl
find_fit-first_fit (suc fuel) size h low block (p ∷ ps) (e, above, rest) lt =
    let more : (p == 0) ≡ false = ground arith in
    let next = find_fit-first_fit fuel size h p (h.header p).next ps rest (omega arith) in
    rw e (elim (Bool-cases ((h.header p).free && leb size (h.header p).size)) [
      | inl fits ↦ rw (more, fits, find_fit) refl
      | inr unfit ↦ rw (more, unfit, find_fit) next
    ])

-- What `kmalloc` makes of the answer of `expand`.
pub claim_grown : ℕ → Option (ℕ × Heap) → Option (ℕ × Heap)
claim_grown size none = none
claim_grown size (some (block, h)) =
    if block == 0 then some (0, h) else some (claim_block block size h)

pub claim_grown-null : (size : ℕ) (h : Heap) → claim_grown size (some (0, h)) ≡ some (0, h)
unfolding claim_grown
claim_grown-null size h = refl

elim_grown :
    (size : ℕ) (o : Option (ℕ × Heap))
    → (elim o [
      | none ↦ none
      | some (block, grown) ↦
          if block == 0 then some (0, grown) else some (claim_block block size grown)
    ])
      ≡ claim_grown size o
unfolding claim_grown
elim_grown size none = refl
elim_grown size (some (block, h)) = refl

-- On a heap whose blocks form a list, with fuel for its length, `kmalloc` of some bytes claims the
-- first block that is free and large enough. Without one it claims what `expand` gives.
pub kmalloc-first_fit :
    (fuel bytes : ℕ) (h : Heap) (ps : List ℕ)
    → IsBlocks h 0 h.head ps
    → length ps < fuel
    → 0 < bytes
    → let size = align_up bytes in
      let found = first_fit h size ps in
      kmalloc fuel bytes h ≡ (
        if found == 0
        then claim_grown size (expand fuel size h)
        else some (claim_block found size h))
unfolding kmalloc
kmalloc-first_fit fuel bytes h ps b lt pos =
    let some_bytes : (bytes == 0) ≡ false = ground arith in
    let size = align_up bytes in
    let found = first_fit h size ps in
    let searched : find_fit fuel size h.head h ≡ some found =
      find_fit-first_fit fuel size h 0 h.head ps b lt in
    rw (some_bytes, searched)
      (elim (Bool-cases (found == 0)) [
        | inl none_fits ↦ rw none_fits (elim_grown size (expand fuel size h))
        | inr fits ↦ rw fits refl
      ])
