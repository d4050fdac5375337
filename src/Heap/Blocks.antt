-- ===== src/Heap/Blocks.antt =====
-- The list of heap.c in the store of headers.
use simple_kernel.Base.{ℕ, ◌<◌, ◌≤◌, ◌≡◌, refl, arith, List, [], ◌∷◌, add64}
use simple_kernel.Heap.Joined.{view}
use simple_kernel.Heap.{Heap, header_size}

-- `block` leads to the blocks of the list, whose addresses ascend from above `low`, and then to
-- NULL.
unfoldable pub IsBlocks : Heap → ℕ → ℕ → List ℕ → Type 0
IsBlocks h low block [] = block ≡ 0
IsBlocks h low block (p ∷ ps) = (block ≡ p) × (low < p) × IsBlocks h p (h.header p).next ps

-- What the blocks and their headers occupy.
unfoldable pub span : Heap → List ℕ → ℕ
span h [] = 0
span h (p ∷ ps) = add64 (add64 header_size (h.header p).size) (span h ps)

pub IsBlocks-lower :
    (h : Heap) (low low' block : ℕ) (ps : List ℕ)
    → low' ≤ low
    → IsBlocks h low block ps
    → IsBlocks h low' block ps
unfolding IsBlocks
IsBlocks-lower h low low' block [] le b = b
IsBlocks-lower h low low' block (p ∷ ps) le (e, lt, rest) = (e, omega arith, rest)

-- The headers above `low` are all that the list behind it depends on.
module _ (h h' : Heap) where
  unfoldable pub AgreeAbove : ℕ → Type 0
  AgreeAbove low = (x : ℕ) → low < x → h'.header x ≡ h.header x

  pub IsBlocks-agree :
      (low block : ℕ) (ps : List ℕ)
      → AgreeAbove low
      → IsBlocks h low block ps
      → IsBlocks h' low block ps
  unfolding IsBlocks AgreeAbove
  IsBlocks-agree low block [] same b = b
  IsBlocks-agree low block (p ∷ ps) same (e, lt, rest) = (
    e,
    lt,
    rw (same p lt) (IsBlocks-agree p (h.header p).next ps (λ x above. same x (omega arith)) rest),
  )

  pub span-agree :
      (low block : ℕ) (ps : List ℕ)
      → AgreeAbove low
      → IsBlocks h low block ps
      → span h' ps ≡ span h ps
  unfolding IsBlocks AgreeAbove span
  span-agree low block [] same b = refl
  span-agree low block (p ∷ ps) same (e, lt, rest) =
      rw (same p lt, span-agree p (h.header p).next ps (λ x above. same x (omega arith)) rest) refl

  pub view-agree :
      (low block : ℕ) (ps : List ℕ)
      → AgreeAbove low
      → IsBlocks h low block ps
      → view h' ps ≡ view h ps
  unfolding IsBlocks AgreeAbove view
  view-agree low block [] same b = refl
  view-agree low block (p ∷ ps) same (e, lt, rest) =
      rw (same p lt, view-agree p (h.header p).next ps (λ x above. same x (omega arith)) rest) refl
