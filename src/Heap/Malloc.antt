-- ===== src/Heap/Malloc.antt =====
-- `kmalloc` of heap.c on a list of blocks that lie one behind the other.
use simple_kernel.Base.{
  ℕ, ◌+◌, ◌-◌, ◌^◌, ◌*◌, ◌/◌, ◌<◌, ◌≤◌, ◌≡◌, ◌⊎◌, refl, ap, ◌∙◌, arith, true, false, ◌&&◌,
  Bool-cases, both_true, inl, inr, some, List, [], ◌∷◌, length, ltb, leb, ◌==◌, add64,
}
use simple_kernel.Heap.{Heap, header_size, min_split, align_up, split_block, claim_block, kmalloc}
use simple_kernel.Heap.Align.{align_up-bounds}
use simple_kernel.Heap.Blocks.{IsBlocks}
use simple_kernel.Heap.Claim.{
  end_of, IsLaid, IsLaid-agree, IsTaken, behind, behind-IsLaid, claim_block-whole,
  claim_block-IsCut,
}
use simple_kernel.Heap.Fit.{first_fit, kmalloc-first_fit}

-- Blocks that lie one behind the other have ascending addresses.
IsLaid-IsBlocks :
    (h : Heap) (low low' block : ℕ) (ps : List ℕ)
    → ((q : ℕ) → 0 < q → low ≤ q → low' < q)
    → IsLaid h low block ps
    → IsBlocks h low' block ps
unfolding IsLaid IsBlocks
IsLaid-IsBlocks h low low' block [] under l = l
IsLaid-IsBlocks h low low' block (p ∷ ps) under (e, pos, above, room, rest) = (
  e,
  under p pos above,
  IsLaid-IsBlocks h (end_of h p) p (h.header p).next ps (λ q a b. omega arith) rest,
)

-- The block that is found is large enough, and there is room behind it.
first_fit-fits :
    (h : Heap) (size low block : ℕ) (ps : List ℕ)
    → IsLaid h low block ps
    → 0 < first_fit h size ps
    → let f = first_fit h size ps in (size ≤ (h.header f).size) × (end_of h f + 64 ≤ 2 ^ 64)
unfolding IsLaid first_fit
first_fit-fits h size low block [] l pos = absurd (omega arith)
first_fit-fits h size low block (p ∷ ps) (e, _, above, room, rest) pos =
    elim (Bool-cases ((h.header p).free && leb size (h.header p).size)) [
      | inl fits ↦
          let both = both_true (h.header p).free (leb size (h.header p).size) fits in
          rw fits (ground (arith, both.1), room)
      | inr unfit ↦
          rw unfit (first_fit-fits h size (end_of h p) (h.header p).next ps rest (rw unfit at pos))
    ]

-- What a call returns, and what it leaves.
pub record IsAllocated (h : Heap) (ps : List ℕ) (p bytes : ℕ) (h' : Heap) : Type 0 where
  pub blocks : List ℕ
  pub laid : IsLaid h' 0 h'.head blocks
  pub cut : (blocks ≡ ps) ⊎ ((n : ℕ) × (blocks ≡ behind p n ps))
  pub taken : IsTaken h h' p bytes

align_up-fits : (v : ℕ) → v ≤ 2 ^ 64 - 16 → (v ≤ align_up v) × (align_up v ≤ v + 15)
align_up-fits v h =
    let small : leb v (2 ^ 64 - 16) ≡ true = ground arith in
    let e : align_up v ≡ (v + 15) / 16 * 16 = rw small at (align_up-bounds v (omega arith)) in
    (omega (arith, e), omega (arith, e))

claim_block-head : (p size : ℕ) (h : Heap) → (claim_block p size h).1.head ≡ h.head
unfolding claim_block split_block
claim_block-head p size h = ground arith

split_block-short :
    (h : Heap) (p size : ℕ)
    → ltb (h.header p).size (add64 (add64 (align_up size) header_size) min_split) ≡ true
    → split_block p size h ≡ h
unfolding split_block
split_block-short h p size short = rw short refl

claim_block-address :
    (p size : ℕ) (h : Heap) → p + header_size < 2 ^ 64 → (claim_block p size h).0 ≡ p + header_size
unfolding claim_block
claim_block-address p size h small = omega arith

claim_block-IsAllocated :
    (h : Heap) (p size : ℕ) (ps : List ℕ)
    → IsLaid h 0 h.head ps
    → first_fit h size ps ≡ p
    → 0 < p
    → IsAllocated h ps p size (claim_block p size h).1
claim_block-IsAllocated h p size ps l found pos =
    let (fits, room) : (size ≤ (h.header p).size) × (end_of h p + 64 ≤ 2 ^ 64) =
      rw found at (first_fit-fits h size 0 h.head ps l (rw found pos)) in
    let (le, near) = align_up-fits size (omega arith) in
    let a = align_up size in
    let h' = (claim_block p size h).1 in
    elim (Bool-cases (ltb (h.header p).size (add64 (add64 a header_size) min_split))) [
      | inl short ↦
          let (kept, same) = claim_block-whole h p size fits (split_block-short h p size short) in
          record {
            blocks = ps;
            cut = inl refl;
            laid = rw (claim_block-head p size h) (IsLaid-agree h h' 0 h.head ps (λ x _. same x) l);
            taken = kept;
          }
      | inr long ↦
          let n = p + header_size + a in
          let sum : add64 (add64 a header_size) min_split ≡ a + header_size + min_split =
            omega arith in
          let bound : ltb (h.header p).size (a + header_size + min_split) ≡ false =
            rw sum at long in
          let enough : a + header_size ≤ (h.header p).size = ground arith in
          let cut =
            claim_block-IsCut h p size a n refl (omega arith) refl le enough (omega arith) long in
          record {
            blocks = behind p n ps;
            cut = inr (n, refl);
            laid =
                rw (claim_block-head p size h)
                  (behind-IsLaid h h' size p n 0 h.head ps l found pos cut.1);
            taken = cut.0;
          }
    ]

-- On a heap whose blocks lie one behind the other without overlap and not in the last 64 bytes of
-- the address space, with fuel for the list, for a number of bytes from 1 to 2^64 - 16, and with a
-- free block that is large enough for the bytes rounded up to 16, kmalloc returns the payload of
-- the first such block; that block is taken then, has at least the bytes, ends where it ended at
-- most and is counted; the blocks are those before, with at most one new right behind it, and lie
-- one behind the other again.
pub kmalloc-IsAllocated :
    (fuel bytes : ℕ) (h : Heap) (ps : List ℕ)
    → IsLaid h 0 h.head ps
    → length ps < fuel
    → 0 < bytes
    → bytes ≤ 2 ^ 64 - 16
    → 0 < first_fit h (align_up bytes) ps
    → let p = first_fit h (align_up bytes) ps in
      (h' : Heap) × (kmalloc fuel bytes h ≡ some (p + header_size, h'))
      × IsAllocated h ps p bytes h'
kmalloc-IsAllocated fuel bytes h ps l enough pos small found =
    let size = align_up bytes in
    let p = first_fit h size ps in
    let some_block : (p == 0) ≡ false = ground (arith, found) in
    let list = IsLaid-IsBlocks h 0 0 h.head ps (λ q a b. a) l in
    let run = rw some_block at (kmalloc-first_fit fuel bytes h ps list enough pos) in
    let (fits, room) = first_fit-fits h size 0 h.head ps l found in
    let a = claim_block-IsAllocated h p size ps l refl found in
    let h' = (claim_block p size h).1 in
    let at : (claim_block p size h).0 ≡ p + header_size =
      claim_block-address p size h (omega (arith, room)) in
    let large : bytes ≤ (h'.header p).size =
      omega (arith, (align_up-fits bytes small).0, a.taken.large) in
    (
      h',
      run ∙ ap (λ q. some (q, h')) at,
      record {
        blocks = a.blocks;
        laid = a.laid;
        cut = a.cut;
        taken = record {
          taken = a.taken.taken;
          large = large;
          within = a.taken.within;
          counted = a.taken.counted;
        };
      },
    )
