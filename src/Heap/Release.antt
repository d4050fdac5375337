-- ===== src/Heap/Release.antt =====
-- `kfree` of heap.c.
use simple_kernel.Base.{
  ℕ, ◌+◌, ◌^◌, ◌<◌, ◌≡◌, ◌≢◌, ap, sym, refl, ◌∙◌, inl, inr, arith, true, false, Bool-cases, some,
  List, [], ◌∷◌, length, ◌==◌, sub64,
}
use simple_kernel.Heap.{Heap, header_size, put_header, kfree}
use simple_kernel.Heap.Blocks.{IsBlocks, span}
use simple_kernel.Heap.Joined.{
  Block, view, joined, freed, is_apart, Has, joined-Has, joined-HasFlag, freed-free, freed-Has,
}
use simple_kernel.Heap.Tidy.{coalesce-IsTidy}

-- What holds after the release of block `p`.
pub record Released (h : Heap) (p : ℕ) (ps : List ℕ) (h' : Heap) : Type 0 where
  pub left : List ℕ
  pub blocks : IsBlocks h' 0 h'.head left
  pub same : view h' left ≡ joined (freed p (view h ps))
  pub apart : is_apart (view h' left) ≡ true
  pub free : (b : Block) → Has b (view h' left) → b.address ≡ p → b.free ≡ true
  pub in_use :
      (b : Block) → b.free ≡ false → b.address ≢ p → Has b (view h ps) → Has b (view h' left)
  pub occupied : span h' left ≡ span h ps
  pub total : h'.total_bytes ≡ h.total_bytes
  pub used : h'.used_bytes ≡ sub64 h.used_bytes (h.header p).size

-- The flag decides neither the list nor what it occupies.
abbrev mark_free : ℕ → Heap → Heap
mark_free p h =
    let given = put_header p (record (h.header p) { free = true }) h in
    record given { used_bytes = sub64 given.used_bytes (h.header p).size }

mark_free-next : (p : ℕ) (h : Heap) (x : ℕ) → ((mark_free p h).header x).next ≡ (h.header x).next
mark_free-next p h x = elim (Bool-cases (p == x)) [
  | inl e ↦ let same : p ≡ x = ground arith in rw (e, same) refl
  | inr ne ↦ rw ne refl
]

mark_free-size : (p : ℕ) (h : Heap) (x : ℕ) → ((mark_free p h).header x).size ≡ (h.header x).size
mark_free-size p h x = elim (Bool-cases (p == x)) [
  | inl e ↦ let same : p ≡ x = ground arith in rw (e, same) refl
  | inr ne ↦ rw ne refl
]

mark_free-IsBlocks :
    (p : ℕ) (h : Heap) (low block : ℕ) (ps : List ℕ)
    → IsBlocks h low block ps
    → IsBlocks (mark_free p h) low block ps
unfolding IsBlocks
mark_free-IsBlocks p h low block [] b = b
mark_free-IsBlocks p h low block (x ∷ ps) (e, lt, rest) =
    (e, lt, rw (mark_free-next p h x) (mark_free-IsBlocks p h x (h.header x).next ps rest))

mark_free-span : (p : ℕ) (h : Heap) (ps : List ℕ) → span (mark_free p h) ps ≡ span h ps
unfolding span
mark_free-span p h [] = refl
mark_free-span p h (x ∷ ps) = rw (mark_free-size p h x, mark_free-span p h ps) refl

mark_free-view : (p : ℕ) (h : Heap) (ps : List ℕ) → view (mark_free p h) ps ≡ freed p (view h ps)
unfolding view freed
mark_free-view p h [] = refl
mark_free-view p h (x ∷ ps) = elim (Bool-cases (x == p)) [
  | inl e ↦
      let at : x ≡ p = ground arith in
      let here : (p == x) ≡ true = ground arith in
      rw (e, here, mark_free-view p h ps)
        (ap
          (λ z. record { address = x; size = (h.header z).size; free = true } ∷ freed p (view h ps))
          (sym at))
  | inr ne ↦
      let other : (p == x) ≡ false = ground arith in rw (ne, other, mark_free-view p h ps) refl
]

-- What is free at `p` before the blocks are joined is free afterwards.
freed-joined :
    (p : ℕ) (x : Block) (bs : List Block)
    → Has x (joined (freed p bs))
    → x.address ≡ p
    → x.free ≡ true
freed-joined p x bs has at =
    let (y, there, address, flag) = joined-HasFlag x (freed p bs) has in
    sym flag ∙ freed-free p y bs there (address ∙ at)

-- On a heap whose blocks form a list of ascending addresses, with fuel for its length, `kfree` of
-- the payload of an address whose flag says in use ends. The blocks that are left are those before
-- with the flag at that address set to free, and then joined as by the reference: a block left at
-- that address is free, no two neighbours could be joined, and every other block in use is there
-- unchanged. Blocks and headers occupy what they did modulo 2 ^ 64, and the block's bytes are no
-- longer counted as used.
pub kfree-Released :
    (fuel p : ℕ) (h : Heap) (ps : List ℕ)
    → IsBlocks h 0 h.head ps
    → length ps < fuel
    → p + header_size < 2 ^ 64
    → (h.header p).free ≡ false
    → (h' : Heap) × (kfree fuel (p + header_size) h ≡ some h') × Released h p ps h'
unfolding kfree
kfree-Released fuel p h ps b lt small in_use =
    let ptr : (p + header_size == 0) ≡ false = ground arith in
    let block : sub64 (p + header_size) header_size ≡ p = omega arith in
    let (h', eq, c) =
      coalesce-IsTidy fuel (mark_free p h) ps (mark_free-IsBlocks p h 0 h.head ps b) lt in
    let same : view h' c.coalesced.left ≡ joined (freed p (view h ps)) =
      c.coalesced.same ∙ ap joined (mark_free-view p h ps) in
    (
      h',
      rw (ptr, block, in_use) eq,
      record {
        left = c.coalesced.left;
        blocks = rw (c.coalesced.head) (c.coalesced.blocks);
        same = same;
        apart = c.apart;
        free = λ x has at. freed-joined p x (view h ps) (rw same at has) at;
        in_use = λ x used other has.
            rw same (joined-Has x (freed p (view h ps)) used (freed-Has p x (view h ps) has other));
        occupied = c.coalesced.occupied ∙ mark_free-span p h ps;
        total = c.coalesced.total;
        used = c.coalesced.used;
      },
    )
