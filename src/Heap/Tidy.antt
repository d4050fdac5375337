-- ===== src/Heap/Tidy.antt =====
-- `heap_coalesce` of heap.c.
use simple_kernel.Base.{
  ℕ, zero, suc, ◌+◌, ◌*◌, ◌/◌, ◌%◌, ◌^◌, sym, false, ◌<◌, ◌≤◌, ◌≡◌, refl, ap, ◌∙◌, inl, inr, arith,
  true, false, ◌||◌, Bool-cases, some, List, [], ◌∷◌, length, add64, ◌==◌,
}
use simple_kernel.Heap.Align.{align_up-mod}
use simple_kernel.Heap.Joined.{
  Block, block_at, view, is_joinable, join, absorb, joined, is_apart, Has, joined-is_apart,
  joined-Has,
}
use simple_kernel.Heap.{Heap, header_size, align_up, mergeable, merge_next, coalesce_from, coalesce}
use simple_kernel.Heap.Blocks.{
  IsBlocks, span, view-agree, IsBlocks-lower, IsBlocks-agree, AgreeAbove, span-agree,
}

-- What coalescing from `block` on makes of the blocks `ps`.
pub record Coalesced (h : Heap) (low block : ℕ) (ps : List ℕ) (h' : Heap) : Type 0 where
  pub left : List ℕ
  pub blocks : IsBlocks h' low block left
  pub no_more : length left ≤ length ps
  pub same : view h' left ≡ joined (view h ps)
  pub occupied : span h' left ≡ span h ps
  pub below : (x : ℕ) → x < block → h'.header x ≡ h.header x
  pub head : h'.head ≡ h.head
  pub total : h'.total_bytes ≡ h.total_bytes
  pub used : h'.used_bytes ≡ h.used_bytes

abbrev Ends : ℕ → Heap → ℕ → ℕ → List ℕ → Type 0
Ends fuel h low block ps =
    (h' : Heap) × (coalesce_from fuel block h ≡ some h') × Coalesced h low block ps h'

merge_next-above : (p : ℕ) (h : Heap) → AgreeAbove h (merge_next p h) p
unfolding merge_next AgreeAbove
merge_next-above p h x lt = let other : (p == x) ≡ false = ground arith in rw other refl

merge_next-below : (p : ℕ) (h : Heap) (x : ℕ) → x < p → (merge_next p h).header x ≡ h.header x
unfolding merge_next
merge_next-below p h x lt = let other : (p == x) ≡ false = ground arith in rw other refl

merge_next-free : (p : ℕ) (h : Heap) → ((merge_next p h).header p).free ≡ (h.header p).free
unfolding merge_next
merge_next-free p h = let same : (p == p) ≡ true = ground arith in rw same refl

merge_next-next :
    (p : ℕ) (h : Heap) → ((merge_next p h).header p).next ≡ (h.header (h.header p).next).next
unfolding merge_next
merge_next-next p h = let same : (p == p) ≡ true = ground arith in rw same refl

merge_next-size :
    (p : ℕ) (h : Heap)
    → ((merge_next p h).header p).size
      ≡ add64 (h.header p).size (add64 header_size (h.header (h.header p).next).size)
unfolding merge_next
merge_next-size p h = let same : (p == p) ≡ true = ground arith in rw same refl

merge_next-IsBlocks :
    (h : Heap) (low p q : ℕ) (ps : List ℕ)
    → IsBlocks h low p (p ∷ q ∷ ps)
    → IsBlocks (merge_next p h) low p (p ∷ ps)
unfolding IsBlocks
merge_next-IsBlocks h low p q ps (_, lt, (e, lt', rest)) =
    let at : ((merge_next p h).header p).next ≡ (h.header q).next =
      merge_next-next p h ∙ ap (λ n. (h.header n).next) e in
    (
      refl,
      lt,
      rw at (
          IsBlocks-agree h (merge_next p h) p (h.header q).next ps (merge_next-above p h)
            (IsBlocks-lower h q p (h.header q).next ps (omega arith) rest)),
    )

merge_next-span :
    (h : Heap) (low p q : ℕ) (ps : List ℕ)
    → IsBlocks h low p (p ∷ q ∷ ps)
    → span (merge_next p h) (p ∷ ps) ≡ span h (p ∷ q ∷ ps)
unfolding IsBlocks span
merge_next-span h low p q ps (_, lt, (e, lt', rest)) =
    let size : ((merge_next p h).header p).size
        ≡ add64 (h.header p).size (add64 header_size (h.header q).size) =
      merge_next-size p h
      ∙ ap (λ n. add64 (h.header p).size (add64 header_size (h.header n).size)) e in
    let behind : span (merge_next p h) ps ≡ span h ps =
      span-agree h (merge_next p h) p (h.header q).next ps (merge_next-above p h)
        (IsBlocks-lower h q p (h.header q).next ps (omega arith) rest) in
    rw (size, behind) (omega arith)

-- The three ways of the loop.
module _ (fuel block : ℕ) (h : Heap) where
  stops :
      (block == 0 || (h.header block).next == 0) ≡ true → coalesce_from (suc fuel) block h ≡ some h
  unfolding coalesce_from
  stops e = rw (e, coalesce_from) refl

  merges :
      (block == 0 || (h.header block).next == 0) ≡ false
      → mergeable block h ≡ true
      → coalesce_from (suc fuel) block h ≡ coalesce_from fuel block (merge_next block h)
  unfolding coalesce_from
  merges e m = rw (e, m, coalesce_from) refl

  moves_on :
      (block == 0 || (h.header block).next == 0) ≡ false
      → mergeable block h ≡ false
      → coalesce_from (suc fuel) block h ≡ coalesce_from fuel (h.header block).next h
  unfolding coalesce_from
  moves_on e m = rw (e, m, coalesce_from) refl

unchanged :
    (h : Heap) (low block : ℕ) (ps : List ℕ)
    → IsBlocks h low block ps
    → view h ps ≡ joined (view h ps)
    → Coalesced h low block ps h
unchanged h low block ps b t = record {
  left = ps;
  blocks = b;
  no_more = omega arith;
  same = t;
  occupied = refl;
  below = λ x lt. refl;
  head = refl;
  total = refl;
  used = refl;
}

-- The test of the code is that of the two blocks.
mergeable-is_joinable :
    (h : Heap) (p q : ℕ)
    → (h.header p).next ≡ q
    → mergeable p h ≡ is_joinable (block_at h p) (block_at h q)
unfolding mergeable is_joinable
mergeable-is_joinable h p q e =
    let size = (h.header p).size in
    let end : add64 (add64 p header_size) (align_up size)
        ≡ (p + 24 + (size + 15) / 16 * 16) % 2 ^ 64 =
      omega (arith, align_up-mod size) in
    rw (e, end) refl

-- A merge leaves the joined block, and the blocks behind it.
merge_next-view :
    (h : Heap) (low p q : ℕ) (ps : List ℕ)
    → IsBlocks h low p (p ∷ q ∷ ps)
    → view (merge_next p h) (p ∷ ps) ≡ join (block_at h p) (block_at h q) ∷ view h ps
unfolding IsBlocks view
merge_next-view h low p q ps (_, lt, (e, lt', rest)) =
    let size : ((merge_next p h).header p).size
        ≡ ((h.header p).size + 24 + (h.header q).size) % 2 ^ 64 =
      merge_next-size p h
      ∙ (ap (λ n. add64 (h.header p).size (add64 header_size (h.header n).size)) e ∙ omega arith) in
    let behind : view (merge_next p h) ps ≡ view h ps =
      view-agree h (merge_next p h) p (h.header q).next ps (merge_next-above p h)
        (IsBlocks-lower h q p (h.header q).next ps (omega arith) rest) in
    rw (size, merge_next-free p h, behind) refl

-- A merge, and then the rest of the loop.
after_merge :
    (h h' : Heap) (low p q : ℕ) (ps : List ℕ)
    → IsBlocks h low p (p ∷ q ∷ ps)
    → mergeable p h ≡ true
    → Coalesced (merge_next p h) low p (p ∷ ps) h'
    → Coalesced h low p (p ∷ q ∷ ps) h'
unfolding IsBlocks view joined absorb
after_merge h h' low p q ps (f, lt, (e, lt', rest)) m c =
    let b : IsBlocks h low p (p ∷ q ∷ ps) = (f, lt, (e, lt', rest)) in
    let joins : is_joinable (block_at h p) (block_at h q) ≡ true =
      sym (mergeable-is_joinable h p q e) ∙ m in
    record {
      left = c.left;
      blocks = c.blocks;
      no_more = omega (arith, c.no_more);
      same = c.same ∙ (ap joined (merge_next-view h low p q ps b) ∙ rw joins refl);
      occupied = c.occupied ∙ merge_next-span h low p q ps b;
      below = λ x lt. c.below x lt ∙ merge_next-below p h x lt;
      head = c.head ∙ unfold merge_next in refl;
      total = c.total ∙ unfold merge_next in refl;
      used = c.used ∙ unfold merge_next in refl;
    }

-- A block that stays, in front of the rest of the loop.
after_step :
    (h h' : Heap) (low p q : ℕ) (ps : List ℕ)
    → IsBlocks h low p (p ∷ q ∷ ps)
    → mergeable p h ≡ false
    → Coalesced h p q (q ∷ ps) h'
    → Coalesced h low p (p ∷ q ∷ ps) h'
unfolding IsBlocks span view joined absorb
after_step h h' low p q ps (_, lt, (e, lt', rest)) m c =
    let same : h'.header p ≡ h.header p = c.below p lt' in
    let split : is_joinable (block_at h p) (block_at h q) ≡ false =
      sym (mergeable-is_joinable h p q e) ∙ m in
    record {
      left = p ∷ c.left;
      blocks = (refl, lt, rw (same, e) c.blocks);
      no_more = omega (arith, c.no_more);
      same = rw (same, split) (ap (λ bs. block_at h p ∷ bs) c.same);
      occupied = rw (same, c.occupied) refl;
      below = λ x lt. c.below x (omega arith);
      head = c.head;
      total = c.total;
      used = c.used;
    }

coalesce_from-Ends :
    (fuel : ℕ) (h : Heap) (low block : ℕ) (ps : List ℕ)
    → IsBlocks h low block ps
    → length ps < fuel
    → Ends fuel h low block ps
unfolding IsBlocks view joined absorb
coalesce_from-Ends zero h low block ps b lt = absurd (omega arith)
coalesce_from-Ends (suc fuel) h low block [] b lt =
    (h, stops fuel block h (ground arith), unchanged h low block [] b refl)
coalesce_from-Ends (suc fuel) h low block (p ∷ []) (e, lt', rest) lt =
    let last : (block == 0 || (h.header block).next == 0) ≡ true = rw e (ground arith) in
    (h, stops fuel block h last, unchanged h low block (p ∷ []) (e, lt', rest) refl)
coalesce_from-Ends (suc fuel) h low block (p ∷ q ∷ ps) (e, lt', (e', lt'', rest)) lt = rw e (
    let b : IsBlocks h low p (p ∷ q ∷ ps) = (refl, lt', (e', lt'', rest)) in
    let more : (p == 0 || (h.header p).next == 0) ≡ false = ground arith in
    elim (Bool-cases (mergeable p h)) [
      | inl m ↦
          let (h', eq, c) =
            coalesce_from-Ends fuel (merge_next p h) low p (p ∷ ps)
              (merge_next-IsBlocks h low p q ps b) (omega arith) in
          (h', merges fuel p h more m ∙ eq, after_merge h h' low p q ps b m c)
      | inr m ↦
          let (h', eq, c) =
            coalesce_from-Ends fuel h p q (q ∷ ps) (refl, lt'', rest) (omega arith) in
          let next : coalesce_from fuel (h.header p).next h ≡ coalesce_from fuel q h =
            ap (λ n. coalesce_from fuel n h) e' in
          (h', moves_on fuel p h more m ∙ (next ∙ eq), after_step h h' low p q ps b m c)
    ])

-- What `heap_coalesce` makes of the whole list.
pub record IsTidy (h : Heap) (ps : List ℕ) (h' : Heap) : Type 0 where
  pub coalesced : Coalesced h 0 h.head ps h'
  pub apart : is_apart (view h' coalesced.left) ≡ true
  pub in_use : (b : Block) → b.free ≡ false → Has b (view h ps) → Has b (view h' coalesced.left)

pub coalesce-IsTidy :
    (fuel : ℕ) (h : Heap) (ps : List ℕ)
    → IsBlocks h 0 h.head ps
    → length ps < fuel
    → (h' : Heap) × (coalesce fuel h ≡ some h') × IsTidy h ps h'
unfolding coalesce
coalesce-IsTidy fuel h ps b lt =
    let (h', eq, c) = coalesce_from-Ends fuel h 0 h.head ps b lt in
    (
      h',
      eq,
      record {
        coalesced = c;
        apart = rw (c.same) (joined-is_apart (view h ps));
        in_use = λ x used has. rw (c.same) (joined-Has x (view h ps) used has);
      },
    )
