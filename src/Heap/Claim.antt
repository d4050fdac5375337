-- ===== src/Heap/Claim.antt =====
-- What `kmalloc` of heap.c makes of the block that it takes from the list.
use simple_kernel.Base.{
  ℕ, ◌+◌, ◌-◌, ◌^◌, ◌<◌, ◌≤◌, ◌≡◌, ◌≢◌, refl, sym, ap, ◌∙◌, arith, true, false, ◌&&◌, Bool-cases,
  inl, inr, List, [], ◌∷◌, ltb, leb, ◌==◌, if◌then◌else◌, add64, sub64,
}
use simple_kernel.Heap.{Heap, header_size, min_split, align_up, split_block, claim_block}
use simple_kernel.Heap.Fit.{first_fit}

-- Where the payload of a block ends.
abbrev pub end_of : Heap → ℕ → ℕ
end_of h p = p + header_size + (h.header p).size

-- The blocks of a list that lie one behind the other from `low` on, without overlap, and not in the
-- last 64 bytes of the address space.
unfoldable pub IsLaid : Heap → ℕ → ℕ → List ℕ → Type 0
IsLaid h low block [] = block ≡ 0
IsLaid h low block (p ∷ ps) =
    (block ≡ p)
    × (0 < p)
    × (low ≤ p)
    × (end_of h p + 64 ≤ 2 ^ 64)
    × IsLaid h (end_of h p) (h.header p).next ps

-- The list with `n` right behind `p`.
unfoldable pub behind : ℕ → ℕ → List ℕ → List ℕ
behind p n [] = []
behind p n (q ∷ ps) = if q == p then q ∷ n ∷ ps else q ∷ behind p n ps

-- Only sizes and links matter.
pub IsLaid-agree :
    (h h' : Heap) (low block : ℕ) (ps : List ℕ)
    → ((x : ℕ)
        → low ≤ x
        → ((h'.header x).size ≡ (h.header x).size) × ((h'.header x).next ≡ (h.header x).next))
    → IsLaid h low block ps
    → IsLaid h' low block ps
unfolding IsLaid
IsLaid-agree h h' low block [] same l = l
IsLaid-agree h h' low block (p ∷ ps) same (e, pos, above, room, rest) =
    let (size, next) = same p above in
    (
      e,
      pos,
      above,
      rw size room,
      rw (size, next)
          (IsLaid-agree h h' (end_of h p) (h.header p).next ps (λ x le. same x (omega arith)) rest),
    )

-- A block that fits lies above `low`.
first_fit-above :
    (h : Heap) (size low block : ℕ) (ps : List ℕ)
    → IsLaid h low block ps
    → 0 < first_fit h size ps
    → low ≤ first_fit h size ps
unfolding IsLaid first_fit
first_fit-above h size low block [] l pos = absurd (omega arith)
first_fit-above h size low block (p ∷ ps) (e, _, above, room, rest) pos =
    elim (Bool-cases ((h.header p).free && leb size (h.header p).size)) [
      | inl fits ↦ rw fits above
      | inr unfit ↦
          let later =
            first_fit-above h size (end_of h p) (h.header p).next ps rest (rw unfit at pos) in
          rw unfit (omega arith)
    ]

-- A block `p` is cut in two, of which the second starts at `n`.
pub record IsCut (h h' : Heap) (p n : ℕ) : Type 0 where
  inside : p + header_size ≤ n
  first : end_of h' p ≡ n
  link : (h'.header p).next ≡ n
  second : end_of h' n ≡ end_of h p
  next : (h'.header n).next ≡ (h.header p).next
  others : (x : ℕ) → x ≢ p → x ≢ n → h'.header x ≡ h.header x

pub behind-IsLaid :
    (h h' : Heap) (size f n low block : ℕ) (ps : List ℕ)
    → IsLaid h low block ps
    → first_fit h size ps ≡ f
    → 0 < f
    → IsCut h h' f n
    → IsLaid h' low block (behind f n ps)
unfolding IsLaid behind first_fit
behind-IsLaid h h' size f n low block [] l found pos c = l
behind-IsLaid h h' size f n low block (p ∷ ps) (e, some_block, above, room, rest) found pos c =
    elim (Bool-cases ((h.header p).free && leb size (h.header p).size)) [
      | inl fits ↦
          let here : p ≡ f = rw fits at found in
          let same : (p == f) ≡ true = ground arith in
          let top : end_of h p ≡ end_of h f = ap (end_of h) here in
          let first : end_of h' p ≡ n = ap (end_of h') here ∙ c.first in
          let tail =
            IsLaid-agree h h' (end_of h p) (h.header p).next ps
              (λ x le.
                let o =
                  c.others x (omega (arith, le, here))
                    (omega (arith, c.inside, c.second, top, le)) in
                (ap (λ b. b.size) o, ap (λ b. b.next) o))
              rest in
          let link : (h'.header p).next ≡ n = ap (λ q. (h'.header q).next) here ∙ c.link in
          let onward : (h'.header n).next ≡ (h.header p).next =
            c.next ∙ ap (λ q. (h.header q).next) (sym here) in
          let second : end_of h' n ≡ end_of h p = c.second ∙ sym top in
          let whole : IsLaid h' (end_of h' n) (h'.header n).next ps = rw (second, onward) tail in
          rw same (
            e,
            some_block,
            above,
            omega (arith, first, second, room),
            (
              link,
              omega (arith, c.inside),
              omega (arith, first),
              omega (arith, second, room),
              whole,
            ),
          )
      | inr unfit ↦
          let later : first_fit h size ps ≡ f = rw unfit at found in
          let far : end_of h p ≤ f = rw later at (
            first_fit-above h size (end_of h p) (h.header p).next ps rest (omega (arith, later))) in
          let other : (p == f) ≡ false = ground (arith, far) in
          let o = c.others p (omega (arith, far)) (omega (arith, far, c.inside)) in
          let more =
            behind-IsLaid h h' size f n (end_of h p) (h.header p).next ps rest later pos c in
          rw other (e, some_block, above, rw o room, rw o more)
    ]

-- What a call leaves of the block `p`: it is taken, is large enough for `size`, and lies where it
-- was.
pub record IsTaken (h h' : Heap) (p size : ℕ) : Type 0 where
  pub taken : (h'.header p).free ≡ false
  pub large : size ≤ (h'.header p).size
  pub within : end_of h' p ≤ end_of h p
  pub counted : h'.used_bytes ≡ add64 h.used_bytes (h'.header p).size

-- The block stays whole.
pub claim_block-whole :
    (h : Heap) (p size : ℕ)
    → size ≤ (h.header p).size
    → split_block p size h ≡ h
    → let h' = (claim_block p size h).1 in
      IsTaken h h' p size
      × ((x : ℕ)
          → ((h'.header x).size ≡ (h.header x).size) × ((h'.header x).next ≡ (h.header x).next))
unfolding claim_block
claim_block-whole h p size fits whole =
    let same : (p == p) ≡ true = ground arith in
    rw whole (
      record {
        taken = rw same refl;
        large = rw same fits;
        within = rw same (omega arith);
        counted = rw same refl;
      },
      λ x. elim (Bool-cases (p == x)) [
        | inl e ↦
            let q : p ≡ x = ground arith in
            rw e (ap (λ z. (h.header z).size) q, ap (λ z. (h.header z).next) q)
        | inr ne ↦ rw ne (refl, refl)
      ],
    )

-- The block is cut behind `a` bytes.
pub claim_block-IsCut :
    (h : Heap) (p size a n : ℕ)
    → align_up size ≡ a
    → add64 (add64 p header_size) a ≡ n
    → p + header_size + a ≡ n
    → size ≤ a
    → a + header_size ≤ (h.header p).size
    → (h.header p).size < 2 ^ 64
    → ltb (h.header p).size (add64 (add64 a header_size) min_split) ≡ false
    → let h' = (claim_block p size h).1 in IsTaken h h' p size × IsCut h h' p n
unfolding claim_block split_block
claim_block-IsCut h p size a n up at at' le fits small long =
    let pp : (p == p) ≡ true = ground arith in
    let nn : (n == n) ≡ true = ground arith in
    let pn : (p == n) ≡ false = ground arith in
    let np : (n == p) ≡ false = ground arith in
    let left : sub64 (sub64 (h.header p).size a) header_size ≡ (h.header p).size - a - header_size =
      omega arith in
    rw (up, long, at, left)
      (
        record {
          taken = rw pp refl;
          large = rw pp le;
          within = rw pp (omega arith);
          counted = rw pp refl;
        },
        record {
          inside = omega arith;
          first = rw pp at';
          link = rw pp refl;
          second = rw (pn, nn) (omega arith);
          next = rw (pn, nn) refl;
          others = λ x other_p other_n.
              let px : (p == x) ≡ false = ground arith in
              let nx : (n == x) ≡ false = ground arith in rw (px, nx) refl;
        },
      )
