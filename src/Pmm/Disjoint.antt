-- ===== src/Pmm/Disjoint.antt =====
-- Several calls of `pmm_alloc_frames` of pmm.c, one after the other.
use simple_kernel.Base.{
  ℕ, ◌+◌, ◌*◌, ◌≤◌, ◌<◌, ◌≡◌, ◌⊎◌, refl, sym, ◌∙◌, arith, Bool, true, false, ◌||◌, List, [], ◌∷◌,
  ◌==◌, leb, Bool-cases, inl, inr, in_run,
}
use simple_kernel.Pmm.{Pmm, page_size, bit_test, alloc_frames}
use simple_kernel.Pmm.Alloc.{alloc_frames-first_fit}
use simple_kernel.Pmm.Valid.{IsValid}

-- The calls, one after the other: what each returns beside its count, and the allocator afterwards.
pub alloc_all : List ℕ → Pmm → List (ℕ × ℕ) × Pmm
alloc_all [] s = ([], s)
alloc_all (count ∷ counts) s =
    let first = alloc_frames count s in
    let rest = alloc_all counts first.1 in ((first.0, count) ∷ rest.0, rest.1)

-- One of the two is NULL, or the bytes of the one lie in front of those of the other.
unfoldable pub Apart : ℕ × ℕ → ℕ × ℕ → Type 0
Apart (a, count) (b, size) =
    (a ≡ 0) ⊎ ((b ≡ 0) ⊎ ((a + count * page_size ≤ b) ⊎ (b + size * page_size ≤ a)))

unfoldable pub Each : (ℕ × ℕ → Type 0) → List (ℕ × ℕ) → Type 0
Each P [] = Unit {0}
Each P (r ∷ rs) = P r × Each P rs

unfoldable pub AllApart : List (ℕ × ℕ) → Type 0
AllApart [] = Unit {0}
AllApart (r ∷ rs) = Each (Apart r) rs × AllApart rs

-- NULL, or a run whose bits are all `b`.
RunIs : Bool → List ℕ → ℕ × ℕ → Type 0
RunIs b m (a, count) =
    (a ≡ 0)
    ⊎ ((start : ℕ) × (a ≡ start * page_size)
        × (0 < count)
        × ((g : ℕ) → start ≤ g → g < start + count → bit_test m g ≡ b))

-- A frame that is free in `m'` is free in `m`.
Fuller : List ℕ → List ℕ → Type 0
Fuller m m' = (g : ℕ) → bit_test m' g ≡ false → bit_test m g ≡ false

record Granted (count : ℕ) (s : Pmm) (r : ℕ × Pmm) : Type 0 where
  valid : IsValid r.1
  fuller : Fuller s.frame_bitmap r.1.frame_bitmap
  was_free : RunIs false s.frame_bitmap (r.0, count)
  used : RunIs true r.1.frame_bitmap (r.0, count)

right_false : (a b : Bool) → (a || b) ≡ false → b ≡ false
right_false a b h = ground arith

alloc_frames-none : (s : Pmm) → alloc_frames 0 s ≡ (0, s)
unfolding alloc_frames
alloc_frames-none s = refl

alloc_frames-Granted : (count : ℕ) (s : Pmm) → IsValid s → Granted count s (alloc_frames count s)
unfolding Fuller RunIs
alloc_frames-Granted count s v = elim (Bool-cases (count == 0)) [
  | inl none ↦
      let z : count ≡ 0 = ground arith in
      rw (z, alloc_frames-none s)
        (record { valid = v; fuller = λ g h. h; was_free = inl refl; used = inl refl })
  | inr some_frames ↦
      let more : 0 < count = ground arith in
      elim (alloc_frames-first_fit count s v (ground arith)) [
        | inl found ↦ record {
          valid = found.valid;
          fuller = λ g h. right_false (in_run found.start count g) _ (sym (found.used g) ∙ h);
          was_free = inr (found.start, found.address, more, λ g a b. found.was_free g a b);
          used = inr (found.start, found.address, more, λ g a b. found.used g ∙ ground arith);
        }
        | inr full ↦
            rw (full.unchanged)
              (record { valid = v; fuller = λ g h. h; was_free = inl refl; used = inl refl })
      ]
]

-- A run that is free where another is in use lies apart from it.
RunIs-Apart : (m : List ℕ) (r q : ℕ × ℕ) → RunIs true m r → RunIs false m q → Apart r q
unfolding RunIs Apart
RunIs-Apart m (a, count) (b, size) (inl null) free = inl null
RunIs-Apart m (a, count) (b, size) (inr used) (inl null) = inr (inl null)
RunIs-Apart m (a, count) (b, size) (inr (p, at_p, more, used)) (inr (q, at_q, some_frames, free)) =
    elim (Bool-cases (leb (p + count) q)) [
      | inl before ↦ let h : p + count ≤ q = ground arith in inr (inr (inl (omega arith)))
      | inr late ↦ elim (Bool-cases (leb (q + size) p)) [
        | inl after ↦ let h : q + size ≤ p = ground arith in inr (inr (inr (omega arith)))
        | inr early ↦
            let overlap : q < p + count = ground arith in
            let overlap' : p < q + size = ground arith in
            absurd (clash m p q count size more some_frames overlap overlap' used free)
      ]
    ]
  where
    clash :
        (m : List ℕ) (p q count size : ℕ)
        → 0 < count
        → 0 < size
        → q < p + count
        → p < q + size
        → ((g : ℕ) → p ≤ g → g < p + count → bit_test m g ≡ true)
        → ((g : ℕ) → q ≤ g → g < q + size → bit_test m g ≡ false)
        → ⊥
    clash m p q count size a b c d used free = elim (Bool-cases (leb p q)) [
      | inl le ↦
          let yes = used q (ground arith) c in
          let no = free q (omega arith) (omega arith) in cc (yes, no)
      | inr gt ↦
          let yes = used p (omega arith) (omega arith) in
          let no = free p (ground arith) d in cc (yes, no)
    ]

RunIs-Fuller : (m m' : List ℕ) (r : ℕ × ℕ) → Fuller m m' → RunIs false m' r → RunIs false m r
unfolding RunIs Fuller
RunIs-Fuller m m' (a, count) more (inl null) = inl null
RunIs-Fuller m m' (a, count) more (inr (p, at_p, pos, free)) =
    inr (p, at_p, pos, λ g lo hi. more g (free g lo hi))

Each-map :
    (P Q : ℕ × ℕ → Type 0) (rs : List (ℕ × ℕ)) → ((r : ℕ × ℕ) → P r → Q r) → Each P rs → Each Q rs
unfolding Each
Each-map P Q [] f e = tt
Each-map P Q (r ∷ rs) f (h, e) = (f r h, Each-map P Q rs f e)

alloc_all-free :
    (counts : List ℕ) (s : Pmm)
    → IsValid s
    → IsValid (alloc_all counts s).1
      × Each (RunIs false s.frame_bitmap) (alloc_all counts s).0
      × AllApart (alloc_all counts s).0
unfolding alloc_all Each AllApart
alloc_all-free [] s v = (v, tt, tt)
alloc_all-free (count ∷ counts) s v =
    let first = alloc_frames count s in
    let g = alloc_frames-Granted count s v in
    let (valid, free, apart) = alloc_all-free counts first.1 g.valid in
    let rs = (alloc_all counts first.1).0 in
    (
      valid,
      (
        g.was_free,
        Each-map _ _ rs (λ r. RunIs-Fuller s.frame_bitmap first.1.frame_bitmap r g.fuller) free,
      ),
      (
        Each-map _ _ rs (λ r. RunIs-Apart first.1.frame_bitmap (first.0, count) r g.used) free,
        apart,
      ),
    )

-- From a valid allocator, any number of calls of pmm_alloc_frames with any counts give runs that
-- overlap nowhere: of every two results that are not NULL, the bytes of the one lie in front of
-- those of the other; the allocator is valid afterwards.
pub alloc_all-AllApart :
    (counts : List ℕ) (s : Pmm)
    → IsValid s
    → AllApart (alloc_all counts s).0 × IsValid (alloc_all counts s).1
alloc_all-AllApart counts s v =
    let (valid, free, apart) = alloc_all-free counts s v in (apart, valid)
