-- ===== src/Pmm/Range.antt =====
-- The loops of `reserve_range` and `free_range` of pmm.c.
use simple_kernel.Base.{
  in_run, ℕ, zero, suc, ◌+◌, ◌*◌, ◌/◌, ◌≤◌, ◌≡◌, refl, ap, ◌∙◌, ==_iff, Bool, true, false, ◌&&◌,
  ◌||◌, not, List, arith, ◌==◌, Bool-cases, inl, inr,
}
use simple_kernel.Pmm.{Pmm, page_size, bit_test, reserve_pages, free_pages}
use simple_kernel.Pmm.Bitmap.{bit_test-bit_set, bit_test-bit_clear}
use simple_kernel.Pmm.Valid.{IsValid, in_bitmap, take_frame-IsValid, give_frame-IsValid}

-- What marking the `n` frames from `first` on as used does.
pub record Reserved (first n : ℕ) (s t : Pmm) : Type 0 where
  pub valid : IsValid t
  pub limit : t.frame_limit ≡ s.frame_limit
  pub used : (g : ℕ) → bit_test t.frame_bitmap g ≡ (in_run first n g || bit_test s.frame_bitmap g)

pub record Freed (first n : ℕ) (s t : Pmm) : Type 0 where
  pub valid : IsValid t
  pub limit : t.frame_limit ≡ s.frame_limit
  pub used :
      (g : ℕ) → bit_test t.frame_bitmap g ≡ (not (in_run first n g) && bit_test s.frame_bitmap g)

-- One more frame in front of a run.
pub run-suc :
    (f n g : ℕ) (b : Bool) → (in_run (f + 1) n g || (f == g || b)) ≡ (in_run f (suc n) g || b)
run-suc f n g b = ground arith

pub run-suc-not :
    (f n g : ℕ) (b : Bool)
    → (not (in_run (f + 1) n g) && (not (f == g) && b)) ≡ (not (in_run f (suc n) g) && b)
run-suc-not f n g b = ground arith

module _ (m : List ℕ) (f : ℕ) where
  absorb : bit_test m f ≡ true → (g : ℕ) → bit_test m g ≡ (f == g || bit_test m g)
  absorb used g = elim (Bool-cases (f == g)) [
    | inl e ↦ let same : f ≡ g = (==_iff f g).0 e in rw (e, ← same) used
    | inr ne ↦ rw ne
  ]

  absorb_not : bit_test m f ≡ false → (g : ℕ) → bit_test m g ≡ (not (f == g) && bit_test m g)
  absorb_not free g = elim (Bool-cases (f == g)) [
    | inl e ↦ let same : f ≡ g = (==_iff f g).0 e in rw (e, ← same) free
    | inr ne ↦ rw ne
  ]

pub reserve_pages-Reserved :
    (n f addr : ℕ) {s : Pmm}
    → IsValid s
    → f + n ≤ s.frame_limit
    → addr ≡ f * page_size
    → Reserved f n s (reserve_pages n addr s)
unfolding reserve_pages
reserve_pages-Reserved zero f addr v h e = record {
  valid = v;
  limit = refl;
  used = λ g. ground arith;
}
reserve_pages-Reserved (suc n) f addr {s} v h e =
    let here : addr / page_size ≡ f = omega arith in
    rw here (elim (Bool-cases (bit_test s.frame_bitmap f)) [
      | inl used ↦
          let r =
            reserve_pages-Reserved n (f + 1) (addr + page_size) v (omega arith) (omega arith) in
          rw used (record {
            valid = r.valid;
            limit = r.limit;
            used = λ g.
                r.used g
                ∙ ap (λ (b : Bool). in_run (f + 1) n g || b) (absorb s.frame_bitmap f used g)
                ∙ run-suc f n g _;
          })
      | inr free ↦
          let r =
            reserve_pages-Reserved n (f + 1) (addr + page_size)
              (take_frame-IsValid f v (omega arith) free) (omega arith) (omega arith) in
          rw free (record {
            valid = r.valid;
            limit = r.limit;
            used = λ g.
                r.used g
                ∙ ap (λ (b : Bool). in_run (f + 1) n g || b)
                    (bit_test-bit_set s.frame_bitmap f g (in_bitmap f v (omega arith)))
                ∙ run-suc f n g _;
          })
    ])

pub free_pages-Freed :
    (n f addr : ℕ) {s : Pmm}
    → IsValid s
    → f + n ≤ s.frame_limit
    → addr ≡ f * page_size
    → Freed f n s (free_pages n addr s)
unfolding free_pages
free_pages-Freed zero f addr v h e = record { valid = v; limit = refl; used = λ g. ground arith }
free_pages-Freed (suc n) f addr {s} v h e =
    let here : addr / page_size ≡ f = omega arith in
    rw here (elim (Bool-cases (bit_test s.frame_bitmap f)) [
      | inl used ↦
          let r =
            free_pages-Freed n (f + 1) (addr + page_size)
              (give_frame-IsValid f v (omega arith) used) (omega arith) (omega arith) in
          rw used (record {
            valid = r.valid;
            limit = r.limit;
            used = λ g.
                r.used g
                ∙ ap (λ (b : Bool). not (in_run (f + 1) n g) && b)
                    (bit_test-bit_clear s.frame_bitmap f g (in_bitmap f v (omega arith)))
                ∙ run-suc-not f n g _;
          })
      | inr free ↦
          let r = free_pages-Freed n (f + 1) (addr + page_size) v (omega arith) (omega arith) in
          rw free (record {
            valid = r.valid;
            limit = r.limit;
            used = λ g.
                r.used g
                ∙ ap (λ (b : Bool). not (in_run (f + 1) n g) && b)
                    (absorb_not s.frame_bitmap f free g)
                ∙ run-suc-not f n g _;
          })
    ])
