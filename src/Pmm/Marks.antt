-- ===== src/Pmm/Marks.antt =====
-- `reserve_range` and `free_range` of pmm.c: the frames that a range of bytes stands for.
use simple_kernel.Base.{
  in_run, ℕ, ◌+◌, ◌-◌, ◌*◌, ◌/◌, ◌^◌, ◌<◌, ◌≤◌, ◌≡◌, ap, ◌∙◌, Bool, true, false, ◌&&◌, ◌||◌, not,
  arith, ltb, leb, add64, Bool-cases, inl, inr,
}
use simple_kernel.Pmm.{
  Pmm, page_size, max_memory, max_frames, bit_test, page_rounds, clip, reserve_range, free_range,
}
use simple_kernel.Pmm.Align.{page_align_up-eq, page_align_down-eq}
use simple_kernel.Pmm.Range.{reserve_pages-Reserved, free_pages-Freed}
use simple_kernel.Pmm.Valid.{IsValid}

-- Page `g` ends behind `base` and begins before `base + len`, and has a bit.
abbrev pub touches : ℕ → ℕ → ℕ → Bool
touches base len g =
    (ltb base ((g + 1) * page_size) && ltb (g * page_size) (base + len)) && ltb g max_frames

-- Page `g` lies whole inside the bytes from `base` to `base + len`, and has a bit.
abbrev pub inside : ℕ → ℕ → ℕ → Bool
inside base len g =
    (leb base (g * page_size) && leb ((g + 1) * page_size) (base + len)) && ltb g max_frames

pub record Marks (on : ℕ → Bool) (s t : Pmm) : Type 0 where
  pub valid : IsValid t
  pub limit : t.frame_limit ≡ max_frames
  pub used : (g : ℕ) → bit_test t.frame_bitmap g ≡ (on g || bit_test s.frame_bitmap g)

pub record Unmarks (on : ℕ → Bool) (s t : Pmm) : Type 0 where
  pub valid : IsValid t
  pub limit : t.frame_limit ≡ max_frames
  pub used : (g : ℕ) → bit_test t.frame_bitmap g ≡ (not (on g) && bit_test s.frame_bitmap g)

module _ (base len : ℕ) {s : Pmm} (v : IsValid s) (full : s.frame_limit ≡ max_frames)
    (no_wrap : base + len + page_size ≤ 2 ^ 64) where
  abbrev low : ℕ
  low = base / page_size

  abbrev high : ℕ
  high = (base + len + (page_size - 1)) / page_size

  run-touches :
      (g : ℕ)
      → low * page_size < max_memory
      → in_run low (page_rounds (low * page_size) (clip (high * page_size))) g ≡ touches base len g
  run-touches g h = ground arith

  far-touches : (g : ℕ) → max_memory ≤ low * page_size → touches base len g ≡ false
  far-touches g h = ground arith

  -- `reserve_range` marks as used exactly the frames that the range touches, and keeps the count.
  pub reserve_range-Marks : Marks (touches base len) s (reserve_range base len s)
  unfolding reserve_range
  reserve_range-Marks =
      let sum : add64 base len ≡ base + len = omega arith in
      rw (sum, page_align_down-eq base (omega arith), page_align_up-eq (base + len) no_wrap)
        (elim (Bool-cases (leb max_memory (low * page_size))) [
          | inl far ↦
              rw far
                (record { valid = v; limit = full; used = λ g. rw (far-touches g (ground arith)) })
          | inr near ↦
              let r =
                reserve_pages-Reserved (page_rounds (low * page_size) (clip (high * page_size))) low
                  (low * page_size) v (ground arith) (omega arith) in
              rw near (record {
                valid = r.valid;
                limit = r.limit ∙ full;
                used = λ g.
                    r.used g
                    ∙ ap (λ (b : Bool). b || bit_test s.frame_bitmap g)
                        (run-touches g (ground arith));
              })
        ])

  abbrev first : ℕ
  first = (base + (page_size - 1)) / page_size

  abbrev last : ℕ
  last = (base + len) / page_size

  run-inside :
      (g : ℕ)
      → first * page_size < max_memory
      → in_run first (page_rounds (first * page_size) (clip (last * page_size))) g
        ≡ inside base len g
  run-inside g h = ground arith

  far-inside :
      (g : ℕ)
      → (leb (last * page_size) (first * page_size) || leb max_memory (first * page_size)) ≡ true
      → inside base len g ≡ false
  far-inside g h = ground arith

  -- `free_range` marks as free exactly the frames that lie whole inside the range, and keeps the
  -- count.
  pub free_range-Unmarks : Unmarks (inside base len) s (free_range base len s)
  unfolding free_range
  free_range-Unmarks =
      let sum : add64 base len ≡ base + len = omega arith in
      rw (sum, page_align_down-eq (base + len) (omega arith), page_align_up-eq base (omega arith))
        (elim (Bool-cases
          (leb (last * page_size) (first * page_size) || leb max_memory (first * page_size))) [
            | inl far ↦
                rw far (record { valid = v; limit = full; used = λ g. rw (far-inside g far) })
            | inr near ↦
                let r =
                  free_pages-Freed (page_rounds (first * page_size) (clip (last * page_size))) first
                    (first * page_size) v (ground arith) (omega arith) in
                rw near (record {
                  valid = r.valid;
                  limit = r.limit ∙ full;
                  used = λ g.
                      r.used g
                      ∙ ap (λ (b : Bool). not b && bit_test s.frame_bitmap g)
                          (run-inside g (ground arith));
                })
          ])
