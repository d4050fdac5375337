-- ===== src/Pmm/Free.antt =====
-- `pmm_free_frames` of pmm.c.
use simple_kernel.Base.{
  ℕ, zero, suc, ◌+◌, ◌/◌, ◌<◌, ◌≤◌, ◌≡◌, ◌≢◌, refl, sym, ap, ap₂, ◌∙◌, ◌⊎◌, inl, inr, Bool, true,
  false, ◌&&◌, ◌||◌, not, arith, leb, ◌==◌, ==_iff, in_run, Bool-cases,
}
use native.Mathlib.Decide.{dec_lt}
use simple_kernel.Pmm.{Pmm, page_size, bit_test, free_run, free_frames, alloc_frames}
use simple_kernel.Pmm.Alloc.{Found, alloc_frames-first_fit}
use simple_kernel.Pmm.Bitmap.{bit_test-bit_clear, count_free, count_free_ext}
use simple_kernel.Pmm.Range.{run-suc-not}
use simple_kernel.Pmm.Valid.{IsValid, give_frame-IsValid, in_bitmap}

-- `n` frames from `first` on are given back; the loop stops behind `count` frames, at the limit, or
-- at the first frame that is free already.
pub record GivenBack (first count : ℕ) (s t : Pmm) : Type 0 where
  pub n : ℕ
  pub at_most : n ≤ count
  pub valid : IsValid t
  pub limit : t.frame_limit ≡ s.frame_limit
  pub in_limit : (g : ℕ) → first ≤ g → g < first + n → g < s.frame_limit
  pub were_used : (g : ℕ) → first ≤ g → g < first + n → bit_test s.frame_bitmap g ≡ true
  pub used :
      (g : ℕ) → bit_test t.frame_bitmap g ≡ (not (in_run first n g) && bit_test s.frame_bitmap g)
  pub stops :
      n < count → (s.frame_limit ≤ first + n) ⊎ (bit_test s.frame_bitmap (first + n) ≡ false)

pub free_run-GivenBack :
    (count first : ℕ) {s : Pmm} → IsValid s → GivenBack first count s (free_run count first s)
unfolding free_run
free_run-GivenBack zero first {s} v = record {
  n = 0;
  at_most = omega arith;
  valid = v;
  limit = refl;
  in_limit = λ g a b. absurd (omega arith);
  were_used = λ g a b. absurd (omega arith);
  used = λ g. ground arith;
  stops = λ lt. absurd (omega arith);
}
free_run-GivenBack (suc count) first {s} v =
    elim (Bool-cases (leb s.frame_limit first || not (bit_test s.frame_bitmap first))) [
      | inl stop ↦
          rw (stop, free_run)
            (record {
              n = 0;
              at_most = omega arith;
              valid = v;
              limit = refl;
              in_limit = λ g a b. absurd (omega arith);
              were_used = λ g a b. absurd (omega arith);
              used = λ g. ground arith;
              stops = λ lt. let e : first + 0 ≡ first = omega arith in rw e (ground arith);
            })
      | inr go ↦
          let low : first < s.frame_limit = ground arith in
          let used : bit_test s.frame_bitmap first ≡ true = ground arith in
          let cleared =
            λ (g : ℕ). bit_test-bit_clear s.frame_bitmap first g (in_bitmap first v low) in
          let r = free_run-GivenBack count (first + 1) (give_frame-IsValid first v low used) in
          let e : first + 1 + r.n ≡ first + suc r.n = omega arith in
          rw (go, free_run)
            (record {
              n = suc r.n;
              at_most = omega (arith, r.at_most);
              valid = r.valid;
              limit = r.limit;
              in_limit = λ g a b. elim (Bool-cases (first == g)) [
                | inl same ↦ let e : first ≡ g = (==_iff _ _).0 same in omega arith
                | inr ne ↦ ground (arith, r.in_limit g)
              ];
              were_used = λ g a b. elim (Bool-cases (first == g)) [
                | inl same ↦ let e : first ≡ g = (==_iff _ _).0 same in rw (← e) used
                | inr ne ↦ ground (arith, r.were_used g, cleared g)
              ];
              used = λ g.
                  r.used g
                  ∙ ap (λ (b : Bool). not (in_run (first + 1) r.n g) && b) (cleared g)
                  ∙ run-suc-not first r.n g _;
              stops = λ lt. rw (← e) (elim (r.stops (omega arith)) [
                | inl end ↦ inl end
                | inr free ↦ inr (ground (arith, cleared (first + 1 + r.n)))
              ]);
            })
    ]

-- Giving back what `pmm_alloc_frames` has just returned restores the allocator: the same frames are
-- in use and the same number is free.
pub record Restored (s t : Pmm) : Type 0 where
  pub valid : IsValid t
  pub limit : t.frame_limit ≡ s.frame_limit
  pub used : (g : ℕ) → bit_test t.frame_bitmap g ≡ bit_test s.frame_bitmap g
  pub free : t.free_frames ≡ s.free_frames

back_again : (a b : Bool) → (a ≡ true → b ≡ false) → (not a && (a || b)) ≡ b
back_again true b h = sym (h refl)
back_again false b h = refl

module _ (count : ℕ) (s : Pmm) (v : IsValid s) (pos : 0 < count) {r : ℕ × Pmm}
    (found : Found count s r) where
  all_given : (g : GivenBack found.start count r.1 (free_run count found.start r.1)) → g.n ≡ count
  all_given g = elim (dec_lt g.n count) [
    | yes less ↦ elim (g.stops less) [
      | inl end ↦ absurd (omega (arith, found.in_limit, found.limit))
      | inr free ↦ absurd (ground (arith, found.used (found.start + g.n)))
    ]
    | no whole ↦ omega (arith, g.at_most)
  ]

  pub free_frames-Restored : r.0 ≢ 0 → Restored s (free_frames r.0 count r.1)
  unfolding free_frames
  free_frames-Restored ne =
      let frame : r.0 / page_size ≡ found.start = omega (arith, found.address) in
      let given : (r.0 == 0 || count == 0) ≡ false = ground arith in
      let low : leb r.1.frame_limit found.start ≡ false =
        ground (arith, found.in_limit, found.limit) in
      let g = free_run-GivenBack count found.start found.valid in
      let same = λ (f : ℕ).
        g.used f
        ∙ ap₂ (λ (n : ℕ) (b : Bool). not (in_run found.start n f) && b) (all_given g) (found.used f)
        ∙ back_again (in_run found.start count f) (bit_test s.frame_bitmap f)
            (λ h. found.was_free f (ground arith) (ground arith)) in
      rw (given, frame, low)
        (record {
          valid = g.valid;
          limit = g.limit ∙ found.limit;
          used = same;
          free =
              g.valid.counted
              ∙ ap (λ (n : ℕ). count_free (free_run count found.start r.1).frame_bitmap n)
                  (g.limit ∙ found.limit)
              ∙ count_free_ext _ _ s.frame_limit (λ f lt. same f)
              ∙ sym v.counted;
        })

-- On a valid allocator, `pmm_free_frames` right after `pmm_alloc_frames`, with the address and the
-- count of that call, restores the allocator if the address is not NULL.
pub free_frames-alloc_frames :
    (count : ℕ) (s : Pmm)
    → IsValid s
    → 0 < count
    → (alloc_frames count s).0 ≢ 0
    → Restored s (free_frames (alloc_frames count s).0 count (alloc_frames count s).1)
free_frames-alloc_frames count s v pos ne = elim (alloc_frames-first_fit count s v pos) [
  | inl found ↦ free_frames-Restored count s v pos found ne
  | inr full ↦ absurd (ne (ap (λ (r : ℕ × Pmm). r.0) full.unchanged))
]
