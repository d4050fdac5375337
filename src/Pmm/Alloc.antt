-- ===== src/Pmm/Alloc.antt =====
-- `pmm_alloc_frames` of pmm.c.
use simple_kernel.Base.{
  ℕ, zero, suc, ◌+◌, ◌-◌, ◌*◌, ◌/◌, ◌<◌, ◌≤◌, ◌≡◌, ◌≢◌, refl, ap, ◌∙◌, ◌⊎◌, inl, inr, Bool, true,
  false, ◌||◌, List, arith, ltb, ◌==◌, ==_iff, if◌then◌else◌, u64, sub64, in_run, Bool-cases,
  length,
}
use native.Mathlib.Decide.{ℕ_discrete, dec_le}
use simple_kernel.Pmm.{Pmm, page_size, bit_set, bit_test, set_run, alloc_scan, alloc_frames}
use simple_kernel.Pmm.Bitmap.{
  bit_test-bit_set, length-bit_set, count_free, count_free-le, count_free-bit_set,
}
use simple_kernel.Pmm.Range.{run-suc}
use simple_kernel.Pmm.Valid.{IsValid}

-- The `n` frames from `t` on are free; one of them is in use.
abbrev pub RunFree : List ℕ → ℕ → ℕ → Type 0
RunFree m t n = (f : ℕ) → t ≤ f → f < t + n → bit_test m f ≡ false

abbrev pub Blocked : List ℕ → ℕ → ℕ → Type 0
Blocked m t n = (f : ℕ) × (t ≤ f) × (f < t + n) × (bit_test m f ≡ true)

-- What setting the bits of a free run does.
pub record RunSet (n first : ℕ) (limit : ℕ) (m m' : List ℕ) : Type 0 where
  pub size : length m' ≡ length m
  pub counted : count_free m' limit + n ≡ count_free m limit
  pub used : (g : ℕ) → bit_test m' g ≡ (in_run first n g || bit_test m g)

pub set_run-RunSet :
    (n first limit : ℕ) (m : List ℕ)
    → first + n ≤ limit
    → limit ≤ 8 * length m
    → RunFree m first n
    → RunSet n first limit m (set_run n first m)
unfolding set_run
set_run-RunSet zero first limit m h covers free = record {
  size = refl;
  counted = omega arith;
  used = λ g. ground arith;
}
set_run-RunSet (suc n) first limit m h covers free =
    let inside : first / 8 < length m = omega arith in
    let r =
      set_run-RunSet n (first + 1) limit (bit_set m first) (omega arith)
        (omega (arith, length-bit_set m first))
        (λ f a b. bit_test-bit_set m first f inside ∙ ground (arith, free f)) in
    record {
      size = r.size ∙ length-bit_set m first;
      counted = omega (
        arith,
        r.counted,
        count_free-bit_set m first limit inside (omega arith)
            (free first (omega arith) (omega arith)),
      );
      used = λ g.
          r.used g
          ∙ ap (λ (b : Bool). in_run (first + 1) n g || b) (bit_test-bit_set m first g inside)
          ∙ run-suc first n g _;
    }

-- The two ways in which the search ends.
pub record Found (count : ℕ) (s : Pmm) (r : ℕ × Pmm) : Type 0 where
  pub start : ℕ
  pub address : r.0 ≡ start * page_size
  pub in_limit : start + count ≤ s.frame_limit
  pub was_free : RunFree s.frame_bitmap start count
  pub first_fit : (t : ℕ) → t < start → Blocked s.frame_bitmap t count
  pub used :
      (g : ℕ) → bit_test r.1.frame_bitmap g ≡ (in_run start count g || bit_test s.frame_bitmap g)
  pub valid : IsValid r.1
  pub limit : r.1.frame_limit ≡ s.frame_limit

pub record Full (count : ℕ) (s : Pmm) (r : ℕ × Pmm) : Type 0 where
  pub unchanged : r ≡ (0, s)
  pub no_run : (t : ℕ) → t + count ≤ s.frame_limit → Blocked s.frame_bitmap t count

-- What the search knows at `frame`: `len` free frames end there, nothing longer does, and no run
-- of `count` free frames lies in front.
record Scanned (count : ℕ) (s : Pmm) (frame start len : ℕ) : Type 0 where
  short : len < count
  behind : len ≤ frame
  starts : len ≢ 0 → start + len ≡ frame
  free : (f : ℕ) → frame - len ≤ f → f < frame → bit_test s.frame_bitmap f ≡ false
  wall : len < frame → bit_test s.frame_bitmap (frame - len - 1) ≡ true
  passed : (t : ℕ) → t + count ≤ frame → Blocked s.frame_bitmap t count

module _ (count : ℕ) (s : Pmm) (v : IsValid s) where
  take_run :
      (start : ℕ)
      → start + count ≤ s.frame_limit
      → RunFree s.frame_bitmap start count
      → ((t : ℕ) → t < start → Blocked s.frame_bitmap t count)
      → Found count s (
        u64 (start * page_size),
        record s {
          frame_bitmap = set_run count start s.frame_bitmap;
          free_frames = sub64 s.free_frames count;
        },
      )
  take_run start h free first =
      let r = set_run-RunSet count start s.frame_limit s.frame_bitmap h v.covers free in
      record {
        start = start;
        address = omega (arith, v.small);
        in_limit = h;
        was_free = free;
        first_fit = first;
        used = r.used;
        valid = record {
          covers = omega (arith, r.size, v.covers);
          small = v.small;
          total = v.total;
          counted =
              omega
                (arith, r.counted, v.counted, v.small, count_free-le s.frame_bitmap s.frame_limit);
        };
        limit = refl;
      }

  -- A used frame ends the run.
  Scanned-used :
      {frame start len : ℕ}
      → Scanned count s frame start len
      → bit_test s.frame_bitmap frame ≡ true
      → Scanned count s (frame + 1) start 0
  Scanned-used {frame} {start} {len} k used = record {
    short = omega (arith, k.short);
    behind = omega arith;
    starts = λ ne. absurd (ne refl);
    free = λ f a b. absurd (omega arith);
    wall = λ lt. let e : frame + 1 - 0 - 1 ≡ frame = omega arith in rw e used;
    passed = λ t h. elim (dec_le (t + count) frame) [
      | yes old ↦ k.passed t old
      | no new ↦ (frame, omega (arith, k.short), omega arith, used)
    ];
  }

  -- The start that the loop remembers for the run that ends at `frame`.
  abbrev run_start : ℕ → ℕ → ℕ → ℕ
  run_start frame start len = if len == 0 then frame else start

  run_start-eq :
      {frame start len : ℕ}
      → Scanned count s frame start len
      → run_start frame start len + len ≡ frame
  run_start-eq {frame} {start} {len} k = elim (Bool-cases (len == 0)) [
    | inl e ↦ rw e (ground arith)
    | inr ne ↦ rw ne (k.starts (ground arith))
  ]

  -- A free frame extends it.
  Scanned-free :
      {frame start len : ℕ}
      → Scanned count s frame start len
      → bit_test s.frame_bitmap frame ≡ false
      → (len + 1 == count) ≡ false
      → Scanned count s (frame + 1) (run_start frame start len) (len + 1)
  Scanned-free {frame} {start} {len} k free more = record {
    short = let ne : len + 1 ≢ count = ground arith in omega (arith, k.short);
    behind = omega (arith, k.behind);
    starts = λ ne. omega (arith, run_start-eq k);
    free = λ f a b. elim (ℕ_discrete f frame) [
      | yes e ↦ rw e free
      | no ne ↦ k.free f (omega arith) (omega arith)
    ];
    wall = λ lt.
        let e : frame + 1 - (len + 1) - 1 ≡ frame - len - 1 = omega arith in
        rw e (k.wall (omega arith));
    passed = λ t h. elim (dec_le (t + count) frame) [
      | yes old ↦ k.passed t old
      | no new ↦
          let ne : len + 1 ≢ count = ground arith in
          (
            frame - len - 1,
            omega (arith, k.short),
            omega (arith, k.short),
            k.wall (omega (arith, k.short)),
          )
    ];
  }

  alloc_scan-ends :
      (rounds frame start len : ℕ)
      → frame + rounds ≡ s.frame_limit
      → Scanned count s frame start len
      → Found count s (alloc_scan count rounds frame start len s)
        ⊎ Full count s (alloc_scan count rounds frame start len s)
  unfolding alloc_scan
  alloc_scan-ends zero frame start len e k =
      inr (record { unchanged = refl; no_run = λ t h. k.passed t (omega arith) })
  alloc_scan-ends (suc rounds) frame start len e k =
      elim (Bool-cases (bit_test s.frame_bitmap frame)) [
        | inl used ↦
            rw (used, alloc_scan)
              (alloc_scan-ends rounds (frame + 1) start 0 (omega arith) (Scanned-used k used))
        | inr free ↦ elim (Bool-cases (len + 1 == count)) [
          | inl enough ↦
              let n : len + 1 ≡ count = (==_iff _ _).0 enough in
              rw (free, alloc_scan, enough)
                (inl (
                  take_run (run_start frame start len) (omega (arith, run_start-eq k))
                    (λ f a b. elim (ℕ_discrete f frame) [
                      | yes e ↦ rw e free
                      | no ne ↦
                          k.free f (omega (arith, run_start-eq k)) (omega (arith, run_start-eq k))
                    ])
                    (λ t lt. k.passed t (omega (arith, run_start-eq k)))))
          | inr more ↦
              rw (free, alloc_scan, more)
                (alloc_scan-ends rounds (frame + 1) (run_start frame start len) (len + 1)
                  (omega arith) (Scanned-free k free more))
        ]
      ]

  -- On a valid allocator and for a count that is not 0, `pmm_alloc_frames` is first fit and
  -- complete: it takes the lowest run of `count` free frames,
  -- marks exactly those frames as used, counts them and returns the address of the first; only if
  -- there is no such run it returns NULL, and then it changes nothing.
  pub alloc_frames-first_fit :
      0 < count → Found count s (alloc_frames count s) ⊎ Full count s (alloc_frames count s)
  unfolding alloc_frames
  alloc_frames-first_fit pos = elim (Bool-cases (count == 0 || ltb s.frame_limit count)) [
    | inl refused ↦
        rw refused (inr (record { unchanged = refl; no_run = λ t h. absurd (ground arith) }))
    | inr runs ↦ rw runs (
        alloc_scan-ends s.frame_limit 0 0 0 (omega arith) (record {
          short = pos;
          behind = omega arith;
          starts = λ ne. absurd (ne refl);
          free = λ f a b. absurd (omega arith);
          wall = λ lt. absurd (omega arith);
          passed = λ t h. absurd (omega arith);
        }))
  ]
