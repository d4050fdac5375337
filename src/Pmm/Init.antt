-- ===== src/Pmm/Init.antt =====
-- `pmm_init` of pmm.c.
use simple_kernel.Base.{
  in_run, ℕ, zero, suc, ◌+◌, ◌-◌, ◌*◌, ◌/◌, ◌%◌, ◌^◌, ◌<◌, ◌≤◌, ◌≡◌, refl, sym, Bool, true, false,
  ◌&&◌, ◌||◌, not, arith, ◌==◌, ==_iff, Bool-cases, inl, inr, length, all_below, all_below_sound,
  digit, u64, sub64,
}
use simple_kernel.Boot.{MemoryMapEntry, BootInfo}
use simple_kernel.Kstring.Memory.{kmemset-get, length-kmemset}
use simple_kernel.Pmm.{Pmm, page_size, max_frames, bit_test, init_entries, cleared, init}
use simple_kernel.Pmm.Bitmap.{bit_test-digit, count_free-zero}
use simple_kernel.Pmm.Marks.{touches, inside, Unmarks, reserve_range-Marks, free_range-Unmarks}
use simple_kernel.Pmm.Valid.{IsValid}

full_table : all_below 8 (λ k. digit 255 k == 1) ≡ true
unfolding all_below
full_table = refl

module _ (s : Pmm) (size : length s.frame_bitmap ≡ max_frames / 8)
    (full : s.frame_limit ≡ max_frames) where
  cleared-used : (g : ℕ) → g < max_frames → bit_test (cleared s).frame_bitmap g ≡ true
  unfolding cleared
  cleared-used g h =
      rw
        (
          bit_test-digit,
          kmemset-get 0 0xFF (length s.frame_bitmap) s.frame_bitmap (g / 8) (omega arith),
        )
        (let here : in_run 0 (length s.frame_bitmap) (g / 8) ≡ true = ground arith in
          rw here (all_below_sound 8 _ (g % 8) full_table (omega arith)))

  cleared-IsValid : IsValid (cleared s)
  cleared-IsValid = record {
    covers =
        unfold cleared in
        omega (arith, length-kmemset 0 0xFF (length s.frame_bitmap) s.frame_bitmap);
    small = unfold cleared in omega arith;
    total = unfold cleared in refl;
    counted =
        unfold cleared in
        sym (count_free-zero _ s.frame_limit (λ g lt. cleared-used g (omega arith)));
  }

-- Frame `g` lies whole inside one of the `n` entries from `i` on that are of type 1.
pub usable : (ℕ → MemoryMapEntry) → ℕ → ℕ → ℕ → Bool
usable entries zero i g = false
usable entries (suc n) i g =
    ((entries i).type == 1 && inside (entries i).base (entries i).length g)
    || usable entries n (i + 1) g

not_both : (a b c : Bool) → (not a && (not b && c)) ≡ (not (b || a) && c)
not_both a b c = ground arith

module _ (entries : ℕ → MemoryMapEntry) where
  init_entries-Unmarks :
      (n i : ℕ) {s : Pmm}
      → IsValid s
      → s.frame_limit ≡ max_frames
      → ((j : ℕ)
          → i ≤ j
          → j < i + n
          → (entries j).type ≡ 1
          → (entries j).base + (entries j).length + page_size ≤ 2 ^ 64)
      → Unmarks (usable entries n i) s (init_entries n i entries s)
  unfolding init_entries usable
  init_entries-Unmarks zero i v full fits = record { valid = v; limit = full; used = λ g. refl }
  init_entries-Unmarks (suc n) i {s} v full fits = elim (Bool-cases ((entries i).type == 1)) [
    | inl ram ↦
        let u =
          free_range-Unmarks (entries i).base (entries i).length v full
            (fits i (omega arith) (omega arith) ((==_iff _ _).0 ram)) in
        let r =
          init_entries-Unmarks n (i + 1) u.valid u.limit
            (λ j a b. fits j (omega arith) (omega arith)) in
        rw ram (record {
          valid = r.valid;
          limit = r.limit;
          used = λ g. rw (r.used g, u.used g, ram) (not_both (usable entries n (i + 1) g) _ _);
        })
    | inr other ↦
        let r =
          init_entries-Unmarks n (i + 1) v full (λ j a b. fits j (omega arith) (omega arith)) in
        rw other (record { valid = r.valid; limit = r.limit; used = λ g. rw (r.used g, other) })
  ]

-- What the boot loader has to hand over: no range wraps round the end of the address space.
pub record Fits (info_addr : ℕ) (info : BootInfo) (entries : ℕ → MemoryMapEntry) : Type 0 where
  pub map_entries :
      (j : ℕ)
      → j < info.memory_map_entries
      → (entries j).type ≡ 1
      → (entries j).base + (entries j).length + page_size ≤ 2 ^ 64
  pub kernel_start : info.kernel_phys_start ≤ info.kernel_phys_end
  pub kernel_end : info.kernel_phys_end + page_size ≤ 2 ^ 64
  pub info_end : info_addr + 56 + page_size ≤ 2 ^ 64
  pub map_end : info.memory_map_addr + 24 * info.memory_map_entries + page_size ≤ 2 ^ 64

-- Frame `g` holds a byte of what must not be given away.
pub reserved : ℕ → BootInfo → ℕ → Bool
reserved info_addr info g =
    touches 0x1000 0x4000 g
    || (touches info.memory_map_addr (24 * info.memory_map_entries) g
        || (touches info_addr 56 g
            || (touches info.kernel_phys_start (info.kernel_phys_end - info.kernel_phys_start) g
                || touches 0 0x100000 g)))

or_last :
    (a b c d e n u : Bool)
    → u ≡ true
    → (a || (b || (c || (d || (e || (n && u)))))) ≡ ((a || (b || (c || (d || e)))) || n)
or_last a b c d e n u h = ground arith

-- When `pmm_init` is done the count is right, and a frame is in use exactly if it is reserved or
-- lies whole inside no usable entry of the memory map. The bitmap and the limit are those of the
-- static variables, and no range wraps.
pub init-IsValid :
    (info_addr : ℕ) (info : BootInfo) (entries : ℕ → MemoryMapEntry) (s : Pmm)
    → length s.frame_bitmap ≡ max_frames / 8
    → s.frame_limit ≡ max_frames
    → Fits info_addr info entries
    → (g : ℕ) → g < max_frames
    → IsValid (init info_addr info entries s)
      × (bit_test (init info_addr info entries s).frame_bitmap g
          ≡ (reserved info_addr info g || not (usable entries info.memory_map_entries 0 g)))
unfolding init reserved cleared
init-IsValid info_addr info entries s size full fits g lt =
    let c = cleared-IsValid s size full in
    let m =
      init_entries-Unmarks entries info.memory_map_entries 0 c full
        (λ j a b. fits.map_entries j (omega arith)) in
    let a = reserve_range-Marks 0 0x100000 m.valid m.limit (omega arith) in
    let len : sub64 info.kernel_phys_end info.kernel_phys_start
        ≡ info.kernel_phys_end - info.kernel_phys_start =
      omega (arith, fits.kernel_start, fits.kernel_end) in
    let map : u64 (24 * info.memory_map_entries) ≡ 24 * info.memory_map_entries =
      omega (arith, fits.map_end) in
    let b =
      reserve_range-Marks info.kernel_phys_start _ a.valid a.limit
        (omega (arith, fits.kernel_end, fits.kernel_start)) in
    let d = reserve_range-Marks info_addr 56 b.valid b.limit fits.info_end in
    let e = reserve_range-Marks info.memory_map_addr _ d.valid d.limit fits.map_end in
    let f = reserve_range-Marks 0x1000 0x4000 e.valid e.limit (omega arith) in
    rw (len, map)
      (
        f.valid,
        rw (f.used g, e.used g, d.used g, b.used g, a.used g, m.used g)
            (or_last (touches 0x1000 0x4000 g)
              (touches info.memory_map_addr (24 * info.memory_map_entries) g)
              (touches info_addr 56 g)
              (touches info.kernel_phys_start (info.kernel_phys_end - info.kernel_phys_start) g)
              (touches 0 0x100000 g) (not (usable entries info.memory_map_entries 0 g)) _
              (cleared-used s size full g lt)),
      )
