-- ===== src/Pmm/Align.antt =====
-- `page_align_up` and `page_align_down` of pmm.c as arithmetic.
use simple_kernel.Base.{
  ℕ, ◌+◌, ◌-◌, ◌*◌, ◌/◌, ◌^◌, ◌<◌, ◌≤◌, ◌≡◌, arith, add64, sub64, bit_and_shifted, bit_and_mask,
}
use simple_kernel.Pmm.{page_size, page_align_up, page_align_down}

pub page_align_down-eq : (a : ℕ) → a < 2 ^ 64 → page_align_down a ≡ a / page_size * page_size
unfolding page_align_down
page_align_down-eq a h =
    omega (arith, bit_and_shifted 12 a (2 ^ 52 - 1), bit_and_mask 52 (a / 2 ^ 12))

-- For an address below the last page of the address space, `page_align_up` is the next multiple of
-- the page size.
pub page_align_up-eq :
    (a : ℕ)
    → a + page_size ≤ 2 ^ 64
    → page_align_up a ≡ (a + (page_size - 1)) / page_size * page_size
unfolding page_align_up
page_align_up-eq a h =
    let e : sub64 (add64 a page_size) 1 ≡ a + 4095 = omega arith in
    rw e (
      omega
        (arith, bit_and_shifted 12 (a + 4095) (2 ^ 52 - 1), bit_and_mask 52 ((a + 4095) / 2 ^ 12)))
