-- ===== src/Heap/Align.antt =====
-- `align_up` of heap.c.
use simple_kernel.Base.{
  ℕ, ◌+◌, ◌-◌, ◌*◌, ◌/◌, ◌%◌, ◌^◌, ◌<◌, ◌≡◌, arith, add64, leb, if◌then◌else◌, sub64,
  bit_and_shifted, bit_and_mask,
}
use simple_kernel.Heap.{align_up, alignment}

align_up-eq : (v : ℕ) → align_up v ≡ (v + 15) % 2 ^ 64 / 16 * 16
unfolding align_up
align_up-eq v =
    let e : sub64 (add64 v alignment) 1 ≡ (v + 15) % 2 ^ 64 = omega arith in
    rw e (
      omega (
        arith,
        bit_and_shifted 4 ((v + 15) % 2 ^ 64) (2 ^ 60 - 1),
        bit_and_mask 60 ((v + 15) % 2 ^ 64 / 2 ^ 4),
      ))

-- A size is rounded up to the next multiple of 16; the 15 largest sizes wrap to 0.
pub align_up-bounds :
    (v : ℕ) → v < 2 ^ 64 → align_up v ≡ (if leb v (2 ^ 64 - 16) then (v + 15) / 16 * 16 else 0)
align_up-bounds v h = ground (arith, align_up-eq v)

-- At every size, the rounded size modulo 2 ^ 64.
pub align_up-mod : (v : ℕ) → align_up v ≡ (v + 15) / 16 * 16 % 2 ^ 64
align_up-mod v = omega (arith, align_up-eq v)
