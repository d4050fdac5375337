-- ===== src/Pci/Address.antt =====
-- The address that pci.c writes to the configuration port.
use simple_kernel.Base.{
  ℕ, ◌+◌, ◌-◌, ◌*◌, ◌/◌, ◌%◌, ◌^◌, ◌<◌, ◌≡◌, arith, bit_and, bit_or, bit_or_fields, bit_and_shifted,
  bit_and_mask, u32,
}
use simple_kernel.Pci.{config_address}

offset_mask : (offset : ℕ) → offset < 256 → bit_and offset 0xFC ≡ offset / 4 * 4
offset_mask offset h =
    omega (arith, bit_and_shifted 2 offset (2 ^ 6 - 1), bit_and_mask 6 (offset / 2 ^ 2))

-- For a bus, slot, function and offset in range the fields lie where the configuration mechanism has
-- them: the enable bit, 8 bits of bus, 5 of slot, 3 of function, and the offset of the word.
pub config_address-fields :
    (bus slot function offset : ℕ)
    → bus < 256
    → slot < 32
    → function < 8
    → offset < 256
    → let a = config_address bus slot function offset in
      (a / 2 ^ 31 ≡ 1)
      × (a / 2 ^ 16 % 2 ^ 15 ≡ bus)
      × (a / 2 ^ 11 % 2 ^ 5 ≡ slot)
      × (a / 2 ^ 8 % 2 ^ 3 ≡ function)
      × (a % 2 ^ 8 ≡ offset / 4 * 4)
unfolding config_address
config_address-fields bus slot function offset hb hs hf ho =
    let b : u32 (bus * 2 ^ 16) ≡ bus * 2 ^ 16 = omega arith in
    let s : u32 (slot * 2 ^ 11) ≡ slot * 2 ^ 11 = omega arith in
    let f : u32 (function * 2 ^ 8) ≡ function * 2 ^ 8 = omega arith in
    let one : bit_or (2 ^ 31) (bus * 2 ^ 16) ≡ (2 ^ 15 + bus) * 2 ^ 16 =
      omega (arith, bit_or_fields 31 1 (bus * 2 ^ 16) (omega arith)) in
    let two : bit_or ((2 ^ 15 + bus) * 2 ^ 16) (slot * 2 ^ 11)
        ≡ ((2 ^ 15 + bus) * 2 ^ 5 + slot) * 2 ^ 11 =
      omega (arith, bit_or_fields 16 (2 ^ 15 + bus) (slot * 2 ^ 11) (omega arith)) in
    let three : bit_or (((2 ^ 15 + bus) * 2 ^ 5 + slot) * 2 ^ 11) (function * 2 ^ 8)
        ≡ (((2 ^ 15 + bus) * 2 ^ 5 + slot) * 2 ^ 3 + function) * 2 ^ 8 =
      omega (
        arith,
        bit_or_fields 11 ((2 ^ 15 + bus) * 2 ^ 5 + slot) (function * 2 ^ 8) (omega arith),
      ) in
    rw
      (
        b,
        s,
        f,
        offset_mask offset ho,
        one,
        two,
        three,
        bit_or_fields 8 (((2 ^ 15 + bus) * 2 ^ 5 + slot) * 2 ^ 3 + function) (offset / 4 * 4)
            (omega arith),
      )
      (omega arith, omega arith, omega arith, omega arith, omega arith)
