-- ===== src/Pci/Tests.antt =====
-- The theorems on pci.c at a concrete configuration space.
use simple_kernel.Base.{ℕ, ◌*◌, ◌/◌, ◌%◌, ◌^◌, ◌≡◌, arith, ◌==◌, if◌then◌else◌, take}
use simple_kernel.Pci.{config_address, enumerate}
use simple_kernel.Pci.Address.{config_address-fields}
use simple_kernel.Pci.Enumerate.{present, enumerate-present}

config_address-fields_example :
    let a = config_address 3 17 5 0x0E in
    (a / 2 ^ 31 ≡ 1)
    × (a / 2 ^ 16 % 2 ^ 15 ≡ 3)
    × (a / 2 ^ 11 % 2 ^ 5 ≡ 17)
    × (a / 2 ^ 8 % 2 ^ 3 ≡ 5)
    × (a % 2 ^ 8 ≡ 0x0E / 4 * 4)
config_address-fields_example =
    config_address-fields 3 17 5 0x0E (omega arith) (omega arith) (omega arith) (omega arith)

-- One function answers, the first of the first slot.
abbrev one_device : ℕ → ℕ
one_device address = if address == 2 ^ 31 then 0x12378086 else 0xFFFFFFFF

enumerate-present_example : enumerate one_device 4 ≡ take 4 (present one_device)
enumerate-present_example = enumerate-present one_device 4
