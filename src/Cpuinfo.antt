-- ===== src/Cpuinfo.antt =====
-- cpuinfo.h and cpuinfo.c: what the `cpuid` instruction says. The instruction is the parameter
-- `cpuid`, from the leaf to the four registers.
mod Tests
pub mod Fields
use simple_kernel.Base.{
  ℕ, ◌+◌, ◌*◌, ◌/◌, ◌%◌, ◌^◌, Bool, not, ◌||◌, List, [], ◌∷◌, ◌++◌, bit_and, bit_or, ◌==◌,
  if◌then◌else◌, u32,
}

pub record Registers : Type 0 where
  pub eax : ℕ
  pub ebx : ℕ
  pub ecx : ℕ
  pub edx : ℕ

pub record CpuInfo : Type 0 where
  pub vendor : List ℕ
  pub family : ℕ
  pub model : ℕ
  pub stepping : ℕ
  pub apic_present : Bool
  pub msr_supported : Bool

-- The four bytes that a store of a `u32` writes, lowest first.
abbrev pub bytes32 : ℕ → List ℕ
bytes32 w = w % 256 ∷ w / 256 % 256 ∷ w / 2 ^ 16 % 256 ∷ w / 2 ^ 24 % 256 ∷ []

-- The pointer is not null.
pub cpu_info_read : (ℕ → Registers) → CpuInfo
cpu_info_read cpuid =
    let zero_leaf = cpuid 0 in
    let one = cpuid 1 in
    let base_family = bit_and (one.eax / 2 ^ 8) 0xF in
    let ext_family = bit_and (one.eax / 2 ^ 20) 0xFF in
    let base_model = bit_and (one.eax / 2 ^ 4) 0xF in
    let ext_model = bit_and (one.eax / 2 ^ 16) 0xF in
    record {
      vendor =
          bytes32 zero_leaf.ebx ++ (bytes32 zero_leaf.edx ++ (bytes32 zero_leaf.ecx ++ (0 ∷ [])));
      family = if base_family == 0xF then u32 (base_family + ext_family) else base_family;
      model =
          if base_family == 0x6 || base_family == 0xF
          then bit_or base_model (u32 (ext_model * 2 ^ 4))
          else base_model;
      stepping = bit_and one.eax 0xF;
      apic_present = not (bit_and (one.edx / 2 ^ 9) 1 == 0);
      msr_supported = not (bit_and (one.edx / 2 ^ 5) 1 == 0);
    }
