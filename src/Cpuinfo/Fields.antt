-- ===== src/Cpuinfo/Fields.antt =====
-- The numbers that cpuinfo.c shows, as fields of the processor's signature in `eax` of leaf 1.
use simple_kernel.Base.{
  ℕ, ◌+◌, ◌*◌, ◌/◌, ◌%◌, ◌^◌, ◌<◌, ◌≡◌, refl, arith, Bool, true, ◌||◌, bit_and, bit_or,
  bit_and_mask, ◌==◌, ==_iff, all_below, all_below_sound, if◌then◌else◌, u32,
}
use simple_kernel.Cpuinfo.{Registers, cpu_info_read}

abbrev joined : ℕ → ℕ → Bool
joined base ext = bit_or base (u32 (ext * 2 ^ 4)) == base + ext * 16

joined_table : all_below 16 (λ b. all_below 16 (joined b)) ≡ true
unfolding all_below
joined_table = refl

model_or : (base ext : ℕ) → base < 16 → ext < 16 → bit_or base (u32 (ext * 2 ^ 4)) ≡ base + ext * 16
model_or base ext hb he = (==_iff (bit_or base (u32 (ext * 2 ^ 4))) (base + ext * 16)).0 (
    all_below_sound 16 (joined base) ext
      (all_below_sound 16 (λ b. all_below 16 (joined b)) base joined_table hb) he)

-- The signature's fields, in digits of base 16 and 256.
pub displayed_family : ℕ → ℕ
displayed_family eax =
    let family = eax / 2 ^ 8 % 16 in if family == 15 then 15 + eax / 2 ^ 20 % 256 else family

pub displayed_model : ℕ → ℕ
displayed_model eax =
    let family = eax / 2 ^ 8 % 16 in
    if family == 6 || family == 15
    then eax / 2 ^ 4 % 16 + eax / 2 ^ 16 % 16 * 16
    else eax / 2 ^ 4 % 16

-- The family, the model and the stepping are the ones that the signature displays.
pub cpu_info_read-displayed :
    (cpuid : ℕ → Registers)
    → let eax = (cpuid 1).eax in
      let info = cpu_info_read cpuid in
      (info.family ≡ displayed_family eax)
      × (info.model ≡ displayed_model eax)
      × (info.stepping ≡ eax % 16)
unfolding cpu_info_read displayed_family displayed_model
cpu_info_read-displayed cpuid =
    let eax = (cpuid 1).eax in
    let f : bit_and (eax / 2 ^ 8) 15 ≡ eax / 2 ^ 8 % 16 = bit_and_mask 4 (eax / 2 ^ 8) in
    let m : bit_and (eax / 2 ^ 4) 15 ≡ eax / 2 ^ 4 % 16 = bit_and_mask 4 (eax / 2 ^ 4) in
    let em : bit_and (eax / 2 ^ 16) 15 ≡ eax / 2 ^ 16 % 16 = bit_and_mask 4 (eax / 2 ^ 16) in
    let ef : bit_and (eax / 2 ^ 20) 255 ≡ eax / 2 ^ 20 % 256 = bit_and_mask 8 (eax / 2 ^ 20) in
    let both = model_or (eax / 2 ^ 4 % 16) (eax / 2 ^ 16 % 16) (omega arith) (omega arith) in
    (rw (f, ef) (ground arith), rw (f, m, em, both) refl, bit_and_mask 4 eax)
