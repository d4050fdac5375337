-- ===== src/Gdt/Descriptors.antt =====
-- The descriptors of gdt.c, as the processor puts their fields together.
use simple_kernel.Base.{ℕ, ◌+◌, ◌-◌, ◌*◌, ◌/◌, ◌%◌, ◌^◌, ◌<◌, ◌≡◌, refl, arith, bit_and_mask}
use simple_kernel.Gdt.{Segment, TssDescriptor, Gdt, tss_descriptor, init, sizeof_tss}

pub segment_base : Segment → ℕ
segment_base s = s.base_low + s.base_mid * 2 ^ 16 + s.base_high * 2 ^ 24

pub segment_limit : Segment → ℕ
segment_limit s = s.limit_low + s.granularity % 16 * 2 ^ 16

pub tss_base : TssDescriptor → ℕ
tss_base d = segment_base d.low + d.base_upper * 2 ^ 32

-- After gdt_init with a 64-bit address of the task state segment, the task descriptor has that
-- base, the limit of its size and the type of an available task; the code segment is a present
-- 64-bit one that can be run and read, and the data segment a present one that can be written.
pub init-descriptors :
    (gdt_addr tss_addr : ℕ) (g : Gdt)
    → tss_addr < 2 ^ 64
    → let g' = init gdt_addr tss_addr g in
      (tss_base g'.tss_seg ≡ tss_addr)
      × (segment_limit g'.tss_seg.low ≡ sizeof_tss - 1)
      × (g'.tss_seg.low.access ≡ 0x80 + 0x09)
      × (g'.code_seg.access ≡ 0x80 + 0x10 + 0x08 + 0x02)
      × (g'.code_seg.granularity ≡ 0x20)
      × (g'.data_seg.access ≡ 0x80 + 0x10 + 0x02)
unfolding init tss_descriptor tss_base segment_base segment_limit
init-descriptors gdt_addr tss_addr g h = (
  omega (
    arith,
    bit_and_mask 16 tss_addr,
    bit_and_mask 8 (tss_addr / 2 ^ 16),
    bit_and_mask 8 (tss_addr / 2 ^ 24),
    bit_and_mask 32 (tss_addr / 2 ^ 32),
  ),
  refl,
  refl,
  refl,
  refl,
  refl,
)
