-- ===== src/Gdt/Tests.antt =====
-- The theorem on gdt.c at a concrete address.
use simple_kernel.Base.{◌+◌, ◌-◌, ◌≡◌, arith}
use simple_kernel.Gdt.{init, sizeof_tss}
use simple_kernel.Gdt.Descriptors.{segment_limit, tss_base, init-descriptors}
use simple_kernel.Machine.Sample.{loaded}

init-descriptors_example :
    (tss_base (init 0x102000 0x103000 loaded.gdt).tss_seg ≡ 0x103000)
    × (segment_limit (init 0x102000 0x103000 loaded.gdt).tss_seg.low ≡ sizeof_tss - 1)
    × ((init 0x102000 0x103000 loaded.gdt).tss_seg.low.access ≡ 0x80 + 0x09)
    × ((init 0x102000 0x103000 loaded.gdt).code_seg.access ≡ 0x80 + 0x10 + 0x08 + 0x02)
    × ((init 0x102000 0x103000 loaded.gdt).code_seg.granularity ≡ 0x20)
    × ((init 0x102000 0x103000 loaded.gdt).data_seg.access ≡ 0x80 + 0x10 + 0x02)
init-descriptors_example = init-descriptors 0x102000 0x103000 loaded.gdt (omega arith)
