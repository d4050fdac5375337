-- ===== src/Cpuinfo/Tests.antt =====
-- The theorem on cpuinfo.c at a concrete processor.
use simple_kernel.Base.{ℕ, ◌%◌, ◌≡◌}
use simple_kernel.Cpuinfo.{Registers, cpu_info_read}
use simple_kernel.Cpuinfo.Fields.{displayed_family, displayed_model, cpu_info_read-displayed}

abbrev family_six : ℕ → Registers
family_six leaf = record { eax = 0x000906EA; ebx = 0; ecx = 0; edx = 0 }

cpu_info_read-displayed_example :
    ((cpu_info_read family_six).family ≡ displayed_family 0x000906EA)
    × ((cpu_info_read family_six).model ≡ displayed_model 0x000906EA)
    × ((cpu_info_read family_six).stepping ≡ 0x000906EA % 16)
cpu_info_read-displayed_example = cpu_info_read-displayed family_six
