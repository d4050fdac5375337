-- ===== src/Gdt.antt =====
-- gdt.c: the segment descriptors and the task state segment. The structures are packed, so `sizeof`
-- is the sum of the fields.
mod Tests
pub mod Descriptors
use simple_kernel.Base.{ℕ, List, ◌+◌, ◌-◌, ◌*◌, ◌/◌, ◌^◌, bit_and, u8, u16, u32, u64}
use simple_kernel.Kstring.{kmemset}

-- `struct gdt64_entry`
pub record Segment : Type 0 where
  pub limit_low : ℕ
  pub base_low : ℕ
  pub base_mid : ℕ
  pub access : ℕ
  pub granularity : ℕ
  pub base_high : ℕ

-- `struct tss_descriptor`, which has the fields of a segment and two more.
pub record TssDescriptor : Type 0 where
  pub low : Segment
  pub base_upper : ℕ
  pub reserved : ℕ

abbrev pub sizeof_segment : ℕ
sizeof_segment = 8

abbrev pub sizeof_tss_descriptor : ℕ
sizeof_tss_descriptor = 16

abbrev pub sizeof_gdt : ℕ
sizeof_gdt = 3 * sizeof_segment + sizeof_tss_descriptor

abbrev pub sizeof_tss : ℕ
sizeof_tss = 104

-- The static `gdt`, the bytes of the static `tss`, and what is loaded into the two registers.
pub record Gdt : Type 0 where
  pub null_seg : Segment
  pub code_seg : Segment
  pub data_seg : Segment
  pub tss_seg : TssDescriptor
  pub tss : List ℕ
  pub loaded_limit : ℕ
  pub loaded_base : ℕ
  pub task_selector : ℕ

abbrev pub zero_segment : Segment
zero_segment = record {
  limit_low = 0;
  base_low = 0;
  base_mid = 0;
  access = 0;
  granularity = 0;
  base_high = 0;
}

pub tss_descriptor : ℕ → ℕ → TssDescriptor
tss_descriptor base limit = record {
  low = record {
    limit_low = u16 (bit_and limit 0xFFFF);
    base_low = u16 (bit_and base 0xFFFF);
    base_mid = u8 (bit_and (base / 2 ^ 16) 0xFF);
    access = 0x89;
    granularity = u8 (bit_and (limit / 2 ^ 16) 0x0F);
    base_high = u8 (bit_and (base / 2 ^ 24) 0xFF);
  };
  base_upper = u32 (bit_and (base / 2 ^ 32) 0xFFFFFFFF);
  reserved = 0;
}

-- The first two arguments are the addresses of `gdt` and of `tss`. Every descriptor is overwritten.
pub init : ℕ → ℕ → Gdt → Gdt
init gdt_addr tss_addr g = record {
  null_seg = zero_segment;
  code_seg = record zero_segment { access = 0x9A; granularity = 0x20 };
  data_seg = record zero_segment { access = 0x92 };
  tss_seg = tss_descriptor tss_addr (sizeof_tss - 1);
  tss = kmemset 0 0 sizeof_tss g.tss;
  loaded_limit = sizeof_gdt - 1;
  loaded_base = u64 gdt_addr;
  task_selector = 0x18;
}
