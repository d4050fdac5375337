-- ===== src/Idt.antt =====
-- idt.h and idt.c: the interrupt descriptor table.
mod Tests
pub mod Gate
use simple_kernel.Base.{ℕ, zero, suc, ◌+◌, ◌-◌, ◌*◌, ◌/◌, ◌^◌, List, bit_and, get_or, set, u16, u32}

abbrev pub entries : ℕ
entries = 256

pub record Entry : Type 0 where
  pub offset_low : ℕ
  pub selector : ℕ
  pub ist : ℕ
  pub type_attr : ℕ
  pub offset_mid : ℕ
  pub offset_high : ℕ
  pub zero_word : ℕ

abbrev pub empty_entry : Entry
empty_entry = record {
  offset_low = 0;
  selector = 0;
  ist = 0;
  type_attr = 0;
  offset_mid = 0;
  offset_high = 0;
  zero_word = 0;
}

-- The packed entry has 16 bytes. `table_addr` is the address of the table.
pub record Idt : Type 0 where
  pub table : List Entry
  pub limit : ℕ
  pub base : ℕ

pub gate : ℕ → ℕ → ℕ → Entry
gate handler selector flags = record {
  offset_low = u16 (bit_and handler 0xFFFF);
  selector = selector;
  ist = 0;
  type_attr = flags;
  offset_mid = u16 (bit_and (handler / 2 ^ 16) 0xFFFF);
  offset_high = u32 (bit_and (handler / 2 ^ 32) 0xFFFFFFFF);
  zero_word = 0;
}

pub set_gate : ℕ → ℕ → ℕ → ℕ → Idt → Idt
set_gate num handler selector flags t = record t {
  table = set t.table num (gate handler selector flags);
}

pub clear_from : ℕ → ℕ → List Entry → List Entry
clear_from zero i table = table
clear_from (suc rounds) i table = clear_from rounds (i + 1) (set table i empty_entry)

pub init : ℕ → Idt → Idt
init table_addr t = record {
  table = clear_from entries 0 t.table;
  limit = 16 * entries - 1;
  base = table_addr;
}

-- The loop of `trap_init`, with the stubs that it installs.
pub install_stubs : ℕ → ℕ → (ℕ → ℕ) → Idt → Idt
install_stubs zero vector stub t = t
install_stubs (suc rounds) vector stub t =
    install_stubs rounds (vector + 1) stub (set_gate vector (stub vector) 0x08 0x8E t)
