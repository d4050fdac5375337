-- ===== src/Idt/Tests.antt =====
-- The theorems on idt.c at a concrete table.
use simple_kernel.Base.{
  ℕ, ◌+◌, ◌*◌, ◌^◌, ◌≡◌, arith, ltb, if◌then◌else◌, length-replicate, get_or, replicate,
}
use simple_kernel.Idt.{Idt, entries, empty_entry, gate, init, install_stubs}
use simple_kernel.Idt.Gate.{gate-offset, trap_gates}

gate-offset_example :
    let g = gate 0xFFFFFFFF80101234 0x08 0x8E in
    g.offset_low + g.offset_mid * 2 ^ 16 + g.offset_high * 2 ^ 32 ≡ 0xFFFFFFFF80101234
gate-offset_example = gate-offset 0xFFFFFFFF80101234 0x08 0x8E (omega arith)

abbrev old_table : Idt
old_table = record { table = replicate entries (gate 77 0 0); limit = 0; base = 0 }

abbrev stub_at : ℕ → ℕ
stub_at vector = 0x100000 + vector * 16

trap_gates_example :
    get_or (install_stubs 48 0 stub_at (init 0x5000 old_table)).table 14 empty_entry
    ≡ (if ltb 14 48 then gate (stub_at 14) 0x08 0x8E else empty_entry)
trap_gates_example =
    trap_gates 0x5000 stub_at old_table 14 (length-replicate entries (gate 77 0 0)) (omega arith)
