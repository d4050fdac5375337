-- ===== src/Idt/Gate.antt =====
-- The gates and the table of idt.c.
use simple_kernel.Base.{
  ℕ, zero, suc, ◌+◌, ◌*◌, ◌/◌, ◌^◌, ◌<◌, ◌≤◌, ◌≡◌, refl, ◌∙◌, List, arith, ltb, ◌==◌, if◌then◌else◌,
  Bool-cases, inl, inr, true, false, bit_and_mask, length, length-set, get_or, set, get_or-set,
  in_run,
}
use simple_kernel.Idt.{
  Entry, Idt, entries, empty_entry, gate, set_gate, clear_from, init, install_stubs,
}

-- The three parts of the offset in a gate, each at its place, add up to the 64-bit address of the
-- handler.
pub gate-offset :
    (handler selector flags : ℕ)
    → handler < 2 ^ 64
    → let g = gate handler selector flags in
      g.offset_low + g.offset_mid * 2 ^ 16 + g.offset_high * 2 ^ 32 ≡ handler
unfolding gate
gate-offset handler selector flags h = omega (
  arith,
  bit_and_mask 16 handler,
  bit_and_mask 16 (handler / 2 ^ 16),
  bit_and_mask 32 (handler / 2 ^ 32),
)

length-clear_from : (r i : ℕ) (t : List Entry) → length (clear_from r i t) ≡ length t
unfolding clear_from
length-clear_from zero i t = refl
length-clear_from (suc r) i t =
    length-clear_from r (i + 1) (set t i empty_entry) ∙ length-set t i empty_entry

clear_from-get :
    (r i : ℕ) (t : List Entry) (j : ℕ)
    → i + r ≤ length t
    → get_or (clear_from r i t) j empty_entry
      ≡ (if in_run i r j then empty_entry else get_or t j empty_entry)
unfolding clear_from
clear_from-get zero i t j h = ground arith
clear_from-get (suc r) i t j h = ground (
  arith,
  clear_from-get r (i + 1) (set t i empty_entry) j,
  length-set t i empty_entry,
  get_or-set t i j empty_entry empty_entry,
)

install_stubs-get :
    (r v : ℕ) (stub : ℕ → ℕ) (t : Idt) (j : ℕ)
    → v + r ≤ length t.table
    → get_or (install_stubs r v stub t).table j empty_entry
      ≡ (if in_run v r j then gate (stub j) 0x08 0x8E else get_or t.table j empty_entry)
unfolding install_stubs set_gate
install_stubs-get zero v stub t j h = ground arith
install_stubs-get (suc r) v stub t j h =
    let g = gate (stub v) 0x08 0x8E in
    let rest =
      install_stubs-get r (v + 1) stub (record t { table = set t.table v g }) j
        (omega (arith, length-set t.table v g)) in
    rest
    ∙ rw (get_or-set t.table v j g empty_entry (omega arith)) (elim (Bool-cases (v == j)) [
      | inl e ↦
          let same : v ≡ j = ground arith in
          let out : in_run (v + 1) r j ≡ false = ground arith in
          let at : in_run v (suc r) j ≡ true = ground arith in rw (out, at, e, same)
      | inr ne ↦ let at : in_run (v + 1) r j ≡ in_run v (suc r) j = ground arith in rw (at, ne)
    ])

length-init : (table_addr : ℕ) (t : Idt) → length (init table_addr t).table ≡ length t.table
unfolding init
length-init table_addr t = length-clear_from entries 0 t.table

cleared-get :
    (table_addr : ℕ) (t : Idt) (j : ℕ)
    → length t.table ≡ entries
    → j < entries
    → get_or (init table_addr t).table j empty_entry ≡ empty_entry
unfolding init
cleared-get table_addr t j size h =
    let inside : in_run 0 entries j ≡ true = ground arith in
    clear_from-get entries 0 t.table j (omega arith) ∙ rw inside refl

-- After `idt_init` and the loop of `trap_init` the 48 vectors lead to their stubs, and every other
-- entry of the table is empty.
pub trap_gates :
    (table_addr : ℕ) (stub : ℕ → ℕ) (t : Idt) (j : ℕ)
    → length t.table ≡ entries
    → j < entries
    → get_or (install_stubs 48 0 stub (init table_addr t)).table j empty_entry
      ≡ (if ltb j 48 then gate (stub j) 0x08 0x8E else empty_entry)
trap_gates table_addr stub t j size h =
    let cleared : get_or (init table_addr t).table j empty_entry ≡ empty_entry =
      cleared-get table_addr t j size h in
    let full : 0 + 48 ≤ length (init table_addr t).table =
      omega (arith, length-init table_addr t, size) in
    let first : in_run 0 48 j ≡ ltb j 48 = ground arith in
    install_stubs-get 48 0 stub (init table_addr t) j full ∙ rw (cleared, first) refl
