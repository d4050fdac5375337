-- ===== src/Pci/Enumerate.antt =====
-- The enumeration of functions in pci.c.
use simple_kernel.Base.{
  ℕ, zero, suc, ◌+◌, ◌<◌, ◌≤◌, ◌≡◌, refl, sym, ap, ◌∙◌, inl, inr, arith, List, [], ◌∷◌, ◌++◌, ltb,
  ◌==◌, if◌then◌else◌, Bool-cases, false, length, length-append, take, take_all, take-take_append,
  take-append_full, length-take, append_assoc, append_nil,
}
use simple_kernel.Pci.{
  Device, absent, single_function, fill_device, scan_functions, scan_slot, scan_slots, scan_buses,
  enumerate,
}

module _ (config : ℕ → ℕ) where
  answer : ℕ → ℕ → ℕ → List Device
  answer bus slot function =
      if absent config bus slot function then [] else fill_device config bus slot function ∷ []

  present_functions : ℕ → ℕ → ℕ → ℕ → List Device
  present_functions bus slot zero function = []
  present_functions bus slot (suc rounds) function =
      answer bus slot function ++ present_functions bus slot rounds (function + 1)

  -- A slot whose function 0 does not answer is empty, and one without the multi-function bit has
  -- that function alone.
  present_slot : ℕ → ℕ → List Device
  present_slot bus slot =
      if absent config bus slot 0
      then []
      else fill_device config bus slot 0
        ∷ (if single_function config bus slot then [] else present_functions bus slot 7 1)

  present_slots : ℕ → ℕ → ℕ → List Device
  present_slots bus zero slot = []
  present_slots bus (suc rounds) slot = present_slot bus slot ++ present_slots bus rounds (slot + 1)

  present_buses : ℕ → ℕ → List Device
  present_buses zero bus = []
  present_buses (suc rounds) bus = present_slots bus 32 0 ++ present_buses rounds (bus + 1)

  -- Every function of the 256 buses that answers, in order.
  pub present : List Device
  present = present_buses 256 0

  module _ (limit : ℕ) where
    -- One round of a loop with a test of `count`: a step that adds `found`, and the rest of the
    -- loop.
    round :
        (d found more stepped result : List Device)
        → length d ≤ limit
        → (length d < limit → stepped ≡ take limit (d ++ found))
        → (length stepped ≤ limit → result ≡ take limit (stepped ++ more))
        → (if ltb (length d) limit then result else d) ≡ take limit (d ++ (found ++ more))
    round d found more stepped result room step rest = elim (Bool-cases (ltb (length d) limit)) [
      | inl e ↦
          let s = step (ground arith) in
          let short : length stepped ≤ limit = rw s (length-take limit (d ++ found)) in
          rw (e, rest short, s, take-take_append limit (d ++ found) more, append_assoc d found more)
            refl
      | inr ne ↦ rw ne (sym (take-append_full limit d (found ++ more) room (ground arith)))
    ]

    -- An array with room takes what one function answers.
    add_answer :
        (bus slot function : ℕ) (d : List Device)
        → length d < limit
        → (if absent config bus slot function
            then d
            else d ++ (fill_device config bus slot function ∷ []))
          ≡ take limit (d ++ answer bus slot function)
    unfolding answer
    add_answer bus slot function d room = elim (Bool-cases (absent config bus slot function)) [
      | inl e ↦ rw (e, append_nil d) (sym (take_all limit d (omega arith)))
      | inr e ↦
          let found = fill_device config bus slot function ∷ [] in
          rw e (sym (take_all limit (d ++ found) (omega (arith, length-append d found))))
    ]

    scan_functions-present :
        (bus slot rounds function : ℕ) (d : List Device)
        → length d ≤ limit
        → scan_functions config limit bus slot rounds function d
          ≡ take limit (d ++ present_functions bus slot rounds function)
    unfolding scan_functions present_functions
    scan_functions-present bus slot zero function d room =
        rw append_nil (sym (take_all limit d room))
    scan_functions-present bus slot (suc rounds) function d room =
        round d (answer bus slot function) (present_functions bus slot rounds (function + 1))
          (if absent config bus slot function
            then d
            else d ++ (fill_device config bus slot function ∷ []))
          _ room (add_answer bus slot function d)
          (scan_functions-present bus slot rounds (function + 1) _)

    scan_slot-present :
        (bus slot : ℕ) (d : List Device)
        → length d < limit
        → scan_slot config limit bus slot d ≡ take limit (d ++ present_slot bus slot)
    unfolding scan_slot present_slot
    scan_slot-present bus slot d room = elim (Bool-cases (absent config bus slot 0)) [
      | inl e ↦ rw (e, append_nil d) (sym (take_all limit d (omega arith)))
      | inr e ↦
          let dev = fill_device config bus slot 0 in
          let found = d ++ (dev ∷ []) in
          let short : length found ≤ limit = omega (arith, length-append d (dev ∷ [])) in
          rw e (elim (Bool-cases (single_function config bus slot)) [
            | inl one ↦ rw one (sym (take_all limit found short))
            | inr more ↦ rw more (
                scan_functions-present bus slot 7 1 found short
                ∙ ap (take limit) (append_assoc d (dev ∷ []) (present_functions bus slot 7 1)))
          ])
    ]

    scan_slots-present :
        (bus rounds slot : ℕ) (d : List Device)
        → length d ≤ limit
        → scan_slots config limit bus rounds slot d
          ≡ take limit (d ++ present_slots bus rounds slot)
    unfolding scan_slots present_slots
    scan_slots-present bus zero slot d room = rw append_nil (sym (take_all limit d room))
    scan_slots-present bus (suc rounds) slot d room =
        round d (present_slot bus slot) (present_slots bus rounds (slot + 1))
          (scan_slot config limit bus slot d) _ room (scan_slot-present bus slot d)
          (scan_slots-present bus rounds (slot + 1) _)

    scan_buses-present :
        (rounds bus : ℕ) (d : List Device)
        → length d ≤ limit
        → scan_buses config limit rounds bus d ≡ take limit (d ++ present_buses rounds bus)
    unfolding scan_buses present_buses
    scan_buses-present zero bus d room = rw append_nil (sym (take_all limit d room))
    scan_buses-present (suc rounds) bus d room =
        round d (present_slots bus 32 0) (present_buses rounds (bus + 1))
          (scan_slots config limit bus 32 0 d) _ room (λ lt. scan_slots-present bus 32 0 d room)
          (scan_buses-present rounds (bus + 1) _)

  -- `enumerate` fills the array with the first `limit` of the functions that are present.
  pub enumerate-present : (limit : ℕ) → enumerate config limit ≡ take limit present
  unfolding enumerate present
  enumerate-present zero = refl
  enumerate-present (suc n) =
      let some_room : (suc n == 0) ≡ false = ground arith in
      rw some_room (scan_buses-present (suc n) 256 0 [] (omega arith))
