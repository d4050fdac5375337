-- ===== src/Kstring/Number.antt =====
-- Decimal numbers in kstring.c: `ku64_to_dec` and `ku64_parse`.
use simple_kernel.Base.{
  ℕ, zero, suc, ◌+◌, ◌-◌, ◌*◌, ◌/◌, ◌%◌, ◌^◌, ◌<◌, ◌≤◌, ◌≡◌, ◌≢◌, refl, ap, ◌∙◌, ◌||◌, some, true,
  false, List, [], ◌∷◌, ◌++◌, arith, ltb, ◌==◌, ==_iff, u64, length, length-append, get_or, drop,
  set-append, snoc-append, Bool-cases, inl, inr, all_below, all_below_sound,
}
use native.Mathlib.Nat.{pow-suc}
use simple_kernel.Kstring.{
  parse_from, ku64_parse, convert_digits, copy_out, convert_u64, decimal_digits, ku64_to_dec,
  first_char,
}

decimal_table : all_below 10 (λ d. get_or decimal_digits d 0 == (d + 48)) ≡ true
unfolding all_below
decimal_table = refl

decimal_digit : (d : ℕ) → d < 10 → get_or decimal_digits d 0 ≡ d + 48
decimal_digit d h = (==_iff _ _).0 (all_below_sound 10 _ d decimal_table h)

parse_from-digit :
    (out d : ℕ) (str : List ℕ)
    → d < 10
    → out * 10 + d < 2 ^ 64
    → parse_from out ((d + 48) ∷ str) ≡ parse_from (out * 10 + d) str
unfolding parse_from
parse_from-digit out d str h fits =
    let nul : (d + 48 == 0) ≡ false = ground arith in
    let range : (ltb (d + 48) 48 || ltb 57 (d + 48)) ≡ false = ground arith in
    let step : u64 (out * 10 + (d + 48 - 48)) ≡ out * 10 + d = omega arith in rw (nul, range, step)

-- Reading what the first loop of `convert_u64` leaves gives the value that it was given.
parse_from-convert_digits :
    (room value : ℕ) (tmp : List ℕ)
    → value < 10 ^ room
    → value < 2 ^ 64
    → parse_from 0 (convert_digits 10 room decimal_digits value tmp) ≡ parse_from value tmp
unfolding convert_digits
parse_from-convert_digits zero value tmp h fits = let e : value ≡ 0 = omega arith in rw e
parse_from-convert_digits (suc room) value tmp h fits = elim (Bool-cases (value == 0)) [
  | inl e ↦
      let z : value ≡ 0 = (==_iff value 0).0 e in
      rw (e, convert_digits) (ap (λ v. parse_from v tmp) (omega arith))
  | inr ne ↦
      let whole : value / 10 * 10 + value % 10 ≡ value = omega arith in
      rw (ne, convert_digits)
        (parse_from-convert_digits room (value / 10) _ (omega (arith, pow-suc 10 room))
            (omega arith)
          ∙ ap (λ c. parse_from (value / 10) (c ∷ tmp)) (decimal_digit (value % 10) (omega arith))
          ∙ parse_from-digit (value / 10) (value % 10) tmp (omega arith) (omega arith)
          ∙ ap (λ v. parse_from v tmp) whole)
]

length-convert_digits :
    (room k value : ℕ) (digits tmp : List ℕ)
    → value < 10 ^ k
    → length (convert_digits 10 room digits value tmp) ≤ k + length tmp
unfolding convert_digits
length-convert_digits zero k value digits tmp h = omega arith
length-convert_digits (suc room) zero value digits tmp h =
    let z : (value == 0) ≡ true = ground arith in rw (z, convert_digits) (omega arith)
length-convert_digits (suc room) (suc k) value digits tmp h = elim (Bool-cases (value == 0)) [
  | inl e ↦ rw (e, convert_digits) (omega arith)
  | inr ne ↦
      rw (ne, convert_digits)
        (omega (
          arith,
          pow-suc 10 k,
          length-convert_digits room k (value / 10) digits (get_or digits (value % 10) 0 ∷ tmp)
              (omega (arith, pow-suc 10 k)),
        ))
]

convert_digits-ne_zero :
    (room value : ℕ) (tmp : List ℕ)
    → first_char tmp ≢ 0
    → first_char (convert_digits 10 room decimal_digits value tmp) ≢ 0
unfolding convert_digits
convert_digits-ne_zero zero value tmp ne = ne
convert_digits-ne_zero (suc room) value tmp ne = elim (Bool-cases (value == 0)) [
  | inl e ↦ rw (e, convert_digits) ne
  | inr more ↦
      rw (more, convert_digits)
        (convert_digits-ne_zero room (value / 10) _
          (omega (arith, decimal_digit (value % 10) (omega arith))))
]

convert_digits-append :
    (room value : ℕ) (tmp rest : List ℕ)
    → convert_digits 10 room decimal_digits value tmp ++ rest
      ≡ convert_digits 10 room decimal_digits value (tmp ++ rest)
unfolding convert_digits
convert_digits-append zero value tmp rest = refl
convert_digits-append (suc room) value tmp rest = elim (Bool-cases (value == 0)) [
  | inl e ↦ rw (e, convert_digits)
  | inr more ↦ rw (more, convert_digits) (convert_digits-append room (value / 10) _ rest)
]

first_char-append : (xs ys : List ℕ) → first_char xs ≢ 0 → first_char (xs ++ ys) ≢ 0
first_char-append [] ys ne = absurd (ne refl)
first_char-append (x ∷ xs) ys ne = ne

-- The second loop writes the digits in front of a NUL, where they fit.
copy_out-eq :
    (tmp p q : List ℕ) (size : ℕ)
    → length p + length tmp < size
    → length tmp < length q
    → copy_out tmp (length p) size (p ++ q) ≡ p ++ (tmp ++ (0 ∷ drop (suc (length tmp)) q))
unfolding copy_out
copy_out-eq tmp p [] size h room = absurd (omega arith)
copy_out-eq [] p (y ∷ q) size h room = set-append p q y 0
copy_out-eq (c ∷ tmp) p (y ∷ q) size h room =
    let fits : ltb (length p + 1) size ≡ true = ground arith in
    let next : length p + 1 ≡ length (p ++ (c ∷ [])) = omega (arith, length-append p (c ∷ [])) in
    rw (fits, set-append p q y c, next, ← snoc-append p q c)
      (copy_out-eq tmp (p ++ (c ∷ [])) q size (omega (arith, length-append p (c ∷ [])))
          (omega arith)
        ∙ snoc-append p _ c)

-- The digits of a value that is not 0, the first of which is not a NUL.
module _ (value : ℕ) (ne : value ≢ 0) (fits : value < 2 ^ 64) where
  abbrev printed : List ℕ
  printed = convert_digits 10 32 decimal_digits value []

  first_char-printed : first_char printed ≢ 0
  unfolding convert_digits
  first_char-printed =
      let more : (value == 0) ≡ false = ground arith in
      rw (more, convert_digits)
        (convert_digits-ne_zero 31 (value / 10) _
          (omega (arith, decimal_digit (value % 10) (omega arith))))

  parse-printed : (rest : List ℕ) → ku64_parse (printed ++ (0 ∷ rest)) ≡ some value
  unfolding ku64_parse
  parse-printed rest =
      let nul : (first_char (printed ++ (0 ∷ rest)) == 0) ≡ false =
        ground (arith, first_char-append printed (0 ∷ rest) first_char-printed) in
      rw (nul, convert_digits-append)
        (parse_from-convert_digits 32 value (0 ∷ rest) (omega arith) fits
          ∙ unfold parse_from in refl)

-- With a buffer of 21 bytes or more, which holds every `u64`, what `ku64_to_dec` prints is read back
-- by `ku64_parse` as the value printed.
pub ku64_parse-ku64_to_dec :
    (buffer : List ℕ) (size value : ℕ)
    → 21 ≤ size
    → size ≤ length buffer
    → value < 2 ^ 64
    → ku64_parse (ku64_to_dec buffer size value) ≡ some value
unfolding ku64_to_dec convert_u64
ku64_parse-ku64_to_dec [] size value room holds fits = absurd (omega arith)
ku64_parse-ku64_to_dec (x ∷ []) size value room holds fits = absurd (omega arith)
ku64_parse-ku64_to_dec (x ∷ y ∷ q) size value room holds fits =
    let sized : (size == 0) ≡ false = ground arith in
    elim (Bool-cases (value == 0)) [
      | inl e ↦
          let two : ltb 1 size ≡ true = ground arith in
          let z : value ≡ 0 = (==_iff value 0).0 e in
          rw (sized, e, two, z) (unfold ku64_parse parse_from in refl)
      | inr more ↦
          let ne : value ≢ 0 = ground arith in
          let short : length (printed value ne fits) ≤ 20 =
            omega (arith, length-convert_digits 32 20 value decimal_digits [] (omega arith)) in
          rw
            (
              sized,
              more,
              copy_out-eq (printed value ne fits) [] (x ∷ y ∷ q) size (omega arith) (omega arith),
            )
            (parse-printed value ne fits _)
    ]
