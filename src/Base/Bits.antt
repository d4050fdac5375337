-- ===== src/Base/Bits.antt =====
-- `&` and `|` of C on numbers.
use Prim.Native.Nat.{
  ℕ, zero, suc, ◌+◌, ◌-◌, ◌*◌, ◌/◌, ◌%◌, ◌^◌, ◌≤◌, ◌<◌, min, max, bit_and, bit_or,
}
use Prim.Native.Nat.{digits, bitwise, bit_and-bitwise, bit_or-bitwise}
use mathlib.Core.Path.{◌≡◌, refl, ap, ◌∙◌}
use mathlib.Core.Bool.{Bool, true, ◌&&◌}
use native.Mathlib.Nat.{le_refl, pow-suc, one-le-pow, div-div-eq-div-mul, mul_comm}
use mathlib.Core.Logic.{inl, inr}
use native.Mathlib.Omega.{arith}
use simple_kernel.Base.Tests.{leb, Bool-cases}

-- A test at every number below a bound, by evaluation, and what it says of one of them.
unfoldable pub all_below : ℕ → (ℕ → Bool) → Bool
all_below zero test = true
all_below (suc bound) test = all_below bound test && test bound

pub all_below_sound :
    (bound : ℕ) (test : ℕ → Bool) (x : ℕ) → all_below bound test ≡ true → x < bound → test x ≡ true
unfolding all_below
all_below_sound zero test x passed small = absurd (omega arith)
all_below_sound (suc bound) test x passed small = ground (arith, all_below_sound bound test x)

-- Both operations are `bitwise` at the digits of a table. `base` says that the table's value at an
-- empty first operand is itself made digit by digit.
module _ (rest : ℕ → ℕ) (table : ℕ → ℕ → ℕ)
    (base : (y : ℕ) → rest y ≡ rest (y / 2) * 2 + table 0 (y % 2)) where
  one_more : (k x y : ℕ) → x ≤ k → digits rest table (suc k) x y ≡ digits rest table k x y
  one_more zero zero y h = refl
  one_more zero (suc x) y h = absurd (omega arith)
  one_more (suc k) zero y h = refl
  one_more (suc k) (suc x) y h = rw (one_more k (suc x / 2) (y / 2) (omega arith)) refl

  settled : (k x y : ℕ) → x ≤ k → digits rest table k x y ≡ bitwise rest table x y
  settled zero x y h = let none_left : x ≡ 0 = omega arith in rw none_left refl
  settled (suc k) x y h = elim (Bool-cases (leb x k)) [
    | inl more ↦ one_more k x y (ground arith) ∙ settled k x y (ground arith)
    | inr last ↦ let all : x ≡ suc k = ground arith in rw all refl
  ]

  low_digit :
      (x y : ℕ)
      → bitwise rest table x y ≡ bitwise rest table (x / 2) (y / 2) * 2 + table (x % 2) (y % 2)
  low_digit zero y = base y
  low_digit (suc x) y = omega (arith, settled x (suc x / 2) (y / 2) (omega arith))

pub bit_and_step : (a b : ℕ) → bit_and a b ≡ bit_and (a / 2) (b / 2) * 2 + min (a % 2) (b % 2)
bit_and_step a b = simp bit_and-bitwise (low_digit (λ y. 0) min (λ y. omega arith) a b)

pub bit_or_step : (a b : ℕ) → bit_or a b ≡ bit_or (a / 2) (b / 2) * 2 + max (a % 2) (b % 2)
bit_or_step a b = simp bit_or-bitwise (low_digit (λ y. y) max (λ y. omega arith) a b)

zero_operand : (k x : ℕ) → x ≤ k → (bit_and x 0 ≡ 0) × (bit_or x 0 ≡ x)
zero_operand k zero h = (refl, refl)
zero_operand zero (suc x) h = absurd (omega arith)
zero_operand (suc k) (suc x) h =
    let half = zero_operand k (suc x / 2) (omega arith) in
    (omega (arith, bit_and_step (suc x) 0, half.0), omega (arith, bit_or_step (suc x) 0, half.1))

pub bit_and-zero : (a : ℕ) → bit_and a 0 ≡ 0
bit_and-zero a = (zero_operand a a (le_refl _)).0

pub bit_or-zero : (a : ℕ) → bit_or a 0 ≡ a
bit_or-zero a = (zero_operand a a (le_refl _)).1

double-pow : (q k : ℕ) → q * 2 ^ suc k ≡ 2 * (q * 2 ^ k)
double-pow q k = omega (arith, ap (λ (t : ℕ). q * t) (pow-suc 2 k))

div-pow-suc : (a k : ℕ) → a / 2 ^ suc k ≡ a / 2 / 2 ^ k
div-pow-suc a k = rw (pow-suc, div-div-eq-div-mul) (ap (λ (t : ℕ). a / t) (mul_comm (2 ^ k) 2))

-- The low field of a word: putting it under a high one, and masking it out again.
low_field :
    (width high low : ℕ)
    → low < 2 ^ width
    → (bit_or (high * 2 ^ width) low ≡ high * 2 ^ width + low)
      × (bit_and (high * 2 ^ width + low) (2 ^ width - 1) ≡ low)
low_field zero high low fits =
    let none_left : low ≡ 0 = omega arith in
    rw (none_left, bit_and-zero, bit_or-zero) (omega arith, refl)
low_field (suc width) high low fits =
    let whole = high * 2 ^ suc width in
    let half = low_field width high (low / 2) (omega (arith, pow-suc 2 width)) in
    let twice = double-pow high width in
    (
      ground (arith, twice, half.0, bit_or_step whole low),
      ground
          (arith, pow-suc 2 width, twice, half.1, bit_and_step (whole + low) (2 ^ suc width - 1)),
    )

-- `(q << k) | r` is a sum when `r` fits `k` bits.
pub bit_or_fields : (k q r : ℕ) → r < 2 ^ k → bit_or (q * 2 ^ k) r ≡ q * 2 ^ k + r
bit_or_fields k q r fits = (low_field k q r fits).0

-- A mask of `k` low bits is the remainder by `2 ^ k`.
pub bit_and_mask : (k a : ℕ) → bit_and a (2 ^ k - 1) ≡ a % 2 ^ k
bit_and_mask k a =
    let positive = one-le-pow k 2 in
    let masked = (low_field k (a / 2 ^ k) (a % 2 ^ k) (ground (arith, positive))).1 in
    ground (arith, positive, masked)

-- A mask shifted up by `k` reads the digits above the `k` lowest.
pub bit_and_shifted : (k a m : ℕ) → bit_and a (m * 2 ^ k) ≡ bit_and (a / 2 ^ k) m * 2 ^ k
bit_and_shifted zero a m =
    let e : m * 2 ^ 0 ≡ m = omega arith in
    let d : a / 2 ^ 0 ≡ a = omega arith in rw (e, d) (omega arith)
bit_and_shifted (suc k) a m = ground (
  arith,
  bit_and_step a (m * 2 ^ suc k),
  double-pow m k,
  double-pow (bit_and (a / 2 ^ suc k) m) k,
  div-pow-suc a k,
  bit_and_shifted k (a / 2) m,
)

-- The `k`th binary digit.
abbrev pub digit : ℕ → ℕ → ℕ
digit a k = a / 2 ^ k % 2

pub digit-suc : (a k : ℕ) → digit a (suc k) ≡ digit (a / 2) k
digit-suc a k = ap (λ (t : ℕ). t % 2) (div-pow-suc a k)

pub digit-bit_or : (k a b : ℕ) → digit (bit_or a b) k ≡ max (digit a k) (digit b k)
digit-bit_or zero a b = omega (arith, bit_or_step a b)
digit-bit_or (suc k) a b =
    let half : bit_or a b / 2 ≡ bit_or (a / 2) (b / 2) = omega (arith, bit_or_step a b) in
    rw (digit-suc a k, digit-suc b k, digit-suc (bit_or a b) k, half)
      (digit-bit_or k (a / 2) (b / 2))

pub digit-bit_and : (k a b : ℕ) → digit (bit_and a b) k ≡ min (digit a k) (digit b k)
digit-bit_and zero a b = omega (arith, bit_and_step a b)
digit-bit_and (suc k) a b =
    let half : bit_and a b / 2 ≡ bit_and (a / 2) (b / 2) = omega (arith, bit_and_step a b) in
    rw (digit-suc a k, digit-suc b k, digit-suc (bit_and a b) k, half)
      (digit-bit_and k (a / 2) (b / 2))

-- A mask of one bit reads that digit.
pub bit_and-bit : (k a : ℕ) → bit_and a (2 ^ k) ≡ digit a k * 2 ^ k
bit_and-bit k a =
    let e : 1 * 2 ^ k ≡ 2 ^ k = omega arith in
    rw e at (bit_and_shifted k a 1) ∙ ap (λ (t : ℕ). t * 2 ^ k) (bit_and_mask 1 (a / 2 ^ k))
