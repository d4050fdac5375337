-- ===== src/Pmm/Bitmap.antt =====
-- The bits of the frame bitmap of pmm.c as a set of frames.
use simple_kernel.Base.{
  ℕ, zero, suc, ◌+◌, ◌-◌, ◌*◌, ◌/◌, ◌%◌, ◌^◌, ◌<◌, ◌≤◌, max, min, ◌≡◌, ◌≢◌, refl, Bool, true, false,
  ◌&&◌, ◌||◌, not, List, arith, ◌==◌, ==_iff, if◌then◌else◌, u8, get_or, length, length-set,
  get_or-set_self, get_or-set_ne, all_below, all_below_sound, digit, digit-bit_or, digit-bit_and,
  bit_and-bit,
}
use native.Mathlib.Nat.{one-le-pow}
use native.Mathlib.Decide.{ℕ_discrete}
use simple_kernel.Pmm.{bit_set, bit_clear, bit_test}

-- The masks of a byte and their digits, by evaluation.
mask_table :
    all_below 8 (λ k.
      (u8 (2 ^ k) == 2 ^ k)
      && all_below 8 (λ j.
        (digit (2 ^ k) j == (if k == j then 1 else 0))
        && (digit (u8 (2 ^ 32 - 1 - 2 ^ k)) j == (if k == j then 0 else 1))))
    ≡ true
unfolding all_below
mask_table = refl

and_split : (a b : Bool) → (a && b) ≡ true → (a ≡ true) × (b ≡ true)
and_split a b h = ground arith

mask_byte : (k : ℕ) → k < 8 → u8 (2 ^ k) ≡ 2 ^ k
mask_byte k h = (==_iff _ _).0 (and_split _ _ (all_below_sound 8 _ k mask_table h)).0

mask_digits :
    (k j : ℕ)
    → k < 8
    → j < 8
    → (digit (2 ^ k) j ≡ (if k == j then 1 else 0))
      × (digit (u8 (2 ^ 32 - 1 - 2 ^ k)) j ≡ (if k == j then 0 else 1))
mask_digits k j hk hj =
    let both =
      and_split _ _
        (all_below_sound 8 _ j (and_split _ _ (all_below_sound 8 _ k mask_table hk)).1 hj) in
    ((==_iff _ _).0 both.0, (==_iff _ _).0 both.1)

-- The digit that stands for a frame.
abbrev pub frame_digit : List ℕ → ℕ → ℕ
frame_digit m frame = digit (get_or m (frame / 8) 0) (frame % 8)

digit_flag : (d p : ℕ) → d < 2 → 1 ≤ p → not (d * p == 0) ≡ (d == 1)
digit_flag zero p h hp = ground arith
digit_flag (suc zero) p h hp = ground arith
digit_flag (suc (suc d)) p h hp = absurd (omega arith)

pub bit_test-digit : (m : List ℕ) (f : ℕ) → bit_test m f ≡ (frame_digit m f == 1)
unfolding bit_test
bit_test-digit m f =
    rw (mask_byte (f % 8) (omega arith), bit_and-bit (f % 8))
      (digit_flag (frame_digit m f) (2 ^ (f % 8)) (omega arith)
        (one-le-pow (f % 8) 2 (omega arith)))

digit_or_flag :
    (d e : ℕ) (b : Bool) → d < 2 → e ≡ (if b then 1 else 0) → (max d e == 1) ≡ (b || (d == 1))
digit_or_flag d e true h p = ground arith
digit_or_flag d e false h p = ground arith

digit_and_flag :
    (d e : ℕ) (b : Bool) → d < 2 → e ≡ (if b then 0 else 1) → (min d e == 1) ≡ (not b && (d == 1))
digit_and_flag d e true h p = ground arith
digit_and_flag d e false h p = ground arith

same_byte : (f g : ℕ) → f / 8 ≡ g / 8 → (f % 8 == g % 8) ≡ (f == g)
same_byte f g h = ground arith

other_byte : (f g : ℕ) → f / 8 ≢ g / 8 → (f == g) ≡ false
other_byte f g ne = ground arith

-- Setting the bit of a frame adds that frame to the set, and no other.
pub bit_test-bit_set :
    (m : List ℕ) (f g : ℕ) → f / 8 < length m → bit_test (bit_set m f) g ≡ (f == g || bit_test m g)
unfolding bit_set
bit_test-bit_set m f g h =
    rw (bit_test-digit, bit_test-digit)
      (elim (ℕ_discrete (f / 8) (g / 8)) [
        | yes e ↦
            rw
              (
                ← e,
                get_or-set_self m (f / 8) _ 0 h,
                digit-bit_or,
                mask_byte (f % 8) (omega arith),
                ← same_byte f g e,
              )
              (digit_or_flag _ _ (f % 8 == g % 8) (omega arith)
                (mask_digits (f % 8) (g % 8) (omega arith) (omega arith)).0)
        | no ne ↦ rw (get_or-set_ne m (f / 8) (g / 8) _ 0 ne, other_byte f g ne)
      ])

-- Clearing the bit of a frame takes that frame out of the set, and no other.
pub bit_test-bit_clear :
    (m : List ℕ) (f g : ℕ)
    → f / 8 < length m
    → bit_test (bit_clear m f) g ≡ (not (f == g) && bit_test m g)
unfolding bit_clear
bit_test-bit_clear m f g h =
    rw (bit_test-digit, bit_test-digit)
      (elim (ℕ_discrete (f / 8) (g / 8)) [
        | yes e ↦
            rw (← e, get_or-set_self m (f / 8) _ 0 h, digit-bit_and, ← same_byte f g e)
              (digit_and_flag _ _ (f % 8 == g % 8) (omega arith)
                (mask_digits (f % 8) (g % 8) (omega arith) (omega arith)).1)
        | no ne ↦ rw (get_or-set_ne m (f / 8) (g / 8) _ 0 ne, other_byte f g ne)
      ])

pub length-bit_set : (m : List ℕ) (f : ℕ) → length (bit_set m f) ≡ length m
unfolding bit_set
length-bit_set m f = length-set m (f / 8) _

pub length-bit_clear : (m : List ℕ) (f : ℕ) → length (bit_clear m f) ≡ length m
unfolding bit_clear
length-bit_clear m f = length-set m (f / 8) _

-- How many of the frames below `n` are free.
unfoldable pub count_free : List ℕ → ℕ → ℕ
count_free m zero = 0
count_free m (suc n) = count_free m n + (if bit_test m n then 0 else 1)

pub count_free-le : (m : List ℕ) (n : ℕ) → count_free m n ≤ n
unfolding count_free
count_free-le m zero = omega arith
count_free-le m (suc n) = ground (arith, count_free-le m n)

pub count_free-bit_set_out :
    (m : List ℕ) (f n : ℕ) → f / 8 < length m → n ≤ f → count_free (bit_set m f) n ≡ count_free m n
unfolding count_free
count_free-bit_set_out m f zero h le = refl
count_free-bit_set_out m f (suc n) h le =
    ground (arith, bit_test-bit_set m f n, count_free-bit_set_out m f n)

pub count_free-bit_set :
    (m : List ℕ) (f n : ℕ)
    → f / 8 < length m
    → f < n
    → bit_test m f ≡ false
    → count_free (bit_set m f) n + 1 ≡ count_free m n
unfolding count_free
count_free-bit_set m f zero h lt free = absurd (omega arith)
count_free-bit_set m f (suc n) h lt free = elim (ℕ_discrete f n) [
  | yes e ↦ ground (arith, bit_test-bit_set m f n, count_free-bit_set_out m f n)
  | no ne ↦ ground (arith, bit_test-bit_set m f n, count_free-bit_set m f n)
]

pub count_free-bit_clear_out :
    (m : List ℕ) (f n : ℕ)
    → f / 8 < length m
    → n ≤ f
    → count_free (bit_clear m f) n ≡ count_free m n
unfolding count_free
count_free-bit_clear_out m f zero h le = refl
count_free-bit_clear_out m f (suc n) h le =
    ground (arith, bit_test-bit_clear m f n, count_free-bit_clear_out m f n)

pub count_free-bit_clear :
    (m : List ℕ) (f n : ℕ)
    → f / 8 < length m
    → f < n
    → bit_test m f ≡ true
    → count_free (bit_clear m f) n ≡ count_free m n + 1
unfolding count_free
count_free-bit_clear m f zero h lt used = absurd (omega arith)
count_free-bit_clear m f (suc n) h lt used = elim (ℕ_discrete f n) [
  | yes e ↦ ground (arith, bit_test-bit_clear m f n, count_free-bit_clear_out m f n)
  | no ne ↦ ground (arith, bit_test-bit_clear m f n, count_free-bit_clear m f n)
]

pub count_free-zero :
    (m : List ℕ) (n : ℕ) → ((g : ℕ) → g < n → bit_test m g ≡ true) → count_free m n ≡ 0
unfolding count_free
count_free-zero m zero h = refl
count_free-zero m (suc n) h = ground (arith, h n, count_free-zero m n (λ g lt. h g (omega arith)))

pub count_free_ext :
    (m m' : List ℕ) (n : ℕ)
    → ((g : ℕ) → g < n → bit_test m g ≡ bit_test m' g)
    → count_free m n ≡ count_free m' n
unfolding count_free
count_free_ext m m' zero h = refl
count_free_ext m m' (suc n) h =
    ground (arith, h n, count_free_ext m m' n (λ g lt. h g (omega arith)))
