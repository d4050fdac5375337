-- ===== src/Rtc/Decode.antt =====
-- The conversions of rtc.c.
use simple_kernel.Base.{
  ℕ, ◌+◌, ◌*◌, ◌%◌, ◌<◌, ◌≤◌, ◌≡◌, refl, arith, bit_and, bit_and_mask, Bool, true, false, ◌==◌,
  ==_iff, all_below, all_below_sound, ◌&&◌, if◌then◌else◌, not, ltb, ◌+◌,
}
use simple_kernel.Rtc.{bcd_to_bin, to_24_hours}

-- Two decimal digits in binary-coded form are read as the number that they stand for.
bcd_to_bin_lem :
    (tens ones : ℕ) → tens < 10 → ones < 10 → bcd_to_bin (tens * 16 + ones) ≡ tens * 10 + ones
unfolding bcd_to_bin
bcd_to_bin_lem tens ones ht ho = omega (arith, bit_and_mask 4 (tens * 16 + ones))

-- What the 12-hour clock shows as `hour` with the afternoon flag, as an hour of the day.
pub hour_of_day : ℕ → Bool → ℕ
hour_of_day hour afternoon = hour % 12 + (if afternoon then 12 else 0)

abbrev flags : ℕ → Bool
flags h =
    (bit_and h 0x80 == 0)
    && ((bit_and h 0x7F == h)
        && (not (bit_and (h + 128) 0x80 == 0) && (bit_and (h + 128) 0x7F == h)))

flag_table : all_below 13 flags ≡ true
unfolding all_below
flag_table = refl

all_four :
    (a b c d : Bool)
    → (a && (b && (c && d))) ≡ true
    → (a ≡ true) × (b ≡ true) × (c ≡ true) × (d ≡ true)
all_four true true true true h = (refl, refl, refl, refl)
all_four false b c d h = ground arith
all_four true false c d h = ground arith
all_four true true false d h = ground arith
all_four true true true false h = ground arith

-- The flag and the number that share the byte.
shown :
    (h : ℕ)
    → h ≤ 12
    → ((bit_and h 0x80 == 0) ≡ true)
      × ((bit_and h 0x7F == h) ≡ true)
      × (not (bit_and (h + 128) 0x80 == 0) ≡ true)
      × ((bit_and (h + 128) 0x7F == h) ≡ true)
shown h le =
    all_four (bit_and h 0x80 == 0) (bit_and h 0x7F == h) (not (bit_and (h + 128) 0x80 == 0))
      (bit_and (h + 128) 0x7F == h) (all_below_sound 13 flags h flag_table (omega arith))

-- On a clock in 12-hour mode the conversion is right for the hours 1 to 11, morning and afternoon;
-- at 12 it is wrong both times, since noon becomes 0 and midnight becomes 12.
pub to_24_hours-hour_of_day :
    (status_b hour : ℕ) (afternoon : Bool)
    → bit_and status_b 0x02 ≡ 0
    → 1 ≤ hour
    → hour ≤ 12
    → to_24_hours status_b (hour + (if afternoon then 128 else 0))
      ≡ (if ltb hour 12 then hour_of_day hour afternoon else hour_of_day hour (not afternoon))
unfolding to_24_hours hour_of_day
to_24_hours-hour_of_day status_b hour true mode lo hi =
    let (_, _, flag, value) = shown hour hi in
    let low : bit_and (hour + 128) 0x7F ≡ hour =
      (==_iff (bit_and (hour + 128) 0x7F) hour).0 value in
    rw (mode, flag, low) (ground arith)
to_24_hours-hour_of_day status_b hour false mode lo hi =
    let (flag, value, _, _) = shown hour hi in
    let same : hour + 0 ≡ hour = omega arith in
    let low : bit_and hour 0x7F ≡ hour = (==_iff (bit_and hour 0x7F) hour).0 value in
    rw (same, mode, flag, low) (ground arith)
