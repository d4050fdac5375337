-- ===== src/Rtc.antt =====
-- rtc.h and rtc.c: the real-time clock. What a register of the CMOS answers changes by itself, so
-- the answers come as a list, one for each read of a port, oldest first.
mod Tests
pub mod Decode
use simple_kernel.Base.{
  ℕ, zero, suc, ◌+◌, ◌*◌, ◌/◌, ◌%◌, ◌^◌, Bool, true, false, ◌&&◌, not, Option, none, some, List, [],
  ◌∷◌, bit_and, bit_or, ◌==◌, if◌then◌else◌, u8, u16,
}

pub record Time : Type 0 where
  pub second : ℕ
  pub minute : ℕ
  pub hour : ℕ
  pub day : ℕ
  pub month : ℕ
  pub year : ℕ

pub bcd_to_bin : ℕ → ℕ
bcd_to_bin value = u8 (bit_and value 0x0F + value / 16 * 10)

-- The answers run out: `none`.
pub rtc_sample : List ℕ → Option (Time × ℕ × List ℕ)
rtc_sample (s ∷ m ∷ h ∷ d ∷ mo ∷ y ∷ b ∷ rest) =
    some (record { second = s; minute = m; hour = h; day = d; month = mo; year = y }, b, rest)
rtc_sample _ = none

-- `while (rtc_updating()) {}`: the answers of register A are read up to one with bit 7 clear.
pub wait_update : List ℕ → Option (List ℕ)
wait_update [] = none
wait_update (a ∷ rest) =
    let more = wait_update rest in if not (bit_and a 0x80 == 0) then more else some rest

pub same_time : Time → Time → Bool
same_time a b =
    a.second == b.second
    && (a.minute == b.minute
        && (a.hour == b.hour && (a.day == b.day && (a.month == b.month && a.year == b.year))))

-- The second loop: samples until one agrees with the first.
pub settle : ℕ → Time → List ℕ → Option (Time × ℕ × List ℕ)
settle zero first answers = none
settle (suc fuel) first answers = elim (wait_update answers) [
  | none ↦ none
  | some ready ↦ elim (rtc_sample ready) [
    | none ↦ none
    | some (second, status_b, rest) ↦ elim (same_time first second) [
      | true ↦ some (second, status_b, rest)
      | false ↦ settle fuel first rest
    ]
  ]
]

-- The conversions behind the loops.
pub from_bcd : ℕ → Time → Time
from_bcd status_b t =
    if bit_and status_b 0x04 == 0
    then record {
      second = bcd_to_bin t.second;
      minute = bcd_to_bin t.minute;
      hour = u8 (bit_or (bit_and t.hour 0x80) (bcd_to_bin (bit_and t.hour 0x7F)));
      day = bcd_to_bin t.day;
      month = bcd_to_bin t.month;
      year = bcd_to_bin (u8 t.year);
    }
    else t

pub to_24_hours : ℕ → ℕ → ℕ
to_24_hours status_b hour =
    if bit_and status_b 0x02 == 0 && not (bit_and hour 0x80 == 0)
    then u8 ((bit_and hour 0x7F + 12) % 24)
    else bit_and hour 0x7F

pub convert : ℕ → Time → Time
convert status_b raw =
    let t = from_bcd status_b raw in
    record t { hour = to_24_hours status_b t.hour; year = u16 (2000 + t.year) }

-- `*time` afterwards; the pointer is not null. Each round of `settle` reads a register at least.
pub read_time : ℕ → List ℕ → Option Time
read_time fuel answers = elim (wait_update answers) [
  | none ↦ none
  | some ready ↦ elim (rtc_sample ready) [
    | none ↦ none
    | some (first, _, rest) ↦ elim (settle fuel first rest) [
      | none ↦ none
      | some (second, status_b, _) ↦ some (convert status_b second)
    ]
  ]
]
