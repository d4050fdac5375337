-- ===== src/Rtc/Tests.antt =====
-- The theorems on rtc.c at concrete times.
use simple_kernel.Base.{◌+◌, ◌≡◌, refl, arith, true, not, ltb, if◌then◌else◌}
use simple_kernel.Rtc.{to_24_hours}
use simple_kernel.Rtc.Decode.{hour_of_day, to_24_hours-hour_of_day}

-- Noon.
to_24_hours-hour_of_day_example :
    to_24_hours 4 (12 + (if true then 128 else 0))
    ≡ (if ltb 12 12 then hour_of_day 12 true else hour_of_day 12 (not true))
to_24_hours-hour_of_day_example = to_24_hours-hour_of_day 4 12 true refl (omega arith) (omega arith)
