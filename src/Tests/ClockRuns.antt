-- ===== src/Tests/ClockRuns.antt =====
-- Runs of kernel/drivers/time/cmos.cpp at concrete dates.
use influx.Base.{◌+◌, ◌-◌, ◌*◌, ◌%◌, ◌≡◌, refl, [], ◌∷◌, none, some, ◌==◌, arith}
use influx.Base.Run.{ok}
use influx.Time.Clock.{Date, date_seconds, get_unix_timestamp}
use influx.Time.Clock.Days.{days_before_year, days_to_month, date_seconds-days}

-- The last day of a February, with the year behind its century.
abbrev leap_day : Date
leap_day = record {
  second = 56;
  minute = 34;
  hour = 12;
  day = 29;
  month = 2;
  year = 20;
  century = 20;
}

date_seconds-days_example :
    date_seconds (1970 + 50) leap_day
    ≡ ok (
        (days_before_year 50 + days_to_month ((1970 + 50) % 4 == 0) 1 + (29 - 1)) * 86400
        + 12 * 3600
        + 34 * 60
        + 56)
date_seconds-days_example =
    date_seconds-days 50 1 leap_day (omega arith) (omega arith) refl (omega arith) (omega arith)
      (omega arith) (omega arith) (omega arith)

leap_day_seconds : date_seconds 2020 leap_day ≡ ok 1582979696
unfolding date_seconds
leap_day_seconds = refl

-- The registers of the same day in decimal digits, at 12 PM on a clock of 12 hours.
abbrev noon : Date
noon = record { second = 0; minute = 0; hour = 146; day = 41; month = 2; year = 32; century = 32 }

-- That noon is given as the midnight before.
noon_is_midnight : get_unix_timestamp 0 noon (noon ∷ []) ≡ some (ok 1582934400)
unfolding get_unix_timestamp
noon_is_midnight = refl

unsettled : get_unix_timestamp 0 noon (leap_day ∷ []) ≡ none
unfolding get_unix_timestamp
unsettled = refl
