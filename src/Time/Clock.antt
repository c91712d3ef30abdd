-- ===== src/Time/Clock.antt =====
-- The date of the clock chip in kernel/drivers/time/cmos.cpp.
pub mod Days
use influx.Base.{
  ℕ, zero, suc, ◌+◌, ◌*◌, ◌/◌, ◌%◌, Bool, true, false, not, ◌&&◌, List, [], ◌∷◌, Option, none, some,
  get_elem?, leb, ◌==◌, if◌then◌else◌, u64_mod, add64, sub64,
}
use influx.Base.Run.{Run, ok, fault, ◌>>=◌, out_of_bounds}

-- The registers of a date, which a round of reads fills.
pub record Date : Type 0 where
  pub second : ℕ
  pub minute : ℕ
  pub hour : ℕ
  pub day : ℕ
  pub month : ℕ
  pub year : ℕ
  pub century : ℕ

abbrev pub mul64 : ℕ → ℕ → ℕ
mul64 a b = (a * b) % u64_mod

abbrev pub day_seconds : ℕ
day_seconds = 86400

-- `mon_yday`.
abbrev pub mon_yday : Bool → List ℕ
mon_yday false = 0 ∷ 31 ∷ 59 ∷ 90 ∷ 120 ∷ 151 ∷ 181 ∷ 212 ∷ 243 ∷ 273 ∷ 304 ∷ 334 ∷ 365 ∷ []
mon_yday true = 0 ∷ 31 ∷ 60 ∷ 91 ∷ 121 ∷ 152 ∷ 182 ∷ 213 ∷ 244 ∷ 274 ∷ 305 ∷ 335 ∷ 366 ∷ []

unfoldable pub same_date : Date → Date → Bool
same_date a b =
    a.second == b.second
    && a.minute == b.minute
    && a.hour == b.hour
    && a.day == b.day
    && a.month == b.month
    && a.year == b.year
    && a.century == b.century

-- The reads until two rounds agree, over the rounds that the chip answers.
unfoldable pub settled_date : Date → List Date → Option Date
unfolding same_date
settled_date last [] = none
settled_date last (next ∷ rest) = if same_date last next then some next else settled_date next rest

-- `(x & 0x0F) + (x / 16) * 10`.
unfoldable pub from_bcd : ℕ → ℕ
from_bcd x = x % 16 + (x / 16) * 10

-- The same on the bits of the hour below 0x80, which keeps its value behind them.
unfoldable pub hour_from_bcd : ℕ → ℕ
hour_from_bcd x = x % 16 + ((x / 16) % 8) * 10 + ((x / 128) % 2) * 128

-- Bits 2 and 1 of the status register.
unfoldable pub is_binary : ℕ → Bool
is_binary status = (status / 4) % 2 == 1

unfoldable pub is_24_hour : ℕ → Bool
is_24_hour status = (status / 2) % 2 == 1

unfoldable pub decode : ℕ → Date → Date
unfolding is_binary from_bcd hour_from_bcd
decode status d = if is_binary status then d else record {
  second = from_bcd d.second;
  minute = from_bcd d.minute;
  hour = hour_from_bcd d.hour;
  day = from_bcd d.day;
  month = from_bcd d.month;
  year = from_bcd d.year;
  century = from_bcd d.century;
}

unfoldable pub convert_hour : ℕ → Date → Date
unfolding is_24_hour
convert_hour status d =
    if not (is_24_hour status) && (d.hour / 128) % 2 == 1
    then record d { hour = (d.hour % 128 + 12) % 24 }
    else d

unfoldable pub amount_of_leap_years : ℕ → ℕ
amount_of_leap_years current_year =
    let past = sub64 current_year 1972 in add64 (past / 4) (if past % 4 == 0 then 0 else 1)

-- The seconds before the year, and the table of its months.
unfoldable pub year_seconds : ℕ → ℕ
unfolding amount_of_leap_years
year_seconds year =
    let leap_years = amount_of_leap_years year in
    add64 (mul64 (mul64 (sub64 (sub64 year 1970) leap_years) 365) day_seconds)
      (mul64 (mul64 leap_years 366) day_seconds)

unfoldable pub months_of : ℕ → List ℕ
months_of year = mon_yday (year % 4 == 0)

-- The sum that ends the function, of a date with its full year.
unfoldable pub date_seconds : ℕ → Date → Run ℕ
unfolding year_seconds months_of
date_seconds year d = elim (get_elem? (months_of year) (sub64 d.month 1)) [
  | none ↦ fault out_of_bounds
  | some days ↦ ok (
      add64
        (add64
          (add64 (add64 (year_seconds year) (mul64 (sub64 (days + d.day) 1) day_seconds))
            (mul64 d.hour 3600))
          (mul64 d.minute 60))
        d.second)
]

unfoldable pub full_year : Date → ℕ
full_year d = add64 d.year (mul64 d.century 100)

-- Without a date that settles, the reads go on.
unfoldable pub get_unix_timestamp : ℕ → Date → List Date → Option (Run ℕ)
unfolding settled_date decode convert_hour full_year date_seconds
get_unix_timestamp status first rounds = elim (settled_date first rounds) [
  | none ↦ none
  | some raw ↦
      let d = convert_hour status (decode status raw) in some (date_seconds (full_year d) d)
]
