-- ===== src/Time/Clock/Days.antt =====
-- The seconds of a date counted day by day, for kernel/drivers/time/cmos.cpp.
use influx.Base.{
  ℕ, zero, suc, ◌+◌, ◌-◌, ◌*◌, ◌/◌, ◌%◌, ◌≤◌, ◌<◌, ◌≡◌, refl, ap, ◌∙◌, Bool, true, false, List, [],
  ◌∷◌, some, get_elem?, ◌==◌, ◌||◌, if◌then◌else◌, add64, sub64, arith,
}
use influx.Base.Run.{ok}
use influx.Time.Clock.{
  Date, mul64, day_seconds, mon_yday, amount_of_leap_years, year_seconds, date_seconds,
}

pub days_in_year : ℕ → ℕ
days_in_year year = if year % 4 == 0 then 366 else 365

-- The days from the start of 1970 to that of the year this many years later.
pub days_before_year : ℕ → ℕ
unfolding days_in_year
days_before_year zero = 0
days_before_year (suc n) = days_before_year n + days_in_year (1970 + n)

days_before_year_lem : (n : ℕ) → days_before_year n ≡ 365 * n + (n + 1) / 4
unfolding days_before_year
days_before_year_lem zero = refl
days_before_year_lem (suc n) = let before = days_before_year_lem n in ground arith

leap_years_lem : (n : ℕ) → n < 20000 → amount_of_leap_years (1972 + n) ≡ (n + 3) / 4
unfolding amount_of_leap_years
leap_years_lem n small = ground arith

year_sum :
    (n leap : ℕ)
    → n < 20000
    → leap ≤ n
    → add64
        (mul64 (mul64 (sub64 (sub64 (1970 + n) 1970) leap) 365) day_seconds)
        (mul64 (mul64 leap 366) day_seconds)
      ≡ (365 * n + leap) * 86400
year_sum n leap small few =
    let past : sub64 (1970 + n) 1970 ≡ n = omega arith in
    let regular : sub64 n leap ≡ n - leap = omega arith in rw past (rw regular (omega arith))

-- Before 1972 the number of leap years wraps around, and the sum of seconds does so again.
year_seconds-days : (n : ℕ) → n < 20000 → year_seconds (1970 + n) ≡ days_before_year n * 86400
unfolding year_seconds
year_seconds-days zero small = unfold amount_of_leap_years days_before_year in refl
year_seconds-days (suc zero) small =
    unfold amount_of_leap_years days_before_year days_in_year in refl
year_seconds-days (suc (suc n)) small =
    let leap : amount_of_leap_years (1970 + suc (suc n)) ≡ (suc (suc n) + 1) / 4 =
      ap amount_of_leap_years (omega arith)
      ∙ leap_years_lem n (omega arith)
      ∙ ap (λ k. k / 4) (omega arith) in
    let days = days_before_year_lem (suc (suc n)) in
    let sum = year_sum (suc (suc n)) ((suc (suc n) + 1) / 4) small (omega arith) in
    rw (year_seconds, leap, days) sum

pub days_in_month : Bool → ℕ → ℕ
days_in_month leap m =
    if m == 2
    then if leap then 29 else 28
    else if m == 4 || m == 6 || m == 9 || m == 11
    then 30
    else 31

-- The days of the months up to this one.
pub days_to_month : Bool → ℕ → ℕ
unfolding days_in_month
days_to_month leap zero = 0
days_to_month leap (suc m) = days_to_month leap m + days_in_month leap (suc m)

-- The table that a count of the days month by month gives, from a month on.
counted : Bool → ℕ → ℕ → List ℕ
unfolding days_to_month
counted leap m zero = []
counted leap m (suc n) = days_to_month leap m ∷ counted leap (suc m) n

mon_yday-counted : (leap : Bool) → mon_yday leap ≡ counted leap 0 13
unfolding counted
mon_yday-counted false = refl
mon_yday-counted true = refl

get_elem?-counted :
    (leap : Bool) (m n i : ℕ)
    → i < n
    → get_elem? (counted leap m n) i ≡ some (days_to_month leap (m + i))
unfolding counted
get_elem?-counted leap m zero i small = absurd (omega (arith, small))
get_elem?-counted leap m (suc n) zero small = ap (λ k. some (days_to_month leap k)) (omega arith)
get_elem?-counted leap m (suc n) (suc i) small =
    get_elem?-counted leap (suc m) n i (omega arith)
    ∙ ap (λ k. some (days_to_month leap k)) (omega arith)

mon_yday-days :
    (leap : Bool) (m : ℕ) → m < 13 → get_elem? (mon_yday leap) m ≡ some (days_to_month leap m)
mon_yday-days leap m small =
    ap (λ months. get_elem? months m) (mon_yday-counted leap)
    ∙ get_elem?-counted leap 0 13 m small
    ∙ ap (λ k. some (days_to_month leap k)) (omega arith)

days_to_month-small : (leap : Bool) (m : ℕ) → days_to_month leap m ≤ 31 * m
unfolding days_to_month days_in_month
days_to_month-small leap zero = omega arith
days_to_month-small leap (suc m) = let before = days_to_month-small leap m in ground arith

-- For a year from 1970 to 21969, a month from 1 to 12, a day from 1 on and registers of one byte: the
-- sum of the clock driver is the number of seconds that a count gives which goes year by year and
-- month by month, every fourth year being a leap year, and then adds the days before this one, the
-- hours, the minutes and the seconds; no index of the table of months is out of bounds.
pub date_seconds-days :
    (n m : ℕ) (d : Date)
    → n < 20000
    → m < 12
    → d.month ≡ suc m
    → 0 < d.day
    → d.day < 256
    → d.hour < 256
    → d.minute < 256
    → d.second < 256
    → date_seconds (1970 + n) d
      ≡ ok (
          (days_before_year n + days_to_month ((1970 + n) % 4 == 0) m + (d.day - 1)) * 86400
          + d.hour * 3600
          + d.minute * 60
          + d.second)
unfolding date_seconds
date_seconds-days n m d small month named first day hour minute second =
    let leap = (1970 + n) % 4 == 0 in
    let month_index : sub64 d.month 1 ≡ m = omega arith in
    let days = mon_yday-days leap m (omega arith) in
    let months = days_to_month-small leap m in
    let years = year_seconds-days n small in
    let before = days_before_year_lem n in
    rw (date_seconds, month_index) (rw days (rw years (ap (λ t. ok t) (omega arith))))
