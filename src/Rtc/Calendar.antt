-- ===== src/Rtc/Calendar.antt =====
-- The proleptic Gregorian calendar from 1970 on, as plain counts of days: what `RTC_Get` and
-- `RTC_Set` of bsp/src/bsp_rtc.c are held to.
use ch32v303rct6_rtt_mrs.Base.{ℕ, zero, suc, ◌+◌, ◌-◌, ◌≤◌, Bool, ◌||◌, ◌==◌, if◌then◌else◌}
use ch32v303rct6_rtt_mrs.Rtc.{is_leap_year}

abbrev pub year_len : ℕ → ℕ
year_len year = if is_leap_year year then 366 else 365

-- The length of month `i`, counted from 0.
unfoldable pub month_len : Bool → ℕ → ℕ
month_len leap i =
    if i == 1
    then (if leap then 29 else 28)
    else if (i == 3) || (i == 5) || (i == 8) || (i == 10)
    then 30
    else 31

-- The days of `n` years from `year` on, and of `n` months from month `i` on.
unfoldable pub years_days : ℕ → ℕ → ℕ
years_days year zero = 0
years_days year (suc n) = year_len year + years_days (year + 1) n

unfoldable pub months_days : Bool → ℕ → ℕ → ℕ
months_days leap i zero = 0
months_days leap i (suc n) = month_len leap i + months_days leap (i + 1) n

-- A date of the years that `RTC_Set` accepts.
pub record IsDate (year month day : ℕ) : Type 0 where
  pub year_in : (1970 ≤ year) × (year ≤ 2099)
  pub month_in : (1 ≤ month) × (month ≤ 12)
  pub day_in : (1 ≤ day) × (day ≤ month_len (is_leap_year year) (month - 1))

-- The days from 1970-01-01 to a date.
abbrev pub day_in_year : ℕ → ℕ → ℕ → ℕ
day_in_year year month day = months_days (is_leap_year year) 0 (month - 1) + (day - 1)

abbrev pub day_number : ℕ → ℕ → ℕ → ℕ
day_number year month day = years_days 1970 (year - 1970) + day_in_year year month day
