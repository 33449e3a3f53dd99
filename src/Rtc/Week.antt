-- ===== src/Rtc/Week.antt =====
-- `RTC_Get_Week`: the day of the week, 0 for Sunday, against the count of days since Thursday,
-- 1970-01-01.
use ch32v303rct6_rtt_mrs.Base.{
  ℕ, zero, suc, ◌+◌, ◌-◌, ◌*◌, ◌/◌, ◌%◌, ◌≤◌, ◌<◌, Bool, true, false, some, ◌==◌, leb,
  if◌then◌else◌, arith, ◌≡◌, refl,
}
use ch32v303rct6_rtt_mrs.Rtc.{week_entry, year_low, is_leap_year, get_week}
use ch32v303rct6_rtt_mrs.Rtc.Calendar.{
  IsDate, year_len, month_len, years_days, months_days, day_number,
}

pub years_days-suc :
    (year n end : ℕ) → end ≡ year + n → years_days year (suc n) ≡ years_days year n + year_len end
unfolding years_days
years_days-suc year zero end e = let e' : end ≡ year = omega arith in rw e' (omega arith)
years_days-suc year (suc n) end e = omega (arith, years_days-suc (year + 1) n end)

-- From 1970 to 2099 every fourth year is a leap year.
pub year_len-fourth : (n : ℕ) → n < 130 → year_len (1970 + n) + (n + 1) / 4 ≡ 365 + (n + 2) / 4
unfolding is_leap_year
year_len-fourth n h = ground arith

pub years_days-closed : (n : ℕ) → n ≤ 130 → years_days 1970 n ≡ 365 * n + (n + 1) / 4
unfolding years_days
years_days-closed zero h = omega arith
years_days-closed (suc n) h =
    omega (arith, years_days-suc 1970 n (1970 + n), years_days-closed n, year_len-fourth n)

-- A statement about the twelve months, checked month by month.
pub month_cases :
    (P : ℕ → Type 0)
    → P 0 × P 1 × P 2 × P 3 × P 4 × P 5 × P 6 × P 7 × P 8 × P 9 × P 10 × P 11
    → (m : ℕ) → m < 12
    → P m
month_cases P c zero h = c.0
month_cases P c (suc zero) h = c.1
month_cases P c (suc (suc zero)) h = c.2
month_cases P c (suc (suc (suc zero))) h = c.3
month_cases P c (suc (suc (suc (suc zero)))) h = c.4
month_cases P c (suc (suc (suc (suc (suc zero))))) h = c.5
month_cases P c (suc (suc (suc (suc (suc (suc zero)))))) h = c.6
month_cases P c (suc (suc (suc (suc (suc (suc (suc zero))))))) h = c.7
month_cases P c (suc (suc (suc (suc (suc (suc (suc (suc zero)))))))) h = c.8
month_cases P c (suc (suc (suc (suc (suc (suc (suc (suc (suc zero))))))))) h = c.9
month_cases P c (suc (suc (suc (suc (suc (suc (suc (suc (suc (suc zero)))))))))) h = c.10
month_cases P c (suc (suc (suc (suc (suc (suc (suc (suc (suc (suc (suc zero))))))))))) h = c.11
month_cases P c (suc (suc (suc (suc (suc (suc (suc (suc (suc (suc (suc (suc m)))))))))))) h =
    absurd (omega arith)

-- The table holds the days before each month of a common year, up to whole weeks.
week_entry_lem : (m : ℕ) → m < 12 → week_entry (suc m) ≡ some (months_days false 0 m % 7)
unfolding week_entry months_days month_len
week_entry_lem =
    month_cases (λ m. week_entry (suc m) ≡ some (months_days false 0 m % 7))
      (refl, refl, refl, refl, refl, refl, refl, refl, refl, refl, refl, refl)

pub months_days-leap :
    (m : ℕ) → m < 12 → months_days true 0 m ≡ months_days false 0 m + (if leb 2 m then 1 else 0)
unfolding months_days month_len
months_days-leap =
    month_cases (λ m. months_days true 0 m ≡ months_days false 0 m + (if leb 2 m then 1 else 0))
      (refl, refl, refl, refl, refl, refl, refl, refl, refl, refl, refl, refl)

-- A month has its place in a year of at most 366 days.
pub months_days-le :
    (leap : Bool) (m : ℕ)
    → m < 12
    → (months_days leap 0 m + month_len leap m ≤ (if leap then 366 else 365))
      × (month_len leap m ≤ 31)
unfolding months_days month_len
months_days-le true =
    month_cases (λ m. (months_days true 0 m + month_len true m ≤ 366) × (month_len true m ≤ 31))
      (omega arith)
months_days-le false =
    month_cases (λ m. (months_days false 0 m + month_len false m ≤ 365) × (month_len false m ≤ 31))
      (omega arith)

year_low_lem : (year : ℕ) → 1970 ≤ year → year ≤ 2099 → year_low year ≡ year - 1900
unfolding year_low
year_low_lem year lo hi = ground arith

pub is_leap_year-fourth :
    (year : ℕ) → 1970 ≤ year → year ≤ 2099 → is_leap_year year ≡ ((year - 1900) % 4 == 0)
unfolding is_leap_year
is_leap_year-fourth year lo hi = ground arith

-- For each valid date from 1970 to 2099 RTC_Get_Week returns the day of the week, 0 for Sunday,
-- counted from Thursday, 1970-01-01.
pub get_week_lem :
    (year month day : ℕ)
    → IsDate year month day
    → get_week year month day ≡ some ((day_number year month day + 4) % 7)
unfolding get_week
get_week_lem year zero day v = absurd (omega (arith, v.month_in))
get_week_lem year (suc m) day v =
    let low = year_low_lem year v.year_in.0 v.year_in.1 in
    let leap = is_leap_year-fourth year v.year_in.0 v.year_in.1 in
    let m' : suc m - 1 ≡ m = omega arith in
    let in_day = rw m' at v.day_in in
    ground (
      arith,
      week_entry_lem m (omega arith),
      months_days-leap m,
      years_days-closed (year - 1970),
      months_days-le (is_leap_year year) m,
    )
