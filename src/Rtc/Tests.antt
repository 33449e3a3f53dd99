-- ===== src/Rtc/Tests.antt =====
-- Concrete dates and clocks.
use ch32v303rct6_rtt_mrs.Base.{◌≤◌, ℕ, ◌+◌, ◌*◌, ◌%◌, some, none, ◌>>=◌, arith, ◌≡◌, refl, inl, ◌≢◌}
use ch32v303rct6_rtt_mrs.Rtc.Total.{calendar_total}
use ch32v303rct6_rtt_mrs.Rtc.{
  calendar, Clock, get_week, is_leap_year, get, set, seconds_of, year_seconds, month_seconds,
}
use ch32v303rct6_rtt_mrs.Rtc.Calendar.{
  IsDate, month_len, months_days, years_days, day_in_year, day_number,
}
use ch32v303rct6_rtt_mrs.Rtc.Week.{get_week_lem}
use ch32v303rct6_rtt_mrs.Rtc.RoundTrip.{stamp, get_lem, get_last_day, get-set}

-- Friday, 2024-07-19, before the clock was read.
abbrev pub start : Clock
start = record {
  counter = 0;
  daycnt = 0;
  date_time = record {
    second = 0;
    minute = 0;
    hour = 0;
    day = 0;
    month = 0;
    year = 0;
    rtc_wday = 0;
    week = 0;
  };
}

pub july-IsDate : IsDate 2024 7 19
unfolding month_len is_leap_year
july-IsDate = record { year_in = omega arith; month_in = omega arith; day_in = omega arith }

new_year_eve-IsDate : IsDate 2024 12 31
unfolding month_len is_leap_year
new_year_eve-IsDate = record { year_in = omega arith; month_in = omega arith; day_in = omega arith }

july_days : day_number 2024 7 19 ≡ 19923
unfolding years_days months_days month_len is_leap_year
july_days = refl

july_in_year : day_in_year 2024 7 19 ≡ 200
unfolding years_days months_days month_len is_leap_year
july_in_year = refl

eve_days : day_number 2024 12 31 ≡ 20088
unfolding years_days months_days month_len is_leap_year
eve_days = refl

eve_in_year : day_in_year 2024 12 31 ≡ 365
unfolding years_days months_days month_len is_leap_year
eve_in_year = refl

pub july_not_last : day_in_year 2024 7 19 ≢ 365
july_not_last = rw july_in_year λ e. omega arith

abbrev pub afternoon : Clock
afternoon = record start { counter = 86400 * 19923 + 49000 }

get_week_lem_example : get_week 2024 7 19 ≡ some ((day_number 2024 7 19 + 4) % 7)
get_week_lem_example = get_week_lem 2024 7 19 july-IsDate

pub get-afternoon :
    get afternoon
    ≡ some (record afternoon { daycnt = day_number 2024 7 19; date_time = stamp 2024 7 19 49000 })
get-afternoon =
    get_lem 2024 7 19 49000 afternoon july-IsDate (omega arith) (omega (arith, july_days))
      july_not_last (inl (omega (arith, july_days)))

get_last_day_example : get (record start { counter = 86400 * 20088 + 5 }) ≡ none
get_last_day_example =
    get_last_day 2024 12 31 5 (record start { counter = 86400 * 20088 + 5 }) new_year_eve-IsDate
      (omega arith) (omega (arith, eve_days)) eve_in_year (omega (arith, eve_days))

get-set_example :
    (set 2024 7 19 13 36 40 start >>= λ r. get r.1)
    ≡ some (record start {
      counter = 86400 * day_number 2024 7 19 + 13 * 3600 + 36 * 60 + 40;
      daycnt = day_number 2024 7 19;
      date_time = record (stamp 2024 7 19 0) { hour = 13; minute = 36; second = 40 };
    })
get-set_example =
    get-set 2024 7 19 13 36 40 start july-IsDate (omega arith) (omega arith) (omega arith)
      july_not_last (inl (omega (arith, july_days)))

-- The second counts of two instants.
seconds_epoch : seconds_of 1970 1 1 0 0 0 ≡ some 0
unfolding seconds_of month_seconds year_seconds is_leap_year
seconds_epoch = refl

seconds_2000 : seconds_of 2000 3 1 0 0 0 ≡ some 951868800
unfolding seconds_of month_seconds year_seconds is_leap_year
seconds_2000 = refl

calendar_total_example :
    (y : ℕ) × (m : ℕ) × (d : ℕ) × (calendar 20000 ≡ some (y, m, d))
    × ((1970 ≤ y) × (y ≤ 2106))
    × ((1 ≤ m) × (m ≤ 13))
    × ((1 ≤ d) × (d ≤ 31))
calendar_total_example = calendar_total 20000 (omega arith)
