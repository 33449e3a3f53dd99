-- ===== src/Rtc/RoundTrip.antt =====
-- `RTC_Get` and `RTC_Set`: what a date and a time of day become, and that they come back.
use ch32v303rct6_rtt_mrs.Base.{
  ℕ, ◌+◌, ◌-◌, ◌*◌, ◌/◌, ◌%◌, ◌^◌, ◌<◌, true, false, some, none, ◌==◌, ◌>>=◌, get_elem?,
  if◌then◌else◌, arith, ◌≡◌, ◌≢◌, ◌⊎◌, refl, Bool-cases, inl, inr,
}
use ch32v303rct6_rtt_mrs.Rtc.{
  Clock, DateTime, get_week, is_leap_year, calendar, get, year_seconds, seconds_of, set, week_names,
  get_time,
}
use ch32v303rct6_rtt_mrs.Rtc.Calendar.{
  IsDate, year_len, month_len, months_days, day_in_year, day_number,
}
use ch32v303rct6_rtt_mrs.Rtc.Loops.{
  year_loop_lem, month_loop_lem, year_seconds_lem, month_seconds_lem,
}
use ch32v303rct6_rtt_mrs.Rtc.Week.{years_days-closed, months_days-le, get_week_lem}

-- A day is in its year, and the days of all the years fit 16 bits.
pub day_in_year-lt :
    (year month day : ℕ)
    → IsDate year month day
    → (day_in_year year month day < year_len year) × (day_number year month day < 47847)
day_in_year-lt year month day v = ground (
  arith,
  v.year_in,
  v.month_in,
  v.day_in,
  months_days-le (is_leap_year year) (month - 1),
  years_days-closed (year - 1970),
)

-- Every date but the last of a leap year is found from its day number.
pub calendar_lem :
    (year month day : ℕ)
    → IsDate year month day
    → day_in_year year month day ≢ 365
    → calendar (day_number year month day) ≡ some (year, month, day)
unfolding calendar
calendar_lem year month day v ne = ground (
  arith,
  day_in_year-lt year month day v,
  year_loop_lem (year - 1970) 200 1970 (day_in_year year month day) (day_number year month day)
      year,
  months_days-le (is_leap_year year) (month - 1),
  month_loop_lem (month - 1) 13 (is_leap_year year) 0 (day - 1) (day_in_year year month day)
      (month - 1),
)

months_days-common : months_days false 0 12 ≡ 365
unfolding months_days month_len
months_days-common = refl

-- On the last day of a leap year the loops name month 13 of the next year.
pub calendar_last_day :
    (year month day : ℕ)
    → IsDate year month day
    → day_in_year year month day ≡ 365
    → calendar (day_number year month day) ≡ some (year + 1, 13, 1)
unfolding calendar
calendar_last_day year month day v last =
    let leap : is_leap_year year ≡ true = ground (arith, day_in_year-lt year month day v) in
    let next : is_leap_year (year + 1) ≡ false = is_leap_year-next year leap in
    ground (
      arith,
      day_in_year-lt year month day v,
      months_days-common,
      year_loop_lem (year - 1970) 200 1970 365 (day_number year month day) year,
      month_loop_lem 12 13 (is_leap_year (year + 1)) 0 0 365 12,
    )
  where
    is_leap_year-next : (y : ℕ) → is_leap_year y ≡ true → is_leap_year (y + 1) ≡ false
    is_leap_year-next y h = unfold is_leap_year in ground arith

-- What `RTC_Get` fills in for a date and a second of the day.
abbrev pub stamp : ℕ → ℕ → ℕ → ℕ → DateTime
stamp year month day secs =
    let wday = (day_number year month day + 4) % 7 in
    record {
      second = secs % 60;
      minute = secs % 3600 / 60;
      hour = secs / 3600;
      day = day;
      month = month;
      year = year;
      rtc_wday = wday;
      week = if wday == 0 then 2 ^ 32 - 1 else wday - 1;
    }

-- The day number kept in `daycnt` is another one, or the date kept is the date.
abbrev pub Fresh : ℕ → ℕ → ℕ → Clock → Type 0
Fresh year month day c =
    (c.daycnt ≢ day_number year month day)
    ⊎ ((c.date_time.year ≡ year) × (c.date_time.month ≡ month) × (c.date_time.day ≡ day))

module _ (year month day secs : ℕ) (c : Clock) (v : IsDate year month day) (in_day : secs < 86400)
    (now : c.counter ≡ 86400 * day_number year month day + secs) where
  date_read :
      day_in_year year month day ≢ 365
      → Fresh year month day c
      → (if c.daycnt == c.counter / 86400
          then some (c.date_time.year, c.date_time.month, c.date_time.day)
          else calendar (c.counter / 86400))
        ≡ some (year, month, day)
  date_read ne fresh =
      let e : c.counter / 86400 ≡ day_number year month day = omega arith in
      rw e (ground (arith, calendar_lem year month day v ne))

  -- From a counter of 86400 times a valid date's day number plus a second of the day, RTC_Get
  -- reads the date, the time of day and the day of the week; the date is not the last day of a
  -- leap year, and the day number kept is another one or the date kept is the date.
  pub get_lem :
      day_in_year year month day ≢ 365
      → Fresh year month day c
      → get c
        ≡ some
            (record c { daycnt = day_number year month day; date_time = stamp year month day secs })
  unfolding get
  get_lem ne fresh =
      rw (date_read ne fresh, get_week_lem year month day v)
        (ground (arith, day_in_year-lt year month day v))

  -- On the last day of a leap year, when the day number kept is another one, RTC_Get reads
  -- outside table_week.
  pub get_last_day :
      day_in_year year month day ≡ 365 → c.daycnt ≢ day_number year month day → get c ≡ none
  unfolding get
  get_last_day last stale =
      let e : c.counter / 86400 ≡ day_number year month day = omega arith in
      let found = calendar_last_day year month day v last in
      rw e (ground (arith, outside (year + 1) 1))
    where
      outside : (y d : ℕ) → get_week y 13 d ≡ none
      outside y d = unfold get_week in refl

-- For a valid date from 1970 to 2099 and a valid time of day, RTC_Set answers 0, writes the count
-- of seconds since 1970-01-01 to the counter, and changes nothing else.
pub set_lem :
    (year month day hour minute second : ℕ) (c : Clock)
    → IsDate year month day
    → hour < 24
    → minute < 60
    → second < 60
    → set year month day hour minute second c
      ≡ some (
        0,
        record c {
          counter = 86400 * day_number year month day + hour * 3600 + minute * 60 + second;
        },
      )
unfolding set seconds_of
set_lem year month day hour minute second c v h m s = rw month_ok (
    ground (
      arith,
      day_in_year-lt year month day v,
      year_seconds_lem (year - 1970) 1970 0,
      month_seconds_lem (month - 1) (is_leap_year year) 0 (year_seconds (year - 1970) 1970 0),
    ))
  where
    month_ok : (month + 255) % 256 ≡ month - 1
    month_ok = omega (arith, v.month_in)

-- The time that RTC_Get reads after RTC_Set, before the counter moves, is the valid time that was
-- set, with its day of the week; the date is not the last day of a leap year, and the day number
-- kept is another one or the date kept is the date.
pub get-set :
    (year month day hour minute second : ℕ) (c : Clock)
    → IsDate year month day
    → hour < 24
    → minute < 60
    → second < 60
    → day_in_year year month day ≢ 365
    → Fresh year month day c
    → (set year month day hour minute second c >>= λ r. get r.1)
      ≡ some (record c {
        counter = 86400 * day_number year month day + hour * 3600 + minute * 60 + second;
        daycnt = day_number year month day;
        date_time = record (stamp year month day 0) {
          hour = hour;
          minute = minute;
          second = second;
        };
      })
get-set year month day hour minute second c v h m s ne fresh =
    let secs = hour * 3600 + minute * 60 + second in
    let count = 86400 * day_number year month day + hour * 3600 + minute * 60 + second in
    let c' : Clock = record c { counter = count } in
    rw
      (
        set_lem year month day hour minute second c v h m s,
        get_lem year month day secs c' v (omega arith) (omega arith) ne fresh,
      )
      (ground arith)

-- Where RTC_Get reads a valid date and a second of the day, the date not the last day of a leap
-- year and the date kept not stale, BSP_Get_RTC_Time takes for the log the name of the day of the
-- week, but on Sundays an entry outside the table of names.
pub get_time_lem :
    (year month day secs : ℕ) (c : Clock)
    → IsDate year month day
    → secs < 86400
    → c.counter ≡ 86400 * day_number year month day + secs
    → day_in_year year month day ≢ 365
    → Fresh year month day c
    → (c' : Clock) × (get c ≡ some c')
      × (get_time c
          ≡ some (
            c',
            if (day_number year month day + 4) % 7 == 0
                then none
                else get_elem? week_names ((day_number year month day + 3) % 7),
          ))
unfolding get_time
get_time_lem year month day secs c v in_day now ne fresh =
    let read = get_lem year month day secs c v in_day now ne fresh in
    let n = day_number year month day in
    (
      _,
      read,
      rw read (elim (Bool-cases ((n + 4) % 7 == 0)) [
        | inl e ↦ rw e refl
        | inr e ↦ let same : (n + 4) % 7 - 1 ≡ (n + 3) % 7 = ground arith in rw (e, same) refl
      ]),
    )
