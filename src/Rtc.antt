-- ===== src/Rtc.antt =====
-- bsp/src/bsp_rtc.c: the calendar over the 32-bit seconds counter of the real-time clock.
-- `none` is a read outside one of the file's tables, or a loop that ran out of its rounds.
pub mod Calendar
pub mod Loops
pub mod Week
pub mod RoundTrip
pub mod Start
pub mod Device
pub mod Total
pub mod Tests
use Prim.Native.String.{String}
use ch32v303rct6_rtt_mrs.Base.{
  ℕ, zero, suc, ◌+◌, ◌-◌, ◌*◌, ◌/◌, ◌%◌, ◌^◌, Bool, true, false, ◌&&◌, ◌||◌, Option, none, some,
  List, [], ◌∷◌, ltb, leb, ◌==◌, if◌then◌else◌, ◌>>=◌, u8, u16, u32, get_elem?,
}

abbrev pub table_week : List ℕ
table_week = 0 ∷ 3 ∷ 3 ∷ 6 ∷ 1 ∷ 4 ∷ 6 ∷ 2 ∷ 5 ∷ 0 ∷ 3 ∷ 5 ∷ []

abbrev pub mon_table : List ℕ
mon_table = 31 ∷ 28 ∷ 31 ∷ 30 ∷ 31 ∷ 30 ∷ 31 ∷ 31 ∷ 30 ∷ 31 ∷ 30 ∷ 31 ∷ []

-- `TsRtcDateTime`. `week` is `TeWeek`, an unsigned int.
pub record DateTime : Type 0 where
  pub second : ℕ
  pub minute : ℕ
  pub hour : ℕ
  pub day : ℕ
  pub month : ℕ
  pub year : ℕ
  pub rtc_wday : ℕ
  pub week : ℕ

-- The static variables of the file, and the counter register that `RTC_SetCounter` writes and
-- `RTC_GetCounter` reads.
pub record Clock : Type 0 where
  pub counter : ℕ
  pub daycnt : ℕ
  pub date_time : DateTime

-- The column of `table_week` is `month - 1`, in `int`: month 0 is outside the table.
week_entry : ℕ → Option ℕ
week_entry zero = none
week_entry (suc m) = get_elem? table_week m

pub year_low : ℕ → ℕ
year_low year =
    let low = u8 (year % 100) in if ltb 19 (u8 (year / 100)) then u8 (low + 100) else low

-- `temp2` is a `uint16_t`; it is at least 1 where it is decremented, if `day` is.
pub get_week : ℕ → ℕ → ℕ → Option ℕ
unfolding week_entry year_low
get_week year month day = do
  entry ← week_entry month
  let low = year_low year
  let base = u16 ((low + low / 4) % 7 + day + entry)
  let temp = if (low % 4 == 0) && ltb month 3 then u16 (base + 65535) else base
  some (temp % 7)

pub is_leap_year : ℕ → Bool
is_leap_year year =
    if year % 4 == 0
    then (if year % 100 == 0 then (if year % 400 == 0 then true else false) else true)
    else false

-- `while (temp >= 365)`: the year and the days left.
pub year_loop : ℕ → ℕ → ℕ → Option (ℕ × ℕ)
year_loop zero temp year = none
year_loop (suc fuel) temp year =
    let after_leap = year_loop fuel (temp - 366) (u16 (year + 1)) in
    let after_common = year_loop fuel (temp - 365) (u16 (year + 1)) in
    if leb 365 temp
    then (if is_leap_year year
        then (if leb 366 temp then after_leap else some (u16 (year + 1), temp))
        else after_common)
    else some (year, temp)

-- `while (temp >= 28)`: the month, from 0, and the days left.
pub month_loop : ℕ → Bool → ℕ → ℕ → Option (ℕ × ℕ)
month_loop zero leap temp month = none
month_loop (suc fuel) leap temp month =
    let after_leap = month_loop fuel leap (temp - 29) (u16 (month + 1)) in
    let later = λ (days : ℕ). month_loop fuel leap (temp - days) (u16 (month + 1)) in
    if leb 28 temp
    then (if leap && (month == 1)
        then (if leb 29 temp then after_leap else some (month, temp))
        else (get_elem? mon_table month >>= λ days.
            let after = later days in if leb days temp then after else some (month, temp)))
    else some (month, temp)

-- The date part of `RTC_Get`, run when the day number has changed: year, month and day.
pub calendar : ℕ → Option (ℕ × ℕ × ℕ)
calendar day_number = do
  (year, rest) ← year_loop 200 day_number 1970
  (month, left) ← month_loop 13 (is_leap_year year) rest 0
  some (year, u8 (month + 1), u8 (left + 1))

-- `RTC_Get`. The day number of a 32-bit counter fits the `uint16_t` of `daycnt`.
pub get : Clock → Option Clock
get c =
    let day_number = c.counter / 86400 in
    let secs = c.counter % 86400 in
    let old = c.date_time in
    do
      (year, month, day) ←
          (if c.daycnt == day_number
            then some (old.year, old.month, old.day)
            else calendar day_number)
      wday ← get_week year month day
      some (record c {
        daycnt = u16 day_number;
        date_time = record {
          second = secs % 3600 % 60;
          minute = secs % 3600 / 60;
          hour = secs / 3600;
          day = day;
          month = month;
          year = year;
          rtc_wday = wday;
          week = u32 (wday + (2 ^ 32 - 1));
        };
      })

-- `for (t = 1970; t < syear; t++)`, over the rounds left.
pub year_seconds : ℕ → ℕ → ℕ → ℕ
year_seconds zero t sum = sum
year_seconds (suc left) t sum =
    year_seconds left (u16 (t + 1))
      (if is_leap_year t then u32 (sum + 31622400) else u32 (sum + 31536000))

-- `for (t = 0; t < smon; t++)`, over the rounds left.
pub month_seconds : ℕ → Bool → ℕ → ℕ → Option ℕ
month_seconds zero leap t sum = some sum
month_seconds (suc left) leap t sum =
    let later = λ (s : ℕ). month_seconds left leap (u16 (t + 1)) s in
    get_elem? mon_table t >>= λ days.
    let s = u32 (sum + days * 86400) in later (if leap && (t == 1) then u32 (s + 86400) else s)

-- The second count that `RTC_Set` hands to `RTC_SetCounter`, from the year on.
pub seconds_of : ℕ → ℕ → ℕ → ℕ → ℕ → ℕ → Option ℕ
seconds_of year month day hour minute second = do
  sum ← month_seconds (u8 (month + 255)) (is_leap_year year) 0 (year_seconds (year - 1970) 1970 0)
  let days = u32 (sum + u32 (day + (2 ^ 32 - 1)) * 86400)
  some (u32 (u32 (u32 (days + hour * 3600) + minute * 60) + second))

-- `RTC_Set`: its status and the clock after it.
pub set : ℕ → ℕ → ℕ → ℕ → ℕ → ℕ → Clock → Option (ℕ × Clock)
set year month day hour minute second c =
    if ltb year 1970 || ltb 2099 year
    then some (1, c)
    else (seconds_of year month day hour minute second >>= λ s. some (0, record c { counter = s }))

-- `week`, the names that the log prints.
abbrev pub week_names : List String
week_names = "Monday" ∷ "Tuesday" ∷ "Wednesday" ∷ "Thursday" ∷ "Friday" ∷ "Saturday" ∷ "Sunday" ∷ []

-- `BSP_Get_RTC_Time`: the clock, and the name that the log line takes from `week`; `none` for an
-- index outside the table.
pub get_time : Clock → Option (Clock × Option String)
get_time c = do c' ← get c; some (c', get_elem? week_names c'.date_time.week)
