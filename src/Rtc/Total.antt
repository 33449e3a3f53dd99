-- ===== src/Rtc/Total.antt =====
-- Every day number of the 32-bit counter ends the loops of `RTC_Get` within their rounds.
use ch32v303rct6_rtt_mrs.Base.{
  ◌%◌, ℕ, zero, suc, ◌+◌, ◌-◌, ◌*◌, ◌≤◌, ◌<◌, Bool, true, false, some, leb, arith, ◌≡◌, refl, u16,
  Bool-cases, inl, inr,
}
use ch32v303rct6_rtt_mrs.Rtc.{is_leap_year, year_loop, month_loop, calendar}
use ch32v303rct6_rtt_mrs.Rtc.Calendar.{month_len, months_days}
use ch32v303rct6_rtt_mrs.Rtc.Loops.{month_loop-suc, month_loop-short}

-- The year loop ends on 365 days or fewer, and each year that it counts takes 365 days or more.
year_loop_total :
    (fuel temp year : ℕ)
    → temp < 365 * fuel
    → year + fuel < 65536
    → (y : ℕ) × (d : ℕ) × (year_loop fuel temp year ≡ some (y, d))
      × (year ≤ y)
      × (365 * y ≤ 365 * year + temp)
      × (d ≤ 365)
unfolding year_loop
year_loop_total zero temp year h b = absurd (omega arith)
year_loop_total (suc fuel) temp year h b = elim (Bool-cases (leb 365 temp)) [
  | inr e ↦ (year, temp, rw e refl, omega arith, omega arith, ground arith)
  | inl e ↦ elim (Bool-cases (is_leap_year year)) [
    | inr common ↦
        let big : 365 ≤ temp = ground arith in
        let (y, d, run, lo, hi, left) =
          year_loop_total fuel (temp - 365) (year + 1) (omega arith) (omega arith) in
        let wrap : u16 (year + 1) ≡ year + 1 = omega arith in
        (y, d, rw (e, common, wrap) run, omega arith, omega arith, left)
    | inl leap ↦ elim (Bool-cases (leb 366 temp)) [
      | inl more ↦
          let big : 366 ≤ temp = ground arith in
          let (y, d, run, lo, hi, left) =
            year_loop_total fuel (temp - 366) (year + 1) (omega arith) (omega arith) in
          let wrap : u16 (year + 1) ≡ year + 1 = omega arith in
          (y, d, rw (e, leap, more, wrap) run, omega arith, omega arith, left)
      | inr last ↦
          let big : 365 ≤ temp = ground arith in
          let wrap : u16 (year + 1) ≡ year + 1 = omega arith in
          (year + 1, temp, rw (e, leap, last, wrap) refl, omega arith, omega arith, ground arith)
    ]
  ]
]

month_len_le : (l : Bool) (j : ℕ) → month_len l j ≤ 31
unfolding month_len
month_len_le l j = ground arith

-- From month `i`, with `k` months to go and fewer than 28 days beyond them.
month_loop_total :
    (k : ℕ) (leap : Bool) (temp i : ℕ)
    → i + k ≡ 12
    → temp < months_days leap i k + 28
    → (m : ℕ) × (d : ℕ) × (month_loop (suc k) leap temp i ≡ some (m, d)) × (m ≤ 12) × (d ≤ 30)
unfolding months_days
month_loop_total zero leap temp i e h =
    (i, temp, month_loop-short 0 leap temp i (omega arith), omega arith, omega arith)
month_loop_total (suc k) leap temp i e h =
    let small : i < 12 = omega arith in
    let step = month_loop-suc (suc k) leap temp i small in
    elim (Bool-cases (leb (month_len leap i) temp)) [
      | inr stop ↦ (i, temp, rw (step, stop) refl, omega arith, ground (arith, month_len_le leap i))
      | inl go ↦
          let fits : month_len leap i ≤ temp = ground arith in
          let (m, d, run, hi, left) =
            month_loop_total k leap (temp - month_len leap i) (i + 1) (omega arith) (omega arith) in
          let wrap : u16 (i + 1) ≡ i + 1 = omega arith in (m, d, rw (step, go, wrap) run, hi, left)
    ]

year_365 : (leap : Bool) → 365 ≤ months_days leap 0 12
unfolding months_days month_len
year_365 true = omega arith
year_365 false = omega arith

-- For every day number that a counter of 32 bits has, the two loops of RTC_Get end within their
-- fuel, with a year from 1970 to 2106, a month from 1 to 13 and a day from 1 to 31.
pub calendar_total :
    (n : ℕ)
    → n < 49711
    → (y : ℕ) × (m : ℕ) × (d : ℕ) × (calendar n ≡ some (y, m, d))
      × ((1970 ≤ y) × (y ≤ 2106))
      × ((1 ≤ m) × (m ≤ 13))
      × ((1 ≤ d) × (d ≤ 31))
unfolding calendar
calendar_total n h =
    let (y, rest, years, lo, hi, left) = year_loop_total 200 n 1970 (omega arith) (omega arith) in
    let (m, d, months, top, few) =
      month_loop_total 12 (is_leap_year y) rest 0 refl (omega (arith, year_365 (is_leap_year y))) in
    let month : (m + 1) % 256 ≡ m + 1 = omega arith in
    let day : (d + 1) % 256 ≡ d + 1 = omega arith in
    (
      y,
      m + 1,
      d + 1,
      rw (years, months, month, day) refl,
      (omega arith, omega arith),
      (omega arith, omega arith),
      (omega arith, omega arith),
    )
