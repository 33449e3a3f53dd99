-- ===== src/Rtc/Loops.antt =====
-- The loops of `RTC_Get` and `RTC_Set` against the calendar.
use ch32v303rct6_rtt_mrs.Base.{
  ℕ, zero, suc, ◌+◌, ◌-◌, ◌*◌, ◌^◌, ◌≤◌, ◌<◌, Bool, true, false, some, ◌==◌, ◌&&◌, leb,
  if◌then◌else◌, arith, ◌≡◌, refl, u16, u32, get_elem?, Bool-cases, inl, inr,
}
use ch32v303rct6_rtt_mrs.Rtc.{
  mon_table, is_leap_year, year_loop, month_loop, year_seconds, month_seconds,
}
use ch32v303rct6_rtt_mrs.Rtc.Calendar.{year_len, month_len, years_days, months_days}

-- Where the year loop stops with `d` days of `year` left. On the last day of a leap year it has
-- counted the year already, and keeps its 365 days.
abbrev pub year_stop : ℕ → ℕ → ℕ × ℕ
year_stop year d = if d == 365 then (year + 1, d) else (year, d)

pub year_loop_lem :
    (k fuel year d temp end : ℕ)
    → k < fuel
    → end ≡ year + k
    → end < 65535
    → d < year_len end
    → temp ≡ years_days year k + d
    → year_loop fuel temp year ≡ some (year_stop end d)
unfolding year_loop years_days
year_loop_lem zero zero year d temp end f e b h t = absurd (omega arith)
year_loop_lem (suc k) zero year d temp end f e b h t = absurd (omega arith)
year_loop_lem zero (suc fuel) year d temp end f e b h t =
    let e' : end ≡ year = omega arith in ground arith
year_loop_lem (suc k) (suc fuel) year d temp end f e b h t =
    ground (arith, year_loop_lem k fuel (year + 1) d (temp - year_len year) end)

-- By the twelve columns.
pub mon_table_lem : (i : ℕ) → i < 12 → get_elem? mon_table i ≡ some (month_len false i)
unfolding month_len
mon_table_lem i h = ground arith

month_len-ge : (leap : Bool) (i : ℕ) → 28 ≤ month_len leap i
unfolding month_len
month_len-ge leap i = ground arith

month_len-february : month_len true 1 ≡ 29
unfolding month_len
month_len-february = refl

month_len-common :
    (leap : Bool) (i : ℕ) → (leap && (i == 1)) ≡ false → month_len leap i ≡ month_len false i
unfolding month_len
month_len-common leap i h = ground arith

pub month_loop-suc :
    (fuel : ℕ) (leap : Bool) (temp i : ℕ)
    → i < 12
    → month_loop (suc fuel) leap temp i ≡ (
        if leb (month_len leap i) temp
        then month_loop fuel leap (temp - month_len leap i) (u16 (i + 1))
        else some (i, temp))
unfolding month_loop
month_loop-suc fuel leap temp i h = elim (Bool-cases (leap && (i == 1))) [
  | inl e ↦ ground (arith, month_len-february)
  | inr e ↦ ground (arith, mon_table_lem i h, month_len-ge leap i, month_len-common leap i e)
]

pub month_loop-short :
    (fuel : ℕ) (leap : Bool) (temp i : ℕ)
    → temp < 28
    → month_loop (suc fuel) leap temp i ≡ some (i, temp)
unfolding month_loop
month_loop-short fuel leap temp i h = ground arith

-- Past December the loop stops on fewer than 28 days.
pub month_loop_lem :
    (k fuel : ℕ) (leap : Bool) (i d temp end : ℕ)
    → k < fuel
    → end ≡ i + k
    → end ≤ 12
    → d < (if end == 12 then 28 else month_len leap end)
    → temp ≡ months_days leap i k + d
    → month_loop fuel leap temp i ≡ some (end, d)
unfolding months_days
month_loop_lem zero zero leap i d temp end f e b h t = absurd (omega arith)
month_loop_lem (suc k) zero leap i d temp end f e b h t = absurd (omega arith)
month_loop_lem zero (suc fuel) leap i d temp end f e b h t =
    let e' : end ≡ i = omega arith in
    elim (Bool-cases (end == 12)) [
      | inl last ↦ ground (arith, month_loop-short fuel leap temp i)
      | inr more ↦ ground (arith, month_loop-suc fuel leap temp i)
    ]
month_loop_lem (suc k) (suc fuel) leap i d temp end f e b h t = ground (
  arith,
  month_loop-suc fuel leap temp i,
  month_loop_lem k fuel leap (i + 1) d (temp - month_len leap i) end,
)

-- The sums wrap at 32 bits on the way, and so does the total: nothing else is lost.
pub year_seconds_lem :
    (n t sum : ℕ)
    → t + n < 65536
    → sum < 2 ^ 32
    → year_seconds n t sum ≡ u32 (sum + 86400 * years_days t n)
unfolding year_seconds years_days
year_seconds_lem zero t sum b s = omega arith
year_seconds_lem (suc n) t sum b s = elim (Bool-cases (is_leap_year t)) [
  | inl e ↦ ground (arith, year_seconds_lem n (t + 1) (u32 (sum + 31622400)))
  | inr e ↦ ground (arith, year_seconds_lem n (t + 1) (u32 (sum + 31536000)))
]

pub month_seconds-suc :
    (n : ℕ) (leap : Bool) (t sum : ℕ)
    → t < 12
    → month_seconds (suc n) leap t sum
      ≡ month_seconds n leap (t + 1) (u32 (sum + 86400 * month_len leap t))
unfolding month_seconds
month_seconds-suc n leap t sum h = elim (Bool-cases (leap && (t == 1))) [
  | inl e ↦ ground (arith, month_len-february)
  | inr e ↦ ground (arith, mon_table_lem t h, month_len-common leap t e)
]

pub month_seconds_lem :
    (n : ℕ) (leap : Bool) (t sum : ℕ)
    → t + n ≤ 12
    → sum < 2 ^ 32
    → month_seconds n leap t sum ≡ some (u32 (sum + 86400 * months_days leap t n))
unfolding month_seconds months_days
month_seconds_lem zero leap t sum b s = ground arith
month_seconds_lem (suc n) leap t sum b s = ground (
  arith,
  month_seconds-suc n leap t sum,
  month_seconds_lem n leap (t + 1) (u32 (sum + 86400 * month_len leap t)),
)
