-- ===== src/Hwtimer/Rate.antt =====
-- The rate that a timer is set to, against the one asked for.
use native.Mathlib.Nat.{mul-le-mul_left, div-mul-le_self, le-div_iff_mul-le, lt-div-mul-add}
use ch32v303rct6_rtt_mrs.Base.{
  ℕ, ◌+◌, ◌-◌, ◌*◌, ◌/◌, ◌^◌, ◌≤◌, ◌<◌, false, none, some, ◌==◌, u16, arith, ◌≡◌, refl,
}
use ch32v303rct6_rtt_mrs.Hwtimer.{Timer, Clocks, timer_clock, Regs, ok, freq_set, control}

-- `maxfreq`, `minfreq` and `maxcnt` of `TIM_DEV_INFO_CONFIG`.
abbrev pub max_freq : ℕ
max_freq = 1000000

abbrev pub min_freq : ℕ
min_freq = 3000

abbrev pub max_cnt : ℕ
max_cnt = 65535

module _ (k : Clocks) (t : Timer) (r : Regs) where
  -- For a frequency in the range that the device's information gives, and a timer clock from 1
  -- MHz to 144 MHz, HWTIMER_CTRL_FREQ_SET answers RT_EOK and sets the prescaler to one less than
  -- the whole number of clock cycles to a tick; this number is from 1 to 48000 and off by less
  -- than one cycle.
  pub control_rate :
      (freq : ℕ)
      → min_freq ≤ freq
      → freq ≤ max_freq
      → max_freq ≤ timer_clock k t
      → timer_clock k t ≤ 144000000
      → let ticks = timer_clock k t / freq in
        (control k t (freq_set freq) r ≡ some (ok, none, record r { psc = ticks - 1 }))
        × (1 ≤ ticks)
        × (ticks ≤ 48000)
        × (ticks * freq ≤ timer_clock k t)
        × (timer_clock k t < ticks * freq + freq)
  unfolding control
  control_rate freq low high slow fast =
      let pos : 0 < freq = omega arith in
      let clock = timer_clock k t in
      let least : 1 ≤ clock / freq = (le-div_iff_mul-le pos).1 (omega arith) in
      let under : clock / freq * freq ≤ clock = div-mul-le_self clock freq in
      let over : clock < clock / freq * freq + freq = lt-div-mul-add pos in
      let scaled : clock / freq * 3000 ≤ clock / freq * freq = mul-le-mul_left (clock / freq) low in
      let most : clock / freq ≤ 48000 = omega (arith, scaled, under, fast) in
      let nonzero : (freq == 0) ≡ false = ground arith in
      let reg : u16 (u16 (clock / freq) + 2 ^ 32 - 1) ≡ clock / freq - 1 = omega arith in
      (rw (nonzero, reg) refl, least, most, under, over)
