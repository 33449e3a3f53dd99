-- ===== src/Pwm/Registers.antt =====
-- The registers that a period and a pulse become.
use native.Mathlib.Nat.{
  mul_comm, le-div_iff_mul-le, div-eq_of_lt-le, mul-le-mul_right, mod-add-div', mul-le-mul_right,
  mul_assoc, div-le_self, div-lt_iff_lt-mul, lt-mul-div-succ, div-le_of_le-mul,
}
use ch32v303rct6_rtt_mrs.Base.{
  ℕ, zero, suc, ◌+◌, ◌-◌, ◌*◌, ◌/◌, ◌%◌, ◌^◌, ◌≤◌, ◌<◌, ◌≢◌, true, false, ltb, ◌==◌, u16, u32,
  arith, ◌≡◌, refl, Bool-cases, inl, inr,
}
use ch32v303rct6_rtt_mrs.Pwm.{Config, settings, prescaler_of, arr_of, at_least_two, ccr_of}

-- With the prescaler rounded up, the period fits sixteen bits.
arr_of-round_up : (clock freq : ℕ) → 0 < freq → clock / (clock / 65536 / freq + 1) / freq < 65536
arr_of-round_up clock freq pos =
    let n = clock / 65536 in
    let q = n / freq in
    let above : n < freq * (q + 1) = lt-mul-div-succ n pos in
    let under : clock < 65536 * (freq * (q + 1)) = omega arith in
    let inner : clock < 65536 * freq * (q + 1) = rw (mul_assoc 65536 freq (q + 1)) under in
    let positive : 0 < q + 1 = omega arith in
    let half : clock / (q + 1) < 65536 * freq = (div-lt_iff_lt-mul positive).1 inner in
    (div-lt_iff_lt-mul pos).1 half

arr_of_bound :
    (clock freq : ℕ)
    → 0 < freq
    → clock < 2 ^ 32
    → clock / 65536 % freq ≢ 0
    → (arr_of clock freq < 65536)
      × (1 ≤ prescaler_of clock freq)
      × (prescaler_of clock freq ≤ 65536)
arr_of_bound clock freq pos b inexact =
    let exact : (clock / 65536 % freq == 0) ≡ false = ground arith in
    elim (Bool-cases (ltb 65535 (clock / freq))) [
      | inr small ↦
          let one : clock / 1 ≡ clock = omega arith in
          let fits : clock / freq < 65536 = ground arith in
          rw small (rw one fits, omega arith, omega arith)
      | inl big ↦
          let up = arr_of-round_up clock freq pos in
          let q_small : clock / 65536 / freq ≤ clock / 65536 = div-le_self (clock / 65536) freq in
          rw (big, exact) (up, omega arith, omega arith)
    ]

ccr_of_bound :
    (arr period pulse : ℕ)
    → 0 < period
    → pulse ≤ period
    → pulse * 100 < 2 ^ 32
    → arr < 65536
    → ccr_of arr period pulse ≤ arr
ccr_of_bound arr period pulse pos a b c =
    let duty : pulse * 100 / period ≤ 100 = div-le_of_le-mul period (omega arith) in
    let share : pulse * 100 / period * arr ≤ 100 * arr = mul-le-mul_right arr duty in
    let whole : u32 (pulse * 100) ≡ pulse * 100 = omega arith in rw whole (omega arith)

settings_lem :
    (arr presc ccr : ℕ)
    → arr < 65536
    → 1 ≤ presc
    → presc ≤ 65536
    → ccr ≤ arr
    → (u16 (at_least_two arr - 1) + 1 ≡ at_least_two arr)
      × (u16 (presc - 1) + 1 ≡ presc)
      × (u16 (at_least_two ccr - 1) + 1 ≡ at_least_two ccr)
      × (u16 (at_least_two ccr - 1) ≤ u16 (at_least_two arr - 1))
settings_lem arr presc ccr a b c d = ground arith

-- For a period of up to a second, a pulse no longer than the period and below 2 ^ 32 / 100 ns, a
-- clock below 2 ^ 32, and a frequency that does not divide the clock shifted right by sixteen
-- bits, the registers that ch32_pwm_device_set writes hold, without a bit lost, one less than the
-- period, the prescaler and the pulse it computes, and the pulse is at most the period.
pub settings_bounds :
    (clock : ℕ) (c : Config)
    → clock < 2 ^ 32
    → 0 < c.period
    → c.period ≤ 1000000000
    → c.pulse ≤ c.period
    → c.pulse * 100 < 2 ^ 32
    → clock / 65536 % (1000000000 / c.period) ≢ 0
    → let s = settings clock c in
      let freq = 1000000000 / c.period in
      let arr = at_least_two (arr_of clock freq) in
      (s.tim_period + 1 ≡ arr)
      × (s.tim_prescaler + 1 ≡ prescaler_of clock freq)
      × (s.tim_pulse + 1 ≡ at_least_two (ccr_of (arr_of clock freq) c.period c.pulse))
      × (s.tim_pulse ≤ s.tim_period)
unfolding settings
settings_bounds clock c b p q r s inexact =
    let freq = 1000000000 / c.period in
    let pos : 0 < freq = (le-div_iff_mul-le p).1 (omega arith) in
    let (arr, low, high) = arr_of_bound clock freq pos b inexact in
    let ccr = ccr_of_bound (arr_of clock freq) c.period c.pulse p r s arr in
    settings_lem (arr_of clock freq) (prescaler_of clock freq)
      (ccr_of (arr_of clock freq) c.period c.pulse) arr low high ccr

arr_wrap :
    (freq q : ℕ)
    → 0 < freq
    → q * freq ≡ 1464
    → (ltb 65535 (96000000 / freq) ≡ true) × (96000000 / q / freq ≡ 65573)
arr_wrap freq zero pos e = absurd (omega arith)
arr_wrap freq (suc k) pos e =
    let pos_k : 0 < suc k = omega arith in
    let few : 1 * freq ≤ suc k * freq = mul-le-mul_right freq (omega arith) in
    let reach : 65536 ≤ 96000000 / freq = (le-div_iff_mul-le pos).1 (omega arith) in
    let low : 65573 * freq ≤ 96000000 / suc k =
      (le-div_iff_mul-le pos_k).1
        (rw (mul_assoc 65573 freq (suc k), mul_comm freq (suc k), e) (omega arith)) in
    let high : 96000000 / suc k < 65574 * freq =
      (div-lt_iff_lt-mul pos_k).1
        (rw (mul_assoc 65574 freq (suc k), mul_comm freq (suc k), e) (omega arith)) in
    (ground arith, div-eq_of_lt-le freq low high)

-- At 96 MHz, ch32_pwm_device_set computes a period of 65573 cycles for every frequency that
-- divides 1464, and the register gets 36, which is that number less one cut to sixteen bits.
pub settings_wrap :
    (c : Config)
    → 0 < c.period
    → c.period ≤ 1000000000
    → 1464 % (1000000000 / c.period) ≡ 0
    → (arr_of 96000000 (1000000000 / c.period) ≡ 65573) × ((settings 96000000 c).tim_period ≡ 36)
unfolding settings
settings_wrap c p q h =
    let freq = 1000000000 / c.period in
    let pos : 0 < freq = (le-div_iff_mul-le p).1 (omega arith) in
    let product : 1464 / freq * freq ≡ 1464 = omega (arith, mod-add-div' 1464 freq, h) in
    let (large, arr) = arr_wrap freq (1464 / freq) pos product in
    let exact : (1464 % freq == 0) ≡ true = ground arith in
    let whole : arr_of 96000000 freq ≡ 65573 = rw (large, exact) arr in (whole, rw whole refl)
