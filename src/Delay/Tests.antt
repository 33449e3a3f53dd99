-- ===== src/Delay/Tests.antt =====
-- A counter of 96 000 cycles a period, read every hundred cycles.
use ch32v303rct6_rtt_mrs.Base.{
  none, ℕ, zero, suc, ◌+◌, ◌-◌, ◌≤◌, some, leb, if◌then◌else◌, arith, ◌≡◌, refl,
}
use ch32v303rct6_rtt_mrs.Delay.Since.{us_delay_since_stuck}
use ch32v303rct6_rtt_mrs.Delay.{us_delay_since, udelay}
use ch32v303rct6_rtt_mrs.Delay.Counter.{IsDownCounter, udelay_short}

abbrev pub reading : ℕ → ℕ
reading zero = 50000
reading (suc k) = let old = reading k in if leb 100 old then old - 100 else old + 95999 + 1 - 100

abbrev pub hundred : ℕ → ℕ
hundred k = 100

pub reading-IsDownCounter : IsDownCounter 95999 reading hundred
reading-IsDownCounter = record {
  small = omega arith;
  start = omega arith;
  moves = λ k. omega arith;
  within = λ k. omega arith;
  counts = λ k. refl;
}

udelay_short_example : udelay 1000 95999 100 reading 2000 ≡ some 1
udelay_short_example =
    udelay_short 95999 reading hundred reading-IsDownCounter 1000 100 1999 (omega arith)
      (omega arith)

reading_bound : (k : ℕ) → reading k ≤ 95999
reading_bound zero = omega arith
reading_bound (suc k) = ground (arith, reading_bound k)

-- At 96 MHz and a reload of 95999, 10 ms never end.
us_delay_since_stuck_example : us_delay_since 96000000 95999 10000 reading 1000000 ≡ none
us_delay_since_stuck_example =
    us_delay_since_stuck 96000000 95999 10000 1000000 reading (omega arith)
      (λ k. omega (arith, reading_bound k)) (omega arith)
