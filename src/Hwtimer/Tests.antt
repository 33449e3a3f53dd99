-- ===== src/Hwtimer/Tests.antt =====
-- A timer of the first bus at 96 MHz.
use ch32v303rct6_rtt_mrs.Base.{
  ◌+◌, ◌-◌, ◌*◌, ◌/◌, ◌≤◌, ◌<◌, true, false, some, none, arith, ◌≡◌, refl,
}
use ch32v303rct6_rtt_mrs.Hwtimer.{
  Clocks, Regs, tim2, timer_clock, pclk_doubler, ok, freq_set, control,
}
use ch32v303rct6_rtt_mrs.Hwtimer.Rate.{control_rate}

abbrev clocks : Clocks
clocks = record { pclk1 = 48000000; pclk2 = 96000000; div1 = false; div2 = true }

abbrev reset : Regs
reset = record {
  psc = 0;
  cnt = 0;
  atrlr = 0;
  one_pulse = false;
  counts_up = true;
  running = false;
  update_irq = false;
}

clock-tim2 : timer_clock clocks tim2 ≡ 96000000
unfolding pclk_doubler
clock-tim2 = refl

control_rate_example :
    let ticks = timer_clock clocks tim2 / 10000 in
    (control clocks tim2 (freq_set 10000) reset ≡ some (ok, none, record reset { psc = ticks - 1 }))
    × (1 ≤ ticks)
    × (ticks ≤ 48000)
    × (ticks * 10000 ≤ timer_clock clocks tim2)
    × (timer_clock clocks tim2 < ticks * 10000 + 10000)
control_rate_example =
    control_rate clocks tim2 reset 10000 (omega arith) (omega arith) (omega (arith, clock-tim2))
      (omega (arith, clock-tim2))
