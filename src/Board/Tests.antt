-- ===== src/Board/Tests.antt =====
-- A timer at 96 MHz, whose counter is read every hundred cycles.
use ch32v303rct6_rtt_mrs.Base.{ℕ, suc, ◌+◌, ◌*◌, ◌/◌, ◌<◌, false, some, arith, ◌≡◌}
use ch32v303rct6_rtt_mrs.Delay.{us_delay}
use ch32v303rct6_rtt_mrs.Delay.Counter.{IsDownCounter, elapsed}
use ch32v303rct6_rtt_mrs.Delay.Tests.{reading, hundred, reading-IsDownCounter}
use ch32v303rct6_rtt_mrs.Board.{Systick, start_timer, tick_per_second}
use ch32v303rct6_rtt_mrs.Board.Wait.{us_delay-start_timer}

abbrev reset : Systick
reset = record {
  ctlr = 0;
  sr = 0;
  cnt = 0;
  cmp = 0;
  tick_priority = 0;
  software_priority = 0;
  tick_enabled = false;
  software_enabled = false;
}

reading_down : IsDownCounter (start_timer 96000000 reset).cmp reading hundred
unfolding start_timer
reading_down = reading-IsDownCounter

us_delay-start_timer_example :
    (n : ℕ) × (us_delay tick_per_second (start_timer 96000000 reset).cmp 10 reading 1000000
      ≡ some (suc n))
    × (10 * (96000000 / 1000) < 1000 * elapsed hundred 0 (suc n) + 10 + 1000)
us_delay-start_timer_example =
    us_delay-start_timer 96000000 10 1000000 reading hundred reset (omega arith) (omega arith)
      reading_down (omega arith) (omega arith)
