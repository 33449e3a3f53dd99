-- ===== src/Wdt/Tests.antt =====
-- Concrete timeouts.
use ch32v303rct6_rtt_mrs.Base.{◌<◌, arith, ◌≡◌}
use ch32v303rct6_rtt_mrs.Wdt.{
  invalid, start, set_timeout, set_up, control, wdt_init, wdg_run, prescaler_32,
}
use ch32v303rct6_rtt_mrs.Wdt.Timeout.{IsFed, timeout_ms, start-set_timeout, wdg_run-IsFed}

start-set_timeout_example :
    let (s, out, d') = control (set_timeout 30) wdt_init in
    (s ≡ invalid)
    × (d'.calls ≡ wdt_init.calls)
    × (4095 < d'.reload)
    × ((control start d').2.calls ≡ set_up d')
start-set_timeout_example = start-set_timeout 30 wdt_init (omega arith) (omega arith)

wdg_run-IsFed_example : IsFed (timeout_ms prescaler_32 4000) (wdg_run 5)
wdg_run-IsFed_example = wdg_run-IsFed 5
