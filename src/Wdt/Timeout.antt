-- ===== src/Wdt/Timeout.antt =====
-- The timeout that the watchdog is set to, and the reload values that reach its register.
use ch32v303rct6_rtt_mrs.Base.{
  ℕ, zero, suc, ◌+◌, ◌*◌, ◌/◌, ◌^◌, ◌≤◌, ◌<◌, List, [], ◌∷◌, u32, arith, ◌≡◌,
}
use ch32v303rct6_rtt_mrs.Wdt.{
  Call, write_access, set_prescaler, set_reload, reload_counter, enable, mdelay, ok, invalid, Dev,
  Cmd, keepalive, get_timeout, start, other, set_timeout, lsi_value, set_up, control, run,
  iwdg_init, thread, wdg_run, wdt_init, prescaler_32,
}

pub get_timeout-set_timeout :
    (t : ℕ) (d : Dev)
    → t ≤ 107374
    → (control (set_timeout t) d).0 ≡ ok
    → let back = (control get_timeout (control (set_timeout t) d).2).1 in
      (back ≤ t) × (t ≤ back + 1) × (t ≤ 26)
unfolding control
get_timeout-set_timeout t d h e = ground arith

-- ch32_wdt_control refuses a timeout from 27 to 107374 seconds with -RT_EINVAL and no call to the
-- hardware, but keeps its reload value, over 0xFFF, and the next start command writes it.
pub start-set_timeout :
    (t : ℕ) (d : Dev)
    → 27 ≤ t
    → t ≤ 107374
    → let (s, out, d') = control (set_timeout t) d in
      (s ≡ invalid)
      × (d'.calls ≡ d.calls)
      × (4095 < d'.reload)
      × ((control start d').2.calls ≡ set_up d')
unfolding control
start-set_timeout t d a b = ground arith

-- The reload values of a log, all within the twelve bits of the register.
abbrev pub AreSmall : List Call → Type 0
AreSmall [] = Unit {0}
AreSmall (set_reload r ∷ calls) = (r ≤ 4095) × AreSmall calls
AreSmall (write_access b ∷ calls) = AreSmall calls
AreSmall (set_prescaler p ∷ calls) = AreSmall calls
AreSmall (reload_counter ∷ calls) = AreSmall calls
AreSmall (enable ∷ calls) = AreSmall calls
AreSmall (mdelay n ∷ calls) = AreSmall calls

-- No command sets a timeout over 26 seconds.
abbrev pub AreShort : List Cmd → Type 0
AreShort [] = Unit {0}
AreShort (set_timeout t ∷ cs) = (t ≤ 26) × AreShort cs
AreShort (keepalive ∷ cs) = AreShort cs
AreShort (get_timeout ∷ cs) = AreShort cs
AreShort (start ∷ cs) = AreShort cs
AreShort (other ∷ cs) = AreShort cs

set_timeout-AreSmall :
    (t : ℕ) (d : Dev)
    → t ≤ 26
    → AreSmall d.calls
    → let d' = (control (set_timeout t) d).2 in (d'.reload ≤ 4095) × AreSmall d'.calls
unfolding control
set_timeout-AreSmall t d s c =
    let small : u32 (t * lsi_value) / 256 ≤ 4095 = omega arith in ground (arith, small)

run-AreSmall :
    (cs : List Cmd) (d : Dev)
    → AreShort cs
    → d.reload ≤ 4095
    → AreSmall d.calls
    → AreSmall (run cs d).calls
unfolding run control
run-AreSmall [] d s r c = c
run-AreSmall (keepalive ∷ cs) d s r c = run-AreSmall cs (control keepalive d).2 s r c
run-AreSmall (get_timeout ∷ cs) d s r c = run-AreSmall cs d s r c
run-AreSmall (start ∷ cs) d s r c = run-AreSmall cs (control start d).2 s r (r, c)
run-AreSmall (other ∷ cs) d s r c = run-AreSmall cs d s r c
run-AreSmall (set_timeout t ∷ cs) d s r c =
    let (reload, calls) = set_timeout-AreSmall t d s.0 c in
    run-AreSmall cs (control (set_timeout t) d).2 s.1 reload calls

pub run-wdt_init : (cs : List Cmd) → AreShort cs → AreSmall (run cs wdt_init).calls
unfolding wdt_init
run-wdt_init cs s = run-AreSmall cs wdt_init s (omega arith) tt

-- The milliseconds that the log's sleeps have taken since the counter was last reloaded.
abbrev pub since_reload : List Call → ℕ
since_reload [] = 0
since_reload (reload_counter ∷ calls) = 0
since_reload (mdelay n ∷ calls) = n + since_reload calls
since_reload (write_access b ∷ calls) = since_reload calls
since_reload (set_prescaler p ∷ calls) = since_reload calls
since_reload (set_reload r ∷ calls) = since_reload calls
since_reload (enable ∷ calls) = since_reload calls

-- At every point of the log the time since the reload is below a limit.
abbrev pub IsFed : ℕ → List Call → Type 0
IsFed limit [] = Unit {0}
IsFed limit (c ∷ calls) = (since_reload (c ∷ calls) < limit) × IsFed limit calls

-- The milliseconds that the watchdog waits, with the clock divided by 4 * 2 ^ prescaler.
abbrev pub timeout_ms : ℕ → ℕ → ℕ
timeout_ms prescaler reload = reload * (4 * 2 ^ prescaler) * 1000 / lsi_value

thread-IsFed :
    (rounds limit : ℕ) (calls : List Call)
    → 1000 < limit
    → IsFed limit calls
    → IsFed limit (thread rounds calls)
unfolding thread
thread-IsFed zero limit calls h f = f
thread-IsFed (suc rounds) limit calls h f =
    thread-IsFed rounds limit (mdelay 1000 ∷ reload_counter ∷ calls) h
      (omega arith, (omega arith, f))

-- From BSP_WDG_Init on, however long the watchdog's thread runs, at every point the sleeps since
-- the last reload are shorter than the timeout that IWDG_Init programs.
pub wdg_run-IsFed : (rounds : ℕ) → IsFed (timeout_ms prescaler_32 4000) (wdg_run rounds)
unfolding wdg_run iwdg_init
wdg_run-IsFed rounds =
    thread-IsFed rounds 3200 (iwdg_init prescaler_32 4000 []) (omega arith) (omega arith)
