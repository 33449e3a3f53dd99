-- ===== src/Wdt.antt =====
-- The independent watchdog: the commands of its device in libraries/hal_drivers/drv_iwdt.c, and the
-- start and the thread of bsp/src/bsp_wdg.c. The vendor's calls are kept in a log, the last one first.
pub mod Timeout
pub mod Tests
use ch32v303rct6_rtt_mrs.Base.{
  ℕ, zero, suc, ◌+◌, ◌*◌, ◌/◌, ◌%◌, ◌^◌, Bool, true, false, List, [], ◌∷◌, ltb, ◌==◌, if◌then◌else◌,
  u32,
}

-- `LSI_VALUE` of rt-thread/rtconfig.h.
abbrev pub lsi_value : ℕ
lsi_value = 40000

-- `IWDG_WriteAccessCmd`, `IWDG_SetPrescaler`, `IWDG_SetReload`, `IWDG_ReloadCounter`, `IWDG_Enable`,
-- and the thread's sleep in milliseconds.
pub data Call : Type 0 where
  write_access : Bool → Call
  set_prescaler set_reload : ℕ → Call
  reload_counter enable : Call
  mdelay : ℕ → Call

-- `RT_EOK`, `-RT_ERROR` and `-RT_EINVAL`.
pub data Status : Type 0 where
  ok error invalid : Status

-- `struct watchdog_device`, with the log.
pub record Dev : Type 0 where
  pub prescaler : ℕ
  pub reload : ℕ
  pub is_start : Bool
  pub calls : List Call

-- The command `get_timeout` has an output; `other` is any command that the switch does not name.
pub data Cmd : Type 0 where
  keepalive get_timeout start other : Cmd
  set_timeout : ℕ → Cmd

-- `IWDG_Prescaler_256` and `IWDG_Prescaler_32`.
abbrev pub prescaler_256 : ℕ
prescaler_256 = 6

abbrev pub prescaler_32 : ℕ
prescaler_32 = 3

-- The five calls that set the watchdog up and let it run.
abbrev pub set_up : Dev → List Call
set_up d =
    enable
    ∷ write_access false
    ∷ set_reload d.reload
    ∷ set_prescaler d.prescaler
    ∷ write_access true
    ∷ d.calls

-- `rt_hw_wdt_init`, up to the registration of the device.
pub wdt_init : Dev
wdt_init = record { prescaler = prescaler_256; reload = 4095; is_start = false; calls = [] }

-- `ch32_wdt_control`: the status, what is stored in the argument, and the device.
pub control : Cmd → Dev → Status × ℕ × Dev
control keepalive d = (ok, 0, record d { calls = reload_counter ∷ d.calls })
control (set_timeout t) d =
    let d' = record d { reload = u32 (t * lsi_value) / 256 } in
    if ltb 4095 d'.reload
    then (invalid, t, d')
    else if d'.is_start
    then (ok, t, record d' { calls = set_up d' })
    else (ok, t, d')
control get_timeout d = (ok, u32 (d.reload * 256) / lsi_value, d)
control start d = (ok, 0, record d { calls = set_up d; is_start = true })
control other d = (error, 0, d)

-- The commands of a list in turn.
pub run : List Cmd → Dev → Dev
unfolding control
run [] d = d
run (c ∷ cs) d = run cs (control c d).2

-- `IWDG_Init`.
pub iwdg_init : ℕ → ℕ → List Call → List Call
iwdg_init prescaler reload calls =
    enable
    ∷ reload_counter
    ∷ set_reload reload
    ∷ set_prescaler prescaler
    ∷ write_access true
    ∷ calls

-- `wdg_thread_entry`, over its first rounds.
pub thread : ℕ → List Call → List Call
thread zero calls = calls
thread (suc rounds) calls = thread rounds (mdelay 1000 ∷ reload_counter ∷ calls)

-- `BSP_WDG_Init`, then the thread for some rounds.
pub wdg_run : ℕ → List Call
unfolding iwdg_init thread
wdg_run rounds = thread rounds (iwdg_init prescaler_32 4000 [])
