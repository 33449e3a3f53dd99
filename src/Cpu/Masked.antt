-- ===== src/Cpu/Masked.antt =====
-- A thread that gives the processor away with the interrupts disabled, as `rt_schedule` does.
use mathlib.Core.Path.{refl}
use ch32v303rct6_rtt_mrs.Base.{Bool, false, ◌≡◌}
use ch32v303rct6_rtt_mrs.Cpu.{Cpu, interrupt_disable, interrupt_enable, context_switch}
use ch32v303rct6_rtt_mrs.Cpu.Resume.{IsResumed}
use ch32v303rct6_rtt_mrs.Cpu.Switch.{IsWaiting, context_switch-context_switch}

module _ (mpp_after : Bool) where
  -- Where both threads have called rt_hw_interrupt_disable before they switch, and the same holds
  -- of the frames, the first thread goes on after its call with its registers and stack pointer
  -- as they were and the interrupts disabled, and rt_hw_interrupt_enable of its level gives back
  -- the mstatus it had.
  pub context_switch-interrupt_disable :
      (c d : Cpu)
      → IsWaiting mpp_after (interrupt_disable c).1 (interrupt_disable d).1
      → let back = context_switch mpp_after (interrupt_disable d).1 in
        IsResumed back (c.x 1) c.x (c.x 2) false
        × ((interrupt_enable (interrupt_disable c).0 back).status ≡ c.status)
  unfolding interrupt_disable interrupt_enable
  context_switch-interrupt_disable c d w = (
    context_switch-context_switch mpp_after (interrupt_disable c).1 (interrupt_disable d).1 w,
    refl,
  )
