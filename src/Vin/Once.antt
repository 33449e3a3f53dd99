-- ===== src/Vin/Once.antt =====
-- How often the watch on the supply is heard.
use ch32v303rct6_rtt_mrs.Base.{
  inr, inl, Bool-cases, ◌≤◌, Bool, List, [], ◌∷◌, ◌==◌, if◌then◌else◌, arith, ◌≡◌,
}
use ch32v303rct6_rtt_mrs.Vin.{Watch, started, irq_handler, thread_round, Step, irq, round, run}

-- Once the interrupt has come it is off, and the semaphore holds one at most; the thread has
-- measured nothing.
pub record IsSpent (w : Watch) : Type 0 where
  pub single : w.sem ≤ (if w.awd_enabled then 0 else 1)
  pub silent : w.measured ≡ 0

irq_handler-IsSpent : (flag : Bool) (w : Watch) → IsSpent w → IsSpent (irq_handler flag w)
unfolding irq_handler
irq_handler-IsSpent flag w h = ground arith

thread_round-IsSpent : (w : Watch) → IsSpent w → IsSpent (thread_round 0 w)
unfolding thread_round
thread_round-IsSpent w h = ground arith

run-kept : (steps : List Step) (w : Watch) → IsSpent w → IsSpent (run steps w)
unfolding run
run-kept [] w h = h
run-kept (irq flag ∷ steps) w h = run-kept steps (irq_handler flag w) (irq_handler-IsSpent flag w h)
run-kept (round ∷ steps) w h = elim (Bool-cases (w.sem == 0)) [
  | inl e ↦ rw e (run-kept steps w h)
  | inr e ↦ rw e (run-kept steps (thread_round 0 w) (thread_round-IsSpent w h))
]

-- After BSP_VIN_Detection_Init, in whatever order the watchdog interrupt and the thread run, the
-- semaphore never counts more than one, it counts none while the interrupt is still enabled, and
-- the thread never measures the voltage.
pub run-IsSpent : (steps : List Step) → IsSpent (run steps started)
run-IsSpent steps = run-kept steps started (omega arith)
