-- ===== src/Vin/Tests.antt =====
-- A buffer of equal samples, and a few interrupts.
use ch32v303rct6_rtt_mrs.Base.{true, false, [], ◌∷◌}
use ch32v303rct6_rtt_mrs.Vin.{started, irq, round, run}
use ch32v303rct6_rtt_mrs.Vin.Once.{IsSpent, run-IsSpent}

run-IsSpent_example : IsSpent (run (irq false ∷ irq true ∷ round ∷ irq true ∷ round ∷ []) started)
run-IsSpent_example = run-IsSpent (irq false ∷ irq true ∷ round ∷ irq true ∷ round ∷ [])
