-- ===== src/Gpio/Tests.antt =====
-- Concrete pins.
use mathlib.Core.Path.{refl}
use ch32v303rct6_rtt_mrs.Base.{ℕ, Bool, true, false, none, arith, ◌≡◌, ◌==◌}
use ch32v303rct6_rtt_mrs.Gpio.{pin_no, Table, ok, free, attach_irq}
use mathlib.Core.List.{Memᴰ}
use ch32v303rct6_rtt_mrs.Gpio.Irq.{Irqs, Call, vector_of, irq_enable}
use ch32v303rct6_rtt_mrs.Gpio.Irq.Armed.{IsArmed, calls_of, irq_enable-IsArmed, handler-irq_enable}

abbrev unused : Table
unused i = free

abbrev quiet : Irqs
quiet = record { table = unused; mask = λ i. false; nvic = λ v. false; lines = λ i. none }

quiet-IsArmed : IsArmed quiet
quiet-IsArmed = record {
  on0 = refl;
  on1 = refl;
  on2 = refl;
  on3 = refl;
  on4 = refl;
  on9_5 = refl;
  on15_10 = refl;
}

irq_enable-IsArmed_example : IsArmed (irq_enable 4 37 1 quiet).1
irq_enable-IsArmed_example = irq_enable-IsArmed 4 37 1 quiet quiet-IsArmed

abbrev line_five : ℕ → Bool
line_five i = i == 5

handler-irq_enable_example :
    let attached = attach_irq 4 37 1 7 9 unused in
    let enabled = irq_enable 4 37 1 (record quiet { table = attached.1 }) in
    let c : Call = record { hdr = 7; args = 9 } in
    (attached.0 ≡ ok)
    × (enabled.0 ≡ ok)
    × (enabled.1.nvic (vector_of (pin_no 37)) ≡ true)
    × Memᴰ c (calls_of (vector_of (pin_no 37)) enabled.1.table line_five)
handler-irq_enable_example =
    handler-irq_enable 4 37 1 7 9 quiet line_five (omega arith) (omega arith) refl (omega arith)
      refl
