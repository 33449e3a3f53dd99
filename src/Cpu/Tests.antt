-- ===== src/Cpu/Tests.antt =====
-- Concrete threads.
use ch32v303rct6_rtt_mrs.Base.{
  ◌<◌, ◌≤◌, ℕ, ◌+◌, ◌-◌, ◌*◌, ◌/◌, true, false, ◌||◌, [], ◌∷◌, ◌==◌, if◌then◌else◌, arith, ◌≡◌,
  refl, inl, inr,
}
use ch32v303rct6_rtt_mrs.Cpu.{
  Mem, Cpu, put, stack_init, context_switch, context_switch_to, sw_handler,
}
use ch32v303rct6_rtt_mrs.Cpu.{interrupt_disable, interrupt_enable}
use ch32v303rct6_rtt_mrs.Cpu.Masked.{context_switch-interrupt_disable}
use ch32v303rct6_rtt_mrs.Cpu.Frames.{IsFrame}
use ch32v303rct6_rtt_mrs.Cpu.Resume.{IsResumed}
use ch32v303rct6_rtt_mrs.Cpu.Start.{first_regs, context_switch_to-stack_init}
use ch32v303rct6_rtt_mrs.Cpu.Switch.{IsWaiting, context_switch-context_switch}
use ch32v303rct6_rtt_mrs.Cpu.Interrupt.{requests, IsAsked, sw_handler-requests}

-- The stack pointer, and the two arguments of a switch.
abbrev regs : ℕ → ℕ → ℕ → ℕ → ℕ
regs sp from to r = if r == 2 then sp else if r == 10 then from else if r == 11 then to else r

abbrev cpu_with : (ℕ → ℕ) → Mem → Cpu
cpu_with x m = record {
  x = x;
  mem = m;
  status = λ i. false;
  mepc = 400;
  pc = 0;
  machine = true;
  mscratch = 9000;
  hpe_off = false;
  from_thread = 0;
  to_thread = 0;
  switch_flag = 0;
  pending = false;
}

abbrev leaving : Cpu
leaving = cpu_with (regs 2000 5000 6000) (λ a. 128)

abbrev returning : Cpu
returning = cpu_with (regs 3000 6000 5000) (context_switch false leaving).mem

returning-IsWaiting : IsWaiting false leaving returning
returning-IsWaiting = record {
  room = omega arith;
  room' = omega arith;
  named = refl;
  block = inr (omega arith);
  same_frame = λ a p q. refl;
  same_block = refl;
  apart_frame = inl (omega arith);
  apart_block = inr (omega arith);
  other_block = (omega arith, inr (omega arith));
}

context_switch-context_switch_example :
    IsResumed (context_switch false returning) 1 (regs 2000 5000 6000) 2000 (false || false)
context_switch-context_switch_example =
    context_switch-context_switch false leaving returning returning-IsWaiting

abbrev fresh : ℕ × Mem
fresh = stack_init 800 7 2046 900 (λ a. 0)

abbrev booting : Cpu
booting = cpu_with (regs 100 5000 0) (put fresh.1 5000 fresh.0)

booting_same :
    (a : ℕ) → (2046 + 4) / 4 * 4 - 128 ≤ a → a < (2046 + 4) / 4 * 4 → booting.mem a ≡ fresh.1 a
booting_same a p q = let other : (a == 5000) ≡ false = ground arith in rw other refl

context_switch_to-stack_init_example :
    IsResumed
      (context_switch_to false 20000 booting)
      800
      (first_regs 7 900)
      ((2046 + 4) / 4 * 4)
      true
context_switch_to-stack_init_example =
    context_switch_to-stack_init false 20000 800 7 2046 900 (λ a. 0) booting (omega arith)
      (omega arith) refl booting_same

-- The frame of the other thread stands at 3000, and its control block at 7000.
abbrev asked : Cpu
asked = cpu_with (regs 2000 0 0) (λ a. if a == 7000 then 3000 else 128)

asked-IsAsked : IsAsked asked 5000 7000 128 (λ r. asked.mem (3000 + r * 4)) true
asked-IsAsked = record {
  room = omega arith;
  idle = refl;
  block = inr (omega arith);
  other_block = (inr (omega arith), omega arith);
  frame = record { at_pc = refl; held = λ r h. refl; mpie = refl };
  apart_frame = inr (omega arith);
  apart_block = inr (omega arith);
  below = omega arith;
}

sw_handler-requests_example :
    let c' = sw_handler false (λ x. x) (requests ((5000, 6000) ∷ (8000, 7000) ∷ []) asked) in
    IsResumed c' 128 (λ r. asked.mem (3000 + r * 4)) (3000 + 128) (false || true)
    × IsFrame c'.mem (2000 - 128) 400 (regs 2000 0 0) true
    × (c'.mem 5000 ≡ 2000 - 128)
    × (c'.switch_flag ≡ 0)
    × (c'.pending ≡ false)
sw_handler-requests_example =
    sw_handler-requests false (λ x. x) asked 5000 6000 ((8000, 7000) ∷ []) 128
      (λ r. asked.mem (3000 + r * 4)) true asked-IsAsked

-- The same with the interrupts enabled before.
abbrev switching_off : Cpu
switching_off = (interrupt_disable (record leaving { status = λ i. i == 3 })).1

abbrev back_off : Cpu
back_off = cpu_with (regs 3000 6000 5000) (context_switch false switching_off).mem

off-IsWaiting : IsWaiting false switching_off (interrupt_disable back_off).1
unfolding interrupt_disable
off-IsWaiting = record {
  room = omega arith;
  room' = omega arith;
  named = refl;
  block = inr (omega arith);
  same_frame = λ a p q. refl;
  same_block = refl;
  apart_frame = inl (omega arith);
  apart_block = inr (omega arith);
  other_block = (omega arith, inr (omega arith));
}

context_switch-interrupt_disable_example :
    let c : Cpu = record leaving { status = λ i. i == 3 } in
    let back = context_switch false (interrupt_disable back_off).1 in
    IsResumed back 1 (regs 2000 5000 6000) 2000 false
    × ((interrupt_enable (interrupt_disable c).0 back).status ≡ c.status)
context_switch-interrupt_disable_example =
    context_switch-interrupt_disable false (record leaving { status = λ i. i == 3 }) back_off
      off-IsWaiting
