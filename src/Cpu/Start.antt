-- ===== src/Cpu/Start.antt =====
-- A new thread starts at its entry, with its parameter.
use ch32v303rct6_rtt_mrs.Base.{
  u32, ◌/◌, ℕ, ◌+◌, ◌-◌, ◌*◌, ◌≤◌, ◌<◌, ◌≢◌, Bool, true, false, ◌==◌, if◌then◌else◌, arith, ◌≡◌,
  refl, ◌∙◌, ◌^◌,
}
use ch32v303rct6_rtt_mrs.Cpu.{fill, Mem, Cpu, put, bits, stack_init, context_switch_to}
use ch32v303rct6_rtt_mrs.Cpu.Frames.{
  IsFrame, IsFrame-agree, kept, kept-stack, IsOutside, has-small, fill-inside, fill-outside,
  kept_pos,
}
use ch32v303rct6_rtt_mrs.Cpu.Resume.{IsResumed, context_switch_exit-IsResumed}

-- The registers that a new thread starts with.
abbrev pub first_regs : ℕ → ℕ → ℕ → ℕ
first_regs parameter texit r = if r == 1 then texit else if r == 10 then parameter else 0xdeadbeef

first_frame :
    (filled : Mem) (stk tentry parameter texit r : ℕ)
    → filled (stk + r * 4) ≡ 0xdeadbeef
    → (r == 2) ≡ false
    → r ≢ 0
    → put
        (put (put (put filled (stk + 4) texit) (stk + 40) parameter) stk tentry)
        (stk + 8)
        0x7880
        (stk + r * 4)
      ≡ first_regs parameter texit r
first_frame filled stk tentry parameter texit r a b c = ground arith

stack_init-IsFrame :
    (tentry parameter stack_addr texit : ℕ) (m : Mem)
    → 128 ≤ stack_addr
    → stack_addr + 4 < 2 ^ 32
    → let (stk, m') = stack_init tentry parameter stack_addr texit m in
      IsFrame m' stk tentry (first_regs parameter texit) true
      × (stk ≡ (stack_addr + 4) / 4 * 4 - 128)
      × ((a : ℕ) → IsOutside stk a → m' a ≡ m a)
unfolding stack_init
stack_init-IsFrame tentry parameter stack_addr texit m low high =
    let stk = u32 (u32 (stack_addr + 4) / 4 * 4 + 2 ^ 32 - 128) in
    let e : stk ≡ (stack_addr + 4) / 4 * 4 - 128 = omega arith in
    (
      record {
        at_pc = ground arith;
        held = λ r h.
            let small = has-small r kept (omega arith) h in
            let inside = fill-inside 32 stk m r small in
            first_frame (fill 32 stk m) stk tentry parameter texit r inside (kept-stack r h)
              (kept_pos r h);
        mpie = ground arith;
      },
      e,
      λ a o. let out = fill-outside 32 stk m a o in ground (arith, out),
    )

module _ (mpp_after : Bool) where
  -- For a stack address of at least 128 and below 2 ^ 32 - 4, where the control block holds what
  -- rt_hw_stack_init returned and the frame is as it left it, rt_hw_context_switch_to starts the
  -- thread: at its entry, in machine mode, with its parameter in a0, its exit in ra, 0xdeadbeef
  -- in the other registers but sp and gp, the stack pointer at the aligned end of its stack, and
  -- the interrupts enabled.
  pub context_switch_to-stack_init :
      (stack_end tentry parameter stack_addr texit : ℕ) (m : Mem) (c : Cpu)
      → 128 ≤ stack_addr
      → stack_addr + 4 < 2 ^ 32
      → c.mem (c.x 10) ≡ (stack_init tentry parameter stack_addr texit m).0
      → ((a : ℕ)
          → (stack_addr + 4) / 4 * 4 - 128 ≤ a
          → a < (stack_addr + 4) / 4 * 4
          → c.mem a ≡ (stack_init tentry parameter stack_addr texit m).1 a)
      → IsResumed
          (context_switch_to mpp_after stack_end c)
          tentry
          (first_regs parameter texit)
          ((stack_addr + 4) / 4 * 4)
          true
  unfolding context_switch_to
  context_switch_to-stack_init stack_end tentry parameter stack_addr texit m c low high e same =
      let (frame, place, rest) = stack_init-IsFrame tentry parameter stack_addr texit m low high in
      let top = (stack_addr + 4) / 4 * 4 in
      let sp = c.mem (c.x 10) in
      let at : sp ≡ top - 128 = e ∙ place in
      let whole : sp + 128 ≡ top = omega (arith, at) in
      let here : IsFrame c.mem sp tentry (first_regs parameter texit) true =
        IsFrame-agree (stack_init tentry parameter stack_addr texit m).1 c.mem sp tentry
          (first_regs parameter texit) true
          (λ a p q. same a (omega (arith, at)) (omega (arith, at))) (rw e frame) in
      let ready : Cpu = record c {
        mscratch = u32 (stack_end + 2 ^ 32 - 512);
        status = bits (c.mem (sp + 8));
        x = put (put (put c.x 5 (u32 (stack_end + 2 ^ 32 - 512))) 2 sp) 10 (c.mem (sp + 8));
      } in
      let resumed =
        context_switch_exit-IsResumed mpp_after ready sp tentry (first_regs parameter texit) true
          refl (omega (arith, at)) here in
      record {
        at_pc = resumed.at_pc;
        held = resumed.held;
        stack = resumed.stack ∙ whole;
        enabled_as = resumed.enabled_as ∙ rw here.mpie refl;
        privileged = resumed.privileged;
      }
