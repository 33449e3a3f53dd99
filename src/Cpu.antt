-- ===== src/Cpu.antt =====
-- libcpu/cpu: the first stack frame of a thread and the switch requests in cpuport.c, and the switches
-- themselves in context_gcc.S and interrupt_gcc.S, of a build without the floating-point registers.
pub mod Frames
pub mod Resume
pub mod Start
pub mod Switch
pub mod Stored
pub mod Interrupt
pub mod Masked
pub mod Tests
use ch32v303rct6_rtt_mrs.Base.{
  ℕ, zero, suc, ◌+◌, ◌-◌, ◌*◌, ◌/◌, ◌%◌, ◌^◌, Bool, true, false, ◌&&◌, ◌||◌, List, [], ◌∷◌, ◌==◌,
  if◌then◌else◌, u32,
}

-- The words of the memory by their addresses, which are all divisible by four.
abbrev pub Mem : Type 0
Mem = ℕ → ℕ

abbrev pub put : Mem → ℕ → ℕ → Mem
put m a v b = if b == a then v else m b

abbrev pub bits : ℕ → ℕ → Bool
bits n i = n / 2 ^ i % 2 == 1

-- The registers x1 to x31, mstatus by its bits (MIE at 3, MPIE at 7, MPP at 11 and 12), mepc, the
-- address of the next instruction, whether it runs in machine mode, mscratch, whether HPE is off, and
-- the three variables of cpuport.c with the pending bit of the software interrupt.
pub record Cpu : Type 0 where
  pub x : ℕ → ℕ
  pub mem : Mem
  pub status : ℕ → Bool
  pub mepc : ℕ
  pub pc : ℕ
  pub machine : Bool
  pub mscratch : ℕ
  pub hpe_off : Bool
  pub from_thread : ℕ
  pub to_thread : ℕ
  pub switch_flag : ℕ
  pub pending : Bool

-- The loop that fills a frame of `rt_hw_stack_init`, over the words left.
pub fill : ℕ → ℕ → Mem → Mem
fill zero a m = m
fill (suc left) a m = fill left (a + 4) (put m a 0xdeadbeef)

-- `rt_hw_stack_init`: the stack pointer, and the memory.
pub stack_init : ℕ → ℕ → ℕ → ℕ → Mem → ℕ × Mem
stack_init tentry parameter stack_addr texit m =
    let stk = u32 (u32 (stack_addr + 4) / 4 * 4 + 2 ^ 32 - 128) in
    let filled = fill 32 stk m in
    let ra = put filled (stk + 4) texit in
    let a0 = put ra (stk + 40) parameter in
    let epc = put a0 stk tentry in (stk, put epc (stk + 8) 0x7880)

-- `rt_hw_context_switch_interrupt`.
pub context_switch_interrupt : ℕ → ℕ → Cpu → Cpu
context_switch_interrupt from to c = record c {
  from_thread = if c.switch_flag == 0 then from else c.from_thread;
  to_thread = to;
  switch_flag = 1;
  pending = true;
}

-- `rt_hw_interrupt_disable` and `rt_hw_interrupt_enable`; a level is the old mstatus.
pub interrupt_disable : Cpu → (ℕ → Bool) × Cpu
interrupt_disable c = (c.status, record c { status = bits 0x7800 })

pub interrupt_enable : (ℕ → Bool) → Cpu → Cpu
interrupt_enable level c = record c { status = level }

-- `STORE` and `LOAD` of each register of a list, at its place in the frame.
pub store_all : List ℕ → (ℕ → ℕ) → ℕ → Mem → Mem
store_all [] x sp m = m
store_all (r ∷ rs) x sp m = store_all rs x sp (put m (sp + r * 4) (x r))

pub load_all : List ℕ → Mem → ℕ → (ℕ → ℕ) → ℕ → ℕ
load_all [] m sp x = x
load_all (r ∷ rs) m sp x = load_all rs m sp (put x r (m (sp + r * 4)))

-- x6 to x31.
abbrev pub upper : List ℕ
upper =
    6 ∷ 7 ∷ 8 ∷ 9 ∷ 10 ∷ 11 ∷ 12 ∷ 13 ∷ 14 ∷ 15 ∷ 16 ∷ 17 ∷ 18 ∷ 19 ∷ 20 ∷ 21 ∷ 22 ∷ 23 ∷ 24 ∷ 25
    ∷ 26 ∷ 27 ∷ 28 ∷ 29 ∷ 30 ∷ 31 ∷ []

abbrev pub set_bits : (ℕ → Bool) → ℕ → ℕ → Bool
set_bits s n i = s i || bits n i

-- What `mret` leaves in MPP is the hardware's.
module _ (mpp_after : Bool) where
  abbrev pub mret : Cpu → Cpu
  mret c = record c {
    pc = c.mepc;
    machine = c.status 11 && c.status 12;
    status = λ i.
        if i == 3
        then c.status 7
        else if i == 7
        then true
        else if (i == 11) || (i == 12)
        then mpp_after
        else c.status i;
  }

  -- `rt_hw_context_switch_exit`.
  pub context_switch_exit : Cpu → Cpu
  context_switch_exit c =
      let sp = c.x 2 in
      let x1 = put (put c.x 10 (c.mem sp)) 1 (c.mem (sp + 4)) in
      let x2 = put x1 10 (c.mem (sp + 8)) in
      let loaded = load_all (4 ∷ 5 ∷ upper) c.mem sp x2 in
      mret (record c {
        mepc = c.mem sp;
        status = set_bits (set_bits c.status 0x7800) (c.mem (sp + 8));
        x = put loaded 2 (u32 (sp + 128));
      })

  -- `rt_hw_context_switch_to`, with `stack_end` for `_eusrstack`; a0 is `to`.
  pub context_switch_to : ℕ → Cpu → Cpu
  context_switch_to stack_end c =
      let sp = c.mem (c.x 10) in
      context_switch_exit (record c {
        mscratch = u32 (stack_end + 2 ^ 32 - 512);
        status = bits (c.mem (sp + 8));
        x = put (put (put c.x 5 (u32 (stack_end + 2 ^ 32 - 512))) 2 sp) 10 (c.mem (sp + 8));
      })

  -- `rt_hw_context_switch`; a0 is `from`, and a1 is `to`.
  pub context_switch : Cpu → Cpu
  context_switch c =
      let sp = u32 (c.x 2 + 2 ^ 32 - 128) in
      let m1 = put c.mem (c.x 10) sp in
      let m2 = put (put (put m1 sp (c.x 1)) (sp + 4) (c.x 1)) (sp + 20) (c.x 5) in
      let t0 : ℕ = if c.status 3 then 0x80 else 0 in
      let m3 = store_all (4 ∷ upper) c.x sp (put m2 (sp + 8) t0) in
      context_switch_exit (record c { mem = m3; x = put (put c.x 5 t0) 2 (m3 (c.x 11)) })

  -- `SW_handler`. `called` is what the three calls on the interrupt stack leave in the registers.
  pub sw_handler : ((ℕ → ℕ) → ℕ → ℕ) → Cpu → Cpu
  sw_handler called c =
      let sp = u32 (c.x 2 + 2 ^ 32 - 128) in
      let m1 = put (put c.mem (sp + 20) (c.x 5)) (sp + 8) 0x80 in
      let m2 = store_all (1 ∷ 4 ∷ upper) c.x sp m1 in
      let x' = called (put (put c.x 5 0x20) 2 c.mscratch) in
      let swap = record c { mem = put (put m2 sp c.mepc) c.from_thread sp; switch_flag = 0 } in
      let next : Cpu × ℕ =
        if c.switch_flag == 0
        then (record c { mem = m2 }, sp)
        else (record swap { mepc = swap.mem (swap.mem c.to_thread) }, swap.mem c.to_thread) in
      let d = next.0 in
      let sp' = next.1 in
      let status = set_bits (set_bits d.status 0x7800) (d.mem (sp' + 8)) in
      let loaded = load_all (4 ∷ 5 ∷ upper) d.mem sp' (put x' 1 (d.mem (sp' + 4))) in
      mret (record d {
        x = put loaded 2 (u32 (sp' + 128));
        status = status;
        mscratch = x' 2;
        hpe_off = true;
        pending = false;
      })
