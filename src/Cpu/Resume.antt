-- ===== src/Cpu/Resume.antt =====
-- `rt_hw_context_switch_exit`: from a frame a thread goes on.
use ch32v303rct6_rtt_mrs.Base.{
  ℕ, ◌+◌, ◌*◌, ◌<◌, inl, inr, Bool, true, false, ◌||◌, List, ◌∷◌, arith, ◌≡◌, refl, ◌∙◌, Bool-cases,
  ◌^◌,
}
use ch32v303rct6_rtt_mrs.Cpu.{Mem, Cpu, put, upper, store_all, context_switch_exit}
use ch32v303rct6_rtt_mrs.Cpu.Frames.{IsFrame, kept, has, kept-stack, load_all-first, store_all-has}

-- A thread goes on: at `pc`, with the registers `x` and the stack pointer `top`, in machine mode.
pub record IsResumed (c : Cpu) (pc : ℕ) (x : ℕ → ℕ) (top : ℕ) (enabled : Bool) : Type 0 where
  pub at_pc : c.pc ≡ pc
  pub held : (r : ℕ) → has r kept ≡ true → c.x r ≡ x r
  pub stack : c.x 2 ≡ top
  pub enabled_as : c.status 3 ≡ enabled
  pub privileged : c.machine ≡ true

-- `csrs` sets the bits of MPP and then MPIE.
pub or_first : (a b : Bool) → ((a || false) || b) ≡ (a || b)
or_first true b = refl
or_first false b = refl

module _ (mpp_after : Bool) where
  pub context_switch_exit-IsResumed :
      (c : Cpu) (sp pc : ℕ) (x : ℕ → ℕ) (enabled : Bool)
      → c.x 2 ≡ sp
      → sp + 128 < 2 ^ 32
      → IsFrame c.mem sp pc x enabled
      → IsResumed (context_switch_exit mpp_after c) pc x (sp + 128) (c.status 7 || enabled)
  unfolding context_switch_exit
  context_switch_exit-IsResumed c sp pc x enabled e b f = record {
    at_pc = rw e f.at_pc;
    held = λ r h.
        rw (e, kept-stack r h)
          (load_all-first (4 ∷ 5 ∷ upper) c.mem sp
              (put (put (put c.x 10 (c.mem sp)) 1 (c.mem (sp + 4))) 10 (c.mem (sp + 8))) r h refl
            ∙ f.held r h);
    stack = rw e (omega arith);
    enabled_as = rw (e, f.mpie) (or_first (c.status 7) enabled);
    privileged = ground arith;
  }

  pub context_switch_exit-mem : (c : Cpu) → (context_switch_exit mpp_after c).mem ≡ c.mem
  unfolding context_switch_exit
  context_switch_exit-mem c = refl

pub store_all-rest :
    (rs : List ℕ) (x : ℕ → ℕ) (sp : ℕ) (base : Mem) (r : ℕ)
    → (has r rs ≡ false → base (sp + r * 4) ≡ x r)
    → store_all rs x sp base (sp + r * 4) ≡ x r
store_all-rest rs x sp base r h = elim (Bool-cases (has r rs)) [
  | inl e ↦ store_all-has rs x sp base r ∙ rw e refl
  | inr e ↦ store_all-has rs x sp base r ∙ rw e (h e)
]
