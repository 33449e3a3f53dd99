-- ===== src/Cpu/Switch.antt =====
-- Threads that are switched away go on later as if nothing had happened.
use mathlib.Core.Path.{subst}
use ch32v303rct6_rtt_mrs.Base.{
  ap, u32, ℕ, ◌+◌, ◌-◌, ◌*◌, ◌≤◌, ◌<◌, ◌≢◌, ◌⊎◌, inl, inr, Bool, true, false, ◌||◌, List, ◌∷◌, ◌==◌,
  if◌then◌else◌, arith, ◌≡◌, refl, ◌∙◌, Bool-cases, ◌^◌,
}
use ch32v303rct6_rtt_mrs.Cpu.{Mem, Cpu, put, upper, store_all, context_switch}
use ch32v303rct6_rtt_mrs.Cpu.Frames.{
  IsFrame, IsFrame-agree, has, IsOutside, store_all-outside, store_all-has,
}
use ch32v303rct6_rtt_mrs.Cpu.Resume.{
  IsResumed, context_switch_exit-IsResumed, context_switch_exit-mem, store_all-rest,
}

eq_self : (a : ℕ) → (a == a) ≡ true
eq_self a = ground arith

not_eq : (a b : ℕ) → b ≢ a → (a == b) ≡ false
not_eq a b n = ground arith

inside_ne : (sp a b : ℕ) → sp ≤ a → a < sp + 128 → IsOutside sp b → (a == b) ≡ false
inside_ne sp a b low high o = ground arith

not_stored :
    (us : List ℕ) (r : ℕ)
    → has r (1 ∷ 4 ∷ 5 ∷ us) ≡ true
    → has r (4 ∷ us) ≡ false
    → (r ≡ 1) ⊎ (r ≡ 5)
not_stored us r h e = elim (Bool-cases (r == 1)) [
  | inl one ↦ inl (ground arith)
  | inr other ↦ inr (ground arith)
]

-- The memory that `rt_hw_context_switch` leaves before it loads the other thread's registers.
abbrev saved_mem : Cpu → ℕ → Mem
saved_mem c sp =
    let t0 : ℕ = if c.status 3 then 0x80 else 0 in
    store_all (4 ∷ upper) c.x sp (
      put (put (put (put (put c.mem (c.x 10) sp) sp (c.x 1)) (sp + 4) (c.x 1)) (sp + 20) (c.x 5))
        (sp + 8) t0)

saved_mem-IsFrame : (c : Cpu) (sp : ℕ) → IsFrame (saved_mem c sp) sp (c.x 1) c.x (c.status 3)
saved_mem-IsFrame c sp =
    let base =
      put (put (put (put (put c.mem (c.x 10) sp) sp (c.x 1)) (sp + 4) (c.x 1)) (sp + 20) (c.x 5))
        (sp + 8) (if c.status 3 then 0x80 else 0) in
    let start : sp + 0 * 4 ≡ sp = omega arith in
    record {
      at_pc =
          subst (λ a. store_all (4 ∷ upper) c.x sp base a ≡ c.x 1) start
            (store_all-has (4 ∷ upper) c.x sp base 0 ∙ (ground arith));
      held = λ r h. store_all-rest (4 ∷ upper) c.x sp base r (λ e. elim (not_stored upper r h e) [
        | inl one ↦ rw one (ground arith)
        | inr five ↦ rw five (ground arith)
      ]);
      mpie = rw (store_all-has (4 ∷ upper) c.x sp base 2) (ground arith);
    }

saved_mem-outside :
    (c : Cpu) (sp a : ℕ) → IsOutside sp a → saved_mem c sp a ≡ (if a == c.x 10 then sp else c.mem a)
saved_mem-outside c sp a o =
    store_all-outside (4 ∷ upper) c.x sp
      (put (put (put (put (put c.mem (c.x 10) sp) sp (c.x 1)) (sp + 4) (c.x 1)) (sp + 20) (c.x 5))
        (sp + 8) (if c.status 3 then 0x80 else 0))
      a (omega arith) o
    ∙ ground arith

module _ (mpp_after : Bool) where
  -- `rt_hw_context_switch` from a thread with room on its stack.
  context_switch-IsFrame :
      (d : Cpu) (sp pc : ℕ) (x : ℕ → ℕ) (enabled : Bool)
      → 128 ≤ d.x 2
      → d.x 2 < 2 ^ 32
      → saved_mem d (d.x 2 - 128) (d.x 11) ≡ sp
      → sp + 128 < 2 ^ 32
      → IsFrame (saved_mem d (d.x 2 - 128)) sp pc x enabled
      → IsResumed (context_switch mpp_after d) pc x (sp + 128) (d.status 7 || enabled)
        × ((context_switch mpp_after d).mem ≡ saved_mem d (d.x 2 - 128))
  unfolding context_switch
  context_switch-IsFrame d sp pc x enabled room top e small f =
      let same : u32 (d.x 2 + 2 ^ 32 - 128) ≡ d.x 2 - 128 = omega arith in
      let m = saved_mem d (d.x 2 - 128) in
      let t0 : ℕ = if d.status 3 then 0x80 else 0 in
      let ready : Cpu = record d { mem = m; x = put (put d.x 5 t0) 2 (m (d.x 11)) } in
      rw same (
        context_switch_exit-IsResumed mpp_after ready sp pc x enabled e small f,
        context_switch_exit-mem mpp_after ready,
      )

  context_switch-mem :
      (c : Cpu)
      → 128 ≤ c.x 2
      → c.x 2 < 2 ^ 32
      → (context_switch mpp_after c).mem ≡ saved_mem c (c.x 2 - 128)
  unfolding context_switch
  context_switch-mem c room top =
      let same : u32 (c.x 2 + 2 ^ 32 - 128) ≡ c.x 2 - 128 = omega arith in
      let m = saved_mem c (c.x 2 - 128) in
      let t0 : ℕ = if c.status 3 then 0x80 else 0 in
      rw same (
        context_switch_exit-mem mpp_after
          (record c { mem = m; x = put (put c.x 5 t0) 2 (m (c.x 11)) }))

  -- The thread `c` has been switched away, and `d` is about to switch to it: since then nobody has
  -- written to its frame or its control block, and the frame that `d` will write lies elsewhere.
  pub record IsWaiting (c d : Cpu) : Type 0 where
    pub room : (128 ≤ c.x 2) × (c.x 2 < 2 ^ 32)
    pub room' : (128 ≤ d.x 2) × (d.x 2 < 2 ^ 32)
    pub named : d.x 11 ≡ c.x 10
    pub block : IsOutside (c.x 2 - 128) (c.x 10)
    pub same_frame :
        (a : ℕ) → c.x 2 - 128 ≤ a → a < c.x 2 → d.mem a ≡ (context_switch mpp_after c).mem a
    pub same_block : d.mem (c.x 10) ≡ (context_switch mpp_after c).mem (c.x 10)
    pub apart_frame : (c.x 2 ≤ d.x 2 - 128) ⊎ (d.x 2 ≤ c.x 2 - 128)
    pub apart_block : IsOutside (d.x 2 - 128) (c.x 10)
    pub other_block : (d.x 10 ≢ c.x 10) × IsOutside (c.x 2 - 128) (d.x 10)

  -- A thread that rt_hw_context_switch has switched away, and to which another thread switches,
  -- with its frame and control block untouched since and the frame of the other elsewhere, goes
  -- on after its call, in machine mode, with its registers x1 and x4 to x31 and its stack pointer
  -- as they were; the interrupts are enabled if they were, or if MPIE of the other was set.
  pub context_switch-context_switch :
      (c d : Cpu)
      → IsWaiting c d
      → IsResumed (context_switch mpp_after d) (c.x 1) c.x (c.x 2) (d.status 7 || c.status 3)
  context_switch-context_switch c d w =
      let sp = c.x 2 - 128 in
      let top : sp + 128 ≡ c.x 2 = omega (arith, w.room) in
      let stored = context_switch-mem c w.room.0 w.room.1 in
      let sd = d.x 2 - 128 in
      let other : (c.x 10 == d.x 10) ≡ false = not_eq (c.x 10) (d.x 10) w.other_block.0 in
      let self : (c.x 10 == c.x 10) ≡ true = eq_self (c.x 10) in
      let block : saved_mem d sd (d.x 11) ≡ sp =
        ap (λ (a : ℕ). saved_mem d sd a) w.named
        ∙ saved_mem-outside d sd (c.x 10) w.apart_block
        ∙ rw other (
            w.same_block
            ∙ ap (λ (m : Mem). m (c.x 10)) stored
            ∙ saved_mem-outside c sp (c.x 10) w.block
            ∙ rw self refl) in
      let frame : IsFrame (saved_mem d sd) sp (c.x 1) c.x (c.status 3) =
        IsFrame-agree (saved_mem c sp) (saved_mem d sd) sp (c.x 1) c.x (c.status 3)
          (λ a low high.
            let free : (a == d.x 10) ≡ false = inside_ne sp a (d.x 10) low high w.other_block.1 in
            let out : IsOutside sd a = elim w.apart_frame [
              | inl above ↦ inl (omega arith)
              | inr under ↦ inr (omega (arith, w.room'))
            ] in
            saved_mem-outside d sd a out
            ∙ rw free (w.same_frame a low (omega arith) ∙ ap (λ (m : Mem). m a) stored))
          (saved_mem-IsFrame c sp) in
      let (resumed, rest) =
        context_switch-IsFrame d sp (c.x 1) c.x (c.status 3) w.room'.0 w.room'.1 block
          (omega (arith, w.room)) frame in
      subst (λ t. IsResumed (context_switch mpp_after d) (c.x 1) c.x t (d.status 7 || c.status 3))
        top resumed
