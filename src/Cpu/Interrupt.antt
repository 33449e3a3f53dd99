-- ===== src/Cpu/Interrupt.antt =====
-- The switch at the software interrupt: any number of requests make one switch, and none makes none.
use mathlib.Core.Path.{subst}
use ch32v303rct6_rtt_mrs.Base.{
  ap, sym, ℕ, ◌+◌, ◌-◌, ◌≤◌, ◌<◌, ◌≢◌, ◌⊎◌, inl, inr, Bool, true, false, ◌||◌, List, [], ◌∷◌, ◌==◌,
  arith, ◌≡◌, refl, ◌∙◌, ◌^◌, u32,
}
use ch32v303rct6_rtt_mrs.Cpu.{Mem, Cpu, put, upper, sw_handler, context_switch_interrupt}
use ch32v303rct6_rtt_mrs.Cpu.Frames.{IsFrame, IsFrame-agree, kept-stack, load_all-first, IsOutside}
use ch32v303rct6_rtt_mrs.Cpu.Resume.{IsResumed, or_first}
use ch32v303rct6_rtt_mrs.Cpu.Stored.{
  stored_mem, stored_mem-held, stored_mem-mpie, stored_mem-outside, left_mem, left_mem-outside,
  left_mem-IsFrame,
}

-- The requests of one or more interrupts, the first one first.
abbrev pub requests : List (ℕ × ℕ) → Cpu → Cpu
requests [] c = c
requests ((from, to) ∷ rs) c = requests rs (context_switch_interrupt from to c)

abbrev pub last_to : ℕ → List (ℕ × ℕ) → ℕ
last_to to [] = to
last_to to ((from, to') ∷ rs) = last_to to' rs

second_request :
    (from to : ℕ) (c : Cpu)
    → c.switch_flag ≡ 1
    → c.pending ≡ true
    → context_switch_interrupt from to c ≡ record c { to_thread = to }
unfolding context_switch_interrupt
second_request from to c h p = ground arith

first_request :
    (from to : ℕ) (c : Cpu)
    → c.switch_flag ≡ 0
    → context_switch_interrupt from to c
      ≡ record c { from_thread = from; to_thread = to; switch_flag = 1; pending = true }
unfolding context_switch_interrupt
first_request from to c h = ground arith

requests-later :
    (rs : List (ℕ × ℕ)) (c : Cpu)
    → c.switch_flag ≡ 1
    → c.pending ≡ true
    → requests rs c ≡ record c { to_thread = last_to c.to_thread rs }
requests-later [] c h p = refl
requests-later ((from, to) ∷ rs) c h p =
    rw (second_request from to c h p) (requests-later rs (record c { to_thread = to }) h p)

-- `SW_handler` with no request: everything goes on as it was.
module _ (mpp_after : Bool) (called : (ℕ → ℕ) → ℕ → ℕ) where
  pub sw_handler_idle :
      (c : Cpu)
      → 128 ≤ c.x 2
      → c.x 2 < 2 ^ 32
      → c.switch_flag ≡ 0
      → let c' = sw_handler mpp_after called c in
        IsResumed c' c.mepc c.x (c.x 2) true
        × ((a : ℕ) → IsOutside (c.x 2 - 128) a → c'.mem a ≡ c.mem a)
  unfolding sw_handler
  sw_handler_idle c low high none_asked =
      let sp = c.x 2 - 128 in
      let same : u32 (c.x 2 + 2 ^ 32 - 128) ≡ c.x 2 - 128 = omega arith in
      let idle : (c.switch_flag == 0) ≡ true = ground arith in
      rw (same, idle)
        (
          record {
            at_pc = refl;
            held = λ r h. rw (kept-stack r h) (
                load_all-first (4 ∷ 5 ∷ upper) (stored_mem c sp) sp
                  (put (called (put (put c.x 5 0x20) 2 c.mscratch)) 1 (stored_mem c sp (sp + 4))) r
                  h refl
                ∙ stored_mem-held c sp r h);
            stack = omega (arith, low, high);
            enabled_as = rw (stored_mem-mpie c sp) (ground arith);
            privileged = ground arith;
          },
          λ a o. stored_mem-outside c sp a o,
        )

  sw_handler-IsResumed :
      (c : Cpu) (sp' pc : ℕ) (x : ℕ → ℕ) (enabled : Bool)
      → 128 ≤ c.x 2
      → c.x 2 < 2 ^ 32
      → c.switch_flag ≢ 0
      → left_mem c (c.x 2 - 128) c.to_thread ≡ sp'
      → sp' + 128 < 2 ^ 32
      → IsFrame (left_mem c (c.x 2 - 128)) sp' pc x enabled
      → let c' = sw_handler mpp_after called c in
        IsResumed c' pc x (sp' + 128) (c.status 7 || enabled)
        × (c'.mem ≡ left_mem c (c.x 2 - 128))
        × (c'.switch_flag ≡ 0)
        × (c'.pending ≡ false)
  unfolding sw_handler
  sw_handler-IsResumed c sp' pc x enabled low high asked e b f =
      let sp = c.x 2 - 128 in
      let m = left_mem c sp in
      let same : u32 (c.x 2 + 2 ^ 32 - 128) ≡ c.x 2 - 128 = omega arith in
      let busy : (c.switch_flag == 0) ≡ false = ground arith in
      rw (same, busy)
        (
          record {
            at_pc = rw e f.at_pc;
            held = λ r h.
                rw (kept-stack r h, e)
                  (load_all-first (4 ∷ 5 ∷ upper) m sp'
                      (put (called (put (put c.x 5 0x20) 2 c.mscratch)) 1 (m (sp' + 4))) r h refl
                    ∙ f.held r h);
            stack = rw e (omega (arith, b));
            enabled_as = rw (e, f.mpie) (or_first (c.status 7) enabled);
            privileged = ground arith;
          },
          refl,
          refl,
          refl,
        )

-- Where the interrupted thread's frame will stand, and the frame that is to be loaded.
pub record IsAsked (c : Cpu) (from to pc : ℕ) (x : ℕ → ℕ) (enabled : Bool) : Type 0 where
  pub room : (128 ≤ c.x 2) × (c.x 2 < 2 ^ 32)
  pub idle : c.switch_flag ≡ 0
  pub block : IsOutside (c.x 2 - 128) from
  pub other_block : IsOutside (c.x 2 - 128) to × (to ≢ from)
  pub frame : IsFrame c.mem (c.mem to) pc x enabled
  pub apart_frame : (c.mem to + 128 ≤ c.x 2 - 128) ⊎ (c.x 2 ≤ c.mem to)
  pub apart_block : IsOutside (c.mem to) from
  pub below : c.mem to + 128 < 2 ^ 32

module _ (mpp_after : Bool) (called : (ℕ → ℕ) → ℕ → ℕ) where
  -- Where no switch is requested, one or more calls of rt_hw_context_switch_interrupt, whose last
  -- thread waits with a frame apart from the frame and the control block of the first one, make
  -- one switch in SW_handler: the control block of the first call's from-thread gets the stack
  -- pointer of a frame with all that was interrupted, the last call's to-thread goes on from its
  -- frame with the interrupts enabled if MPIE or its own bit was set, and neither the flag nor
  -- the pending bit is left.
  pub sw_handler-requests :
      (c : Cpu) (from to : ℕ) (rs : List (ℕ × ℕ)) (pc : ℕ) (x : ℕ → ℕ) (enabled : Bool)
      → IsAsked c from (last_to to rs) pc x enabled
      → let c' = sw_handler mpp_after called (requests ((from, to) ∷ rs) c) in
        IsResumed c' pc x (c.mem (last_to to rs) + 128) (c.status 7 || enabled)
        × IsFrame c'.mem (c.x 2 - 128) c.mepc c.x true
        × (c'.mem from ≡ c.x 2 - 128)
        × (c'.switch_flag ≡ 0)
        × (c'.pending ≡ false)
  sw_handler-requests c from to rs pc x enabled a =
      let to' = last_to to rs in
      let sp = c.x 2 - 128 in
      let sp' = c.mem to' in
      let d : Cpu = record c {
        from_thread = from;
        to_thread = to';
        switch_flag = 1;
        pending = true;
      } in
      let first : Cpu = record c {
        from_thread = from;
        to_thread = to;
        switch_flag = 1;
        pending = true;
      } in
      let asked : requests ((from, to) ∷ rs) c ≡ d =
        ap (requests rs) (first_request from to c a.idle) ∙ requests-later rs first refl refl in
      let target : left_mem d sp to' ≡ sp' =
        left_mem-outside d sp to' a.other_block.0 a.other_block.1 in
      let apart : (b : ℕ) → sp' ≤ b → b < sp' + 128 → IsOutside sp b = λ b low high.
        elim a.apart_frame [
          | inl under ↦ inl (omega arith)
          | inr above ↦ inr (omega (arith, a.room))
        ] in
      let ne : (b : ℕ) → sp' ≤ b → b < sp' + 128 → b ≢ from = λ b low high e. elim a.apart_block [
        | inl under ↦ absurd (omega arith)
        | inr above ↦ absurd (omega arith)
      ] in
      let loaded : IsFrame (left_mem d sp) sp' pc x enabled =
        IsFrame-agree c.mem (left_mem d sp) sp' pc x enabled
          (λ b low high. left_mem-outside d sp b (apart b low high) (ne b low high)) a.frame in
      let (resumed, m, flag, pending) =
        sw_handler-IsResumed mpp_after called d sp' pc x enabled a.room.0 a.room.1 (omega arith)
          target a.below loaded in
      let own = left_mem-IsFrame d sp a.block in
      let self : (from == from) ≡ true = ground arith in
      rw asked (
        resumed,
        subst (λ (n : Mem). IsFrame n sp c.mepc c.x true) (sym m) own,
        ap (λ (n : Mem). n from) m ∙ rw self refl,
        flag,
        pending,
      )
