-- ===== src/Cpu/Stored.antt =====
-- The frame that `SW_handler` stores: libcpu/cpu/interrupt_gcc.S.
use ch32v303rct6_rtt_mrs.Base.{
  ℕ, ◌+◌, ◌*◌, ◌<◌, ◌≢◌, true, false, List, ◌∷◌, ◌==◌, arith, ◌≡◌, refl, ◌∙◌,
}
use ch32v303rct6_rtt_mrs.Cpu.{Mem, Cpu, put, upper, store_all}
use ch32v303rct6_rtt_mrs.Cpu.Frames.{
  IsFrame, kept, has, has-small, kept_pos, IsOutside, store_all-outside, store_all-has,
}
use ch32v303rct6_rtt_mrs.Cpu.Resume.{store_all-rest}

-- The memory that `SW_handler` leaves before it looks at the flag.
abbrev pub stored_mem : Cpu → ℕ → Mem
stored_mem c sp = store_all (1 ∷ 4 ∷ upper) c.x sp (put (put c.mem (sp + 20) (c.x 5)) (sp + 8) 0x80)

not_stored :
    (us : List ℕ) (r : ℕ) → has r (1 ∷ 4 ∷ 5 ∷ us) ≡ true → has r (1 ∷ 4 ∷ us) ≡ false → r ≡ 5
not_stored us r h e = ground arith

pub stored_mem-held :
    (c : Cpu) (sp r : ℕ) → has r kept ≡ true → stored_mem c sp (sp + r * 4) ≡ c.x r
stored_mem-held c sp r h =
    let base = put (put c.mem (sp + 20) (c.x 5)) (sp + 8) 0x80 in
    store_all-rest (1 ∷ 4 ∷ upper) c.x sp base r
      (λ e. let five = not_stored upper r h e in rw five (ground arith))

pub stored_mem-mpie : (c : Cpu) (sp : ℕ) → stored_mem c sp (sp + 8) ≡ 0x80
stored_mem-mpie c sp =
    let base = put (put c.mem (sp + 20) (c.x 5)) (sp + 8) 0x80 in
    store_all-has (1 ∷ 4 ∷ upper) c.x sp base 2 ∙ ground arith

pub stored_mem-outside : (c : Cpu) (sp a : ℕ) → IsOutside sp a → stored_mem c sp a ≡ c.mem a
stored_mem-outside c sp a o =
    store_all-outside (1 ∷ 4 ∷ upper) c.x sp (put (put c.mem (sp + 20) (c.x 5)) (sp + 8) 0x80) a
      (omega arith) o
    ∙ ground arith

-- The memory after a switch: the program counter is stored too, and the stack pointer in the block.
abbrev pub left_mem : Cpu → ℕ → Mem
left_mem c sp = put (put (stored_mem c sp) sp c.mepc) c.from_thread sp

pub left_mem-outside :
    (c : Cpu) (sp a : ℕ) → IsOutside sp a → a ≢ c.from_thread → left_mem c sp a ≡ c.mem a
left_mem-outside c sp a o n =
    let other : (a == c.from_thread) ≡ false = ground arith in
    let above : (a == sp) ≡ false = ground arith in rw (other, above) (stored_mem-outside c sp a o)

left_mem-inside :
    (c : Cpu) (sp k : ℕ)
    → IsOutside sp c.from_thread
    → k < 32
    → k ≢ 0
    → left_mem c sp (sp + k * 4) ≡ stored_mem c sp (sp + k * 4)
left_mem-inside c sp k o b n =
    let other : (sp + k * 4 == c.from_thread) ≡ false = ground arith in
    let above : (sp + k * 4 == sp) ≡ false = ground arith in rw (other, above) refl

pub left_mem-IsFrame :
    (c : Cpu) (sp : ℕ) → IsOutside sp c.from_thread → IsFrame (left_mem c sp) sp c.mepc c.x true
left_mem-IsFrame c sp o =
    let other : (sp == c.from_thread) ≡ false = ground arith in
    let here : (sp == sp) ≡ true = ground arith in
    record {
      at_pc = rw (other, here) refl;
      held = λ r h.
          left_mem-inside c sp r o (has-small r kept (omega arith) h) (kept_pos r h)
          ∙ stored_mem-held c sp r h;
      mpie = rw (left_mem-inside c sp 2 o (omega arith) (omega arith), stored_mem-mpie c sp) refl;
    }
