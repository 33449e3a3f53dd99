-- ===== src/Flash/Driver/Write.antt =====
-- `Flash_Write` on erased flash.
use ch32v303rct6_rtt_mrs.Base.{
  ℕ, zero, suc, ◌+◌, ◌*◌, ◌/◌, ◌%◌, ◌≤◌, ◌<◌, true, false, ◌==◌, arith, ◌≡◌, ◌⊎◌, refl, ◌≢◌, ◌∙◌,
  half_word,
}
use ch32v303rct6_rtt_mrs.Flash.Hal.{Mem, Chip, FlashHal, erased_byte}
use ch32v303rct6_rtt_mrs.Flash.Driver.{Buf, load16, write_loop, write}

abbrev pub IsErased : Mem → ℕ → ℕ → Type 0
IsErased m from to = (a : ℕ) → from ≤ a → a < to → m a ≡ erased_byte a

abbrev pub IsBytes : Buf → Type 0
IsBytes buf = (i : ℕ) → buf i < 256

-- `buf[from..to)` stands in the flash at `addr + from`, and nothing else has changed; the flash is
-- locked again and the interrupt level is `level`.
pub record Wrote (addr from to : ℕ) (buf : Buf) (c : Chip) (level : ℕ) (r : ℕ × Chip) : Type 0 where
  pub count : r.0 ≡ to
  pub inside : (i : ℕ) → from ≤ i → i < to → r.1.mem (addr + i) ≡ buf i
  pub outside : (a : ℕ) → (a < addr + from) ⊎ (addr + to ≤ a) → r.1.mem a ≡ c.mem a
  pub locked : r.1.unlocked ≡ false
  pub fast : r.1.fast_unlocked ≡ c.fast_unlocked
  pub restored : r.1.interrupts ≡ level

module _ (hal : FlashHal) where
  module _ (addr i : ℕ) (buf : Buf) (c : Chip) where
    -- The chip after the half word at offset `i`.
    abbrev pub step : Chip
    step = record c {
      mem = hal.program_half_word c.unlocked (addr + i) (half_word (buf i) (buf (i + 1))) c.mem;
    }

    -- One half word written reads back.
    step_bytes :
        IsBytes buf
        → addr % 2 ≡ 0
        → i % 2 ≡ 0
        → c.unlocked ≡ true
        → c.mem (addr + i) ≡ 0x39
        → c.mem (addr + i + 1) ≡ 0xE3
        → (step.mem (addr + i) ≡ buf i) × (step.mem (addr + i + 1) ≡ buf (i + 1))
    step_bytes bytes even_addr even_i ready lo hi = rw ready (
        omega (
          arith,
          bytes i,
          bytes (i + 1),
          hal.programmed (addr + i) (half_word (buf i) (buf (i + 1))) c.mem,
        ))

    step_frame :
        (a : ℕ) → c.unlocked ≡ true → a ≢ addr + i → a ≢ addr + i + 1 → step.mem a ≡ c.mem a
    step_frame a ready p q =
        rw ready (hal.program_frame (addr + i) (half_word (buf i) (buf (i + 1))) a c.mem p q)

    -- The rest of a write, seen from before the half word at offset `i`.
    Wrote-step :
        {to : ℕ} {r : ℕ × Chip}
        → c.unlocked ≡ true
        → (step.mem (addr + i) ≡ buf i) × (step.mem (addr + i + 1) ≡ buf (i + 1))
        → i + 2 ≤ to
        → Wrote addr (i + 2) to buf step c.interrupt_value r
        → Wrote addr i to buf c c.interrupt_value r
    Wrote-step ready back fits w = record {
      count = w.count;
      inside = λ j p q. ground (arith, w.inside j, w.outside (addr + j), back);
      outside = λ a p. w.outside a (omega arith) ∙ step_frame a ready (omega arith) (omega arith);
      locked = w.locked;
      fast = w.fast;
      restored = w.restored;
    }

  write_loop-Wrote :
      (left addr i to : ℕ) (buf : Buf) (c : Chip)
      → IsBytes buf
      → addr % 2 ≡ 0
      → i % 2 ≡ 0
      → c.unlocked ≡ true
      → to ≡ i + 2 * left
      → IsErased c.mem (addr + i) (addr + to)
      → Wrote addr i to buf c c.interrupt_value (write_loop hal left addr buf i c)
  unfolding write_loop
  write_loop-Wrote zero addr i to buf c bytes even_addr even_i open_flash e blank =
      rw (hal.lock_lem c) (record {
        count = omega arith;
        inside = λ j p q. absurd (omega arith);
        outside = λ a p. refl;
        locked = refl;
        fast = refl;
        restored = refl;
      })
  write_loop-Wrote (suc left) addr i to buf c bytes even_addr even_i ready e blank = rw test_true (
      Wrote-step addr i buf c ready back (omega arith) (
        write_loop-Wrote left addr (i + 2) to buf (step addr i buf c) bytes even_addr (omega arith)
          ready (omega arith) still_blank))
    where
      back :
          ((step addr i buf c).mem (addr + i) ≡ buf i)
          × ((step addr i buf c).mem (addr + i + 1) ≡ buf (i + 1))
      back =
          step_bytes addr i buf c bytes even_addr even_i ready (ground (arith, blank (addr + i)))
            (ground (arith, blank (addr + i + 1)))

      test_true :
          (load16 (step addr i buf c).mem (addr + i) == half_word (buf i) (buf (i + 1))) ≡ true
      test_true = ground (arith, back)

      still_blank : IsErased (step addr i buf c).mem (addr + (i + 2)) (addr + to)
      still_blank a p q =
          step_frame addr i buf c a ready (omega arith) (omega arith) ∙ blank a (omega arith) q

  -- A Flash_Write of an even number of bytes to an even address of erased flash answers the
  -- length, writes these bytes and no others, leaves the flash locked and the fast mode as it
  -- was, and restores the interrupt level.
  pub write-Wrote :
      (addr len : ℕ) (buf : Buf) (c : Chip)
      → IsBytes buf
      → addr % 2 ≡ 0
      → len % 2 ≡ 0
      → IsErased c.mem addr (addr + len)
      → Wrote addr 0 len buf c c.interrupts (write hal addr buf len c)
  unfolding write
  write-Wrote addr len buf c bytes even_addr even_len blank =
      let even : (addr % 2 == 0) ≡ true = ground arith in
      let ready : Chip = record c {
        unlocked = true;
        interrupts = 0;
        interrupt_value = c.interrupts;
      } in
      let w =
        write_loop-Wrote ((len + 1) / 2) addr 0 len buf ready bytes even_addr (omega arith) refl
          (omega arith) (λ a p q. blank a (omega arith) q) in
      rw (even, hal.unlock_lem)
        (record {
          count = w.count;
          inside = w.inside;
          outside = w.outside;
          locked = w.locked;
          fast = w.fast;
          restored = w.restored;
        })
