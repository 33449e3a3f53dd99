-- ===== src/Can/Interrupts.antt =====
-- The interrupts of libraries/hal_drivers/drv_can.c: switching them on and off, and the handlers for
-- sending and receiving. A register is the function of its bits.
pub mod Events
pub mod Fifo
pub mod Switch
use ch32v303rct6_rtt_mrs.Base.{
  zero, suc, ℕ, ◌+◌, ◌*◌, Bool, true, false, ◌&&◌, ◌||◌, List, [], ◌∷◌, ◌++◌, ◌==◌, if◌then◌else◌,
}
use ch32v303rct6_rtt_mrs.Can.{Base, can1, can2, other}
use ch32v303rct6_rtt_mrs.Can.Control.{Event, tx_done, tx_fail, rx_ind, rx_overrun}

abbrev pub Reg : Type 0
Reg = ℕ → Bool

-- The right side of `r |= bits`.
abbrev pub or_bits : Reg → Reg → Reg
or_bits bits r i = bits i || r i

-- What a register of the controller holds after a value is written to it, from what it held before.
module _ (store : Reg → Reg → Reg) where
  -- The part of the handler of sent frames that is about mailbox `k`, whose bits of TSTATR are RQCP
  -- at `8 * k`, then TXOK, ALST and TERR.
  pub box_isr : ℕ → Reg → List Event × Reg
  box_isr k r =
      let done : List Event × Reg =
        if r (8 * k + 1)
        then (tx_done k ∷ [], store r (or_bits (λ i. i == 8 * k + 1) r))
        else ([], r) in
      let fail : List Event × Reg =
        if done.1 (8 * k + 2) || done.1 (8 * k + 3)
        then (
          done.0 ++ (tx_fail k ∷ []),
          store done.1 (or_bits (λ i. (i == 8 * k + 2) || (i == 8 * k + 3)) done.1),
        )
        else done in
      if r (8 * k) then (fail.0, store fail.1 (or_bits (λ i. i == 8 * k) fail.1)) else ([], r)

  -- `USB_HP_CAN1_TX_IRQHandler`, of INTENR and TSTATR. `clear_tme` is what `CAN_ClearITPendingBit`
  -- makes of TSTATR.
  pub tx_handler : (Reg → Reg) → Reg → Reg → List Event × Reg
  unfolding box_isr
  tx_handler clear_tme intenr r =
      let (e0, r0) = box_isr 0 r in
      let (e1, r1) = box_isr 1 r0 in
      let (e2, r2) = box_isr 2 r1 in if intenr 0 then (e0 ++ e1 ++ e2, clear_tme r2) else ([], r)

  -- `CAN_FIFORelease` on the register of the FIFO, whose bit 5 is RFOM.
  pub release_fifo : Reg → Reg
  release_fifo r = store r (or_bits (λ i. i == 5) r)

  -- What `_can_recvmsg` makes of that register: nothing where no message is pending.
  pub recvmsg : Reg → Reg
  unfolding release_fifo
  recvmsg r = if r 0 || r 1 then release_fifo r else r

  -- The calls of `_can_recvmsg` by which the kernel answers the report of a message.
  pub recvmsgs : ℕ → Reg → Reg
  unfolding recvmsg
  recvmsgs zero r = r
  recvmsgs (suc reads) r = recvmsgs reads (recvmsg r)

  -- A case of `_can_rx_isr`, of INTENR with the number of the FIFO's first bit in it, and of the
  -- FIFO's register: two bits of messages pending, FULL at 3 and FOVR at 4. `reads` is the number of
  -- times that the kernel calls `_can_recvmsg` for a report.
  pub fifo_isr : ℕ → ℕ → ℕ → Reg → Reg → List Event × Reg
  unfolding recvmsgs
  fifo_isr reads fifo first intenr r =
      let ind : List Event × Reg =
        if (r 0 || r 1) && intenr first then (rx_ind fifo ∷ [], recvmsgs reads r) else ([], r) in
      let full =
        if ind.1 3 && intenr (first + 1)
        then store ind.1 (or_bits (λ i. i == 3) ind.1)
        else ind.1 in
      if full 4 && intenr (first + 2)
      then (ind.0 ++ (rx_overrun fifo ∷ []), store full (or_bits (λ i. i == 4) full))
      else (ind.0, full)

  -- `_can_rx_isr`.
  pub rx_isr : ℕ → ℕ → Reg → Reg → List Event × Reg
  unfolding fifo_isr
  rx_isr reads fifo intenr r =
      if fifo == 0
      then fifo_isr reads 0 1 intenr r
      else if fifo == 1
      then fifo_isr reads 1 4 intenr r
      else ([], r)
