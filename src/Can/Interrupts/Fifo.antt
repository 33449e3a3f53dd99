-- ===== src/Can/Interrupts/Fifo.antt =====
-- What `_can_rx_isr` reports of a FIFO, and what it clears: libraries/hal_drivers/drv_can.c.
use ch32v303rct6_rtt_mrs.Base.{
  sym, zero, suc, ℕ, ◌+◌, ◌*◌, ◌<◌, Bool, true, false, ◌&&◌, ◌||◌, not, List, [], ◌∷◌, ◌==◌,
  if◌then◌else◌, arith, ◌≡◌, refl, Bool-cases, inl, inr, ◌∙◌,
}
use ch32v303rct6_rtt_mrs.Can.Control.{Event, rx_ind, rx_overrun}
use ch32v303rct6_rtt_mrs.Can.Interrupts.{Reg, or_bits, fifo_isr, rx_isr}
use ch32v303rct6_rtt_mrs.Can.Interrupts.{recvmsg, recvmsgs, release_fifo}
use ch32v303rct6_rtt_mrs.Can.Interrupts.Events.{IsOneClear, store-or_bits}

-- FULL and FOVR of a FIFO.
abbrev pub of_fifo : ℕ → Bool
of_fifo x = (x == 3) || (x == 4)

-- A message is reported.
abbrev pub reported : ℕ → Reg → Reg → Bool
reported first intenr r = (r 0 || r 1) && intenr first

-- The calls of `_can_rx_isr` for a FIFO, by its bits and those that are enabled.
abbrev pub fifo_calls : ℕ → ℕ → Reg → Reg → List Event
fifo_calls fifo first intenr r =
    if reported first intenr r
    then rx_ind fifo ∷ []
    else if not (r 3 && intenr (first + 1)) && (r 4 && intenr (first + 2))
    then rx_overrun fifo ∷ []
    else []

and_left : (a b : Bool) → (a && b) ≡ true → a ≡ true
and_left true b e = refl
and_left false b e = e

and_false : (a : Bool) → (a && false) ≡ false
and_false true = refl
and_false false = refl

cleared_first : (a b c : Bool) → (a && b) ≡ true → (a && not (b || c)) ≡ false
cleared_first a b c e = ground arith

cleared_last : (a b : Bool) → (a && not (b || true)) ≡ false
cleared_last a b = ground arith

cleared_own : (a b : Bool) → (a && b) ≡ true → (a && not b) ≡ false
cleared_own a b e = ground arith

kept_first : (a b : Bool) → (a && b) ≡ false → (a && not (b || false)) ≡ a
kept_first a b e = ground arith

kept_own : (a b : Bool) → (a && b) ≡ false → (a && not b) ≡ a
kept_own a b e = ground arith

module _ (store : Reg → Reg → Reg) (h : IsOneClear of_fifo store) where
  recvmsg-off : (r : Reg) (x : ℕ) → of_fifo x ≡ true → r x ≡ false → recvmsg store r x ≡ false
  unfolding recvmsg release_fifo
  recvmsg-off r x s off = elim (Bool-cases (r 0 || r 1)) [
    | inl some_left ↦ rw some_left (store-or_bits of_fifo store (λ i. i == 5) r x h s)
    | inr empty ↦ rw empty off
  ]

  recvmsgs-off :
      (reads : ℕ) (r : Reg) (x : ℕ)
      → of_fifo x ≡ true
      → r x ≡ false
      → recvmsgs store reads r x ≡ false
  unfolding recvmsgs
  recvmsgs-off zero r x s off = off
  recvmsgs-off (suc reads) r x s off =
      recvmsgs-off reads (recvmsg store r) x s (recvmsg-off r x s off)

  -- The release of the first message clears both bits.
  recvmsgs-clear :
      (reads : ℕ) (r : Reg) (x : ℕ)
      → of_fifo x ≡ true
      → (r 0 || r 1) ≡ true
      → recvmsgs store (suc reads) r x ≡ false
  unfolding recvmsgs recvmsg release_fifo
  recvmsgs-clear reads r x s pending = rw pending (
      recvmsgs-off reads (store r (or_bits (λ i. i == 5) r)) x s
        (store-or_bits of_fifo store (λ i. i == 5) r x h s))

  fifo_isr_lem :
      (reads fifo first : ℕ) (intenr r : Reg)
      → let (calls, r') = fifo_isr store (suc reads) fifo first intenr r in
        let told = reported first intenr r in
        (calls ≡ fifo_calls fifo first intenr r)
        × (r' 3 ≡ (r 3 && not (told || (intenr (first + 1) || (r 4 && intenr (first + 2))))))
        × (r' 4 ≡ (r 4 && not (told || ((r 3 && intenr (first + 1)) || intenr (first + 2)))))
  unfolding fifo_isr
  fifo_isr_lem reads fifo first intenr r =
      let off : (k : ℕ) (x : ℕ) → of_fifo x ≡ true → store r (or_bits (λ i. i == k) r) x ≡ false =
        λ k x. store-or_bits of_fifo store (λ i. i == k) r x h in
      elim (Bool-cases (reported first intenr r)) [
        | inl told ↦
            let pending : (r 0 || r 1) ≡ true = and_left (r 0 || r 1) (intenr first) told in
            let gone3 = recvmsgs-clear reads r 3 refl pending in
            let gone4 = recvmsgs-clear reads r 4 refl pending in
            rw (told, gone3, gone4)
              (refl, gone3 ∙ sym (and_false (r 3)), gone4 ∙ sym (and_false (r 4)))
        | inr quiet ↦ elim (Bool-cases (r 3 && intenr (first + 1))) [
          | inl full ↦
              rw (quiet, full, off 3 4 refl)
                (
                  refl,
                  off 3 3 refl
                      ∙ sym (
                          cleared_first (r 3) (intenr (first + 1)) (r 4 && intenr (first + 2))
                            full),
                  off 3 4 refl ∙ sym (and_false (r 4)),
                )
          | inr room ↦ elim (Bool-cases (r 4 && intenr (first + 2))) [
            | inl over ↦
                rw (quiet, room, over)
                  (
                    refl,
                    off 4 3 refl ∙ sym (cleared_last (r 3) (intenr (first + 1))),
                    off 4 4 refl ∙ sym (cleared_own (r 4) (intenr (first + 2)) over),
                  )
            | inr fine ↦
                rw (quiet, room, fine)
                  (
                    refl,
                    sym (kept_first (r 3) (intenr (first + 1)) room),
                    sym (kept_own (r 4) (intenr (first + 2)) fine),
                  )
          ]
        ]
      ]

  -- On a FIFO register whose bits FULL and FOVR are cleared by writing 1 to them, and where the
  -- kernel answers the report of a message by at least one call of _can_recvmsg, _can_rx_isr
  -- reports a message, and nothing else, where one is pending and that interrupt is enabled;
  -- otherwise it reports an overrun where FOVR is set and its interrupt enabled, unless FULL is
  -- set with its own interrupt enabled. A report of a message clears FULL and FOVR, since
  -- CAN_FIFORelease writes both back; without one, FULL is cleared where its interrupt is enabled
  -- or an enabled FOVR is set, and FOVR where its interrupt is enabled or an enabled FULL is set,
  -- and else they stay.
  pub rx_isr_lem :
      (reads fifo : ℕ) (intenr r : Reg)
      → fifo < 2
      → let first = 1 + 3 * fifo in
        let (calls, r') = rx_isr store (suc reads) fifo intenr r in
        let told = reported first intenr r in
        (calls ≡ fifo_calls fifo first intenr r)
        × (r' 3 ≡ (r 3 && not (told || (intenr (first + 1) || (r 4 && intenr (first + 2))))))
        × (r' 4 ≡ (r 4 && not (told || ((r 3 && intenr (first + 1)) || intenr (first + 2)))))
  unfolding rx_isr
  rx_isr_lem reads zero intenr r b = fifo_isr_lem reads 0 1 intenr r
  rx_isr_lem reads (suc zero) intenr r b = fifo_isr_lem reads 1 4 intenr r
  rx_isr_lem reads (suc (suc k)) intenr r b = absurd (omega arith)
