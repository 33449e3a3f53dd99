-- ===== src/Can/Interrupts/Events.antt =====
-- What the handler of sent frames of libraries/hal_drivers/drv_can.c reports, on a register whose
-- status bits are cleared by writing 1 to them.
use mathlib.Core.List.{append-nil}
use ch32v303rct6_rtt_mrs.Base.{
  ap, ltb, ℕ, ◌+◌, ◌*◌, ◌%◌, ◌<◌, Bool, true, false, ◌&&◌, ◌||◌, not, List, [], ◌∷◌, ◌++◌, ◌==◌,
  if◌then◌else◌, arith, ◌≡◌, refl, Bool-cases, inl, inr, ◌∙◌,
}
use ch32v303rct6_rtt_mrs.Can.Control.{Event, tx_done, tx_fail}
use ch32v303rct6_rtt_mrs.Can.Interrupts.{Reg, or_bits, box_isr, tx_handler}

-- The bits that `is_status` names are cleared by a 1 and kept by a 0.
pub record IsOneClear (is_status : ℕ → Bool) (store : Reg → Reg → Reg) : Type 0 where
  pub clears : (r v : Reg) (x : ℕ) → is_status x ≡ true → store r v x ≡ (r x && not (v x))

-- The status bits of TSTATR: four for each of the mailboxes.
abbrev pub of_mailboxes : ℕ → Bool
of_mailboxes x = ltb x 24 && ltb (x % 8) 4

-- FULL and FOVR of a FIFO.
abbrev pub of_fifo : ℕ → Bool
of_fifo x = (x == 3) || (x == 4)

-- `|=` clears every status bit that is set, also those it does not name.
pub store-or_bits :
    (is_status : ℕ → Bool) (store : Reg → Reg → Reg) (bits r : Reg) (x : ℕ)
    → IsOneClear is_status store
    → is_status x ≡ true
    → store r (or_bits bits r) x ≡ false
store-or_bits is_status store bits r x h s =
    h.clears r (or_bits bits r) x s
    ∙ elim (Bool-cases (r x)) [ inl on ↦ ground (arith, on) | inr off ↦ rw off refl ]

-- The calls for a mailbox whose request is complete.
abbrev pub calls_for : ℕ → Reg → List Event
calls_for k r =
    if r (8 * k + 1)
    then tx_done k ∷ []
    else if r (8 * k + 2) || r (8 * k + 3)
    then tx_fail k ∷ []
    else []

module _ (store : Reg → Reg → Reg) (h : IsOneClear of_mailboxes store) where
  box_isr-set :
      (k : ℕ) (r : Reg)
      → k < 3
      → r (8 * k) ≡ true
      → ((box_isr store k r).0 ≡ calls_for k r)
        × ((x : ℕ) → of_mailboxes x ≡ true → (box_isr store k r).1 x ≡ false)
  unfolding box_isr
  box_isr-set k r b c = elim (Bool-cases (r (8 * k + 1))) [
    | inl done ↦
        let s = store r (or_bits (λ i. i == 8 * k + 1) r) in
        let lost2 : s (8 * k + 2) ≡ false =
          store-or_bits of_mailboxes store (λ i. i == 8 * k + 1) r (8 * k + 2) h (ground arith) in
        let lost3 : s (8 * k + 3) ≡ false =
          store-or_bits of_mailboxes store (λ i. i == 8 * k + 1) r (8 * k + 3) h (ground arith) in
        rw (c, done, lost2, lost3)
          (refl, λ x p. store-or_bits of_mailboxes store (λ i. i == 8 * k) s x h p)
    | inr open_left ↦ elim (Bool-cases (r (8 * k + 2) || r (8 * k + 3))) [
      | inl failed ↦
          let s = store r (or_bits (λ i. (i == 8 * k + 2) || (i == 8 * k + 3)) r) in
          rw (c, open_left, failed)
            (refl, λ x p. store-or_bits of_mailboxes store (λ i. i == 8 * k) s x h p)
      | inr neither ↦
          rw (c, open_left, neither)
            (refl, λ x p. store-or_bits of_mailboxes store (λ i. i == 8 * k) r x h p)
    ]
  ]

  box_isr-unset : (k : ℕ) (r : Reg) → r (8 * k) ≡ false → box_isr store k r ≡ ([], r)
  unfolding box_isr
  box_isr-unset k r c = rw c refl

  tx_handler-run :
      (clear_tme : Reg → Reg) (intenr r r0 r1 r2 : Reg) (e0 e1 e2 : List Event)
      → box_isr store 0 r ≡ (e0, r0)
      → box_isr store 1 r0 ≡ (e1, r1)
      → box_isr store 2 r1 ≡ (e2, r2)
      → intenr 0 ≡ true
      → tx_handler store clear_tme intenr r ≡ (e0 ++ e1 ++ e2, clear_tme r2)
  unfolding tx_handler
  tx_handler-run clear_tme intenr r r0 r1 r2 e0 e1 e2 a b c on = rw (on, a, b, c) refl

  -- A complete request's calls, and the register, which no status bit is left in.
  box_isr-both :
      (k : ℕ) (r : Reg)
      → k < 3
      → r (8 * k) ≡ true
      → (s : Reg) × (box_isr store k r ≡ (calls_for k r, s))
        × ((x : ℕ) → of_mailboxes x ≡ true → s x ≡ false)
  box_isr-both k r b c =
      let (calls, gone) = box_isr-set k r b c in
      let s = (box_isr store k r).1 in (s, ap (λ (e : List Event). (e, s)) calls, gone)

  -- On a status register whose bits are cleared by writing 1 to them, with its interrupt enabled,
  -- the handler of sent frames reports the first mailbox alone whose request is complete, as
  -- sent, or as failed where arbitration was lost or an error stands, and leaves no request
  -- complete; the reports for the other mailboxes are lost.
  pub tx_handler-first :
      (clear_tme : Reg → Reg) (intenr r : Reg)
      → ((s : Reg) (x : ℕ) → s x ≡ false → clear_tme s x ≡ false)
      → intenr 0 ≡ true
      → let (calls, r') = tx_handler store clear_tme intenr r in
        (calls ≡ (
          if r 0
          then calls_for 0 r
          else if r 8
          then calls_for 1 r
          else if r 16
          then calls_for 2 r
          else []))
        × (r' 0 ≡ false)
        × (r' 8 ≡ false)
        × (r' 16 ≡ false)
  tx_handler-first clear_tme intenr r clear on = elim (Bool-cases (r 0)) [
    | inl first ↦
        let (s, here, gone) = box_isr-both 0 r (omega arith) first in
        let next = box_isr-unset 1 s (gone 8 refl) in
        let last = box_isr-unset 2 s (gone 16 refl) in
        let run = tx_handler-run clear_tme intenr r s s s (calls_for 0 r) [] [] here next last on in
        rw (run, first)
          (
            append-nil (calls_for 0 r ++ []) ∙ append-nil (calls_for 0 r),
            clear s 0 (gone 0 refl),
            clear s 8 (gone 8 refl),
            clear s 16 (gone 16 refl),
          )
    | inr none_first ↦
        let before = box_isr-unset 0 r none_first in
        elim (Bool-cases (r 8)) [
          | inl second ↦
              let (s, here, gone) = box_isr-both 1 r (omega arith) second in
              let last = box_isr-unset 2 s (gone 16 refl) in
              let run =
                tx_handler-run clear_tme intenr r r s s [] (calls_for 1 r) [] before here last on in
              rw (run, none_first, second)
                (
                  append-nil (calls_for 1 r),
                  clear s 0 (gone 0 refl),
                  clear s 8 (gone 8 refl),
                  clear s 16 (gone 16 refl),
                )
          | inr none_second ↦
              let between = box_isr-unset 1 r none_second in
              elim (Bool-cases (r 16)) [
                | inl third ↦
                    let (s, here, gone) = box_isr-both 2 r (omega arith) third in
                    let run =
                      tx_handler-run clear_tme intenr r r r s [] [] (calls_for 2 r) before between
                        here on in
                    rw (run, none_first, none_second, third)
                      (
                        refl,
                        clear s 0 (gone 0 refl),
                        clear s 8 (gone 8 refl),
                        clear s 16 (gone 16 refl),
                      )
                | inr none_third ↦
                    let last = box_isr-unset 2 r none_third in
                    let run =
                      tx_handler-run clear_tme intenr r r r r [] [] [] before between last on in
                    rw (run, none_first, none_second, none_third)
                      (refl, clear r 0 none_first, clear r 8 none_second, clear r 16 none_third)
              ]
        ]
  ]
