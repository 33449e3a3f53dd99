-- ===== src/Can/Interrupts/Switch.antt =====
-- The commands of `_can_control` in libraries/hal_drivers/drv_can.c that switch interrupts on and off,
-- as the calls of the vendor's library that they make.
use ch32v303rct6_rtt_mrs.Base.{
  ℕ, Bool, true, false, ◌&&◌, ◌||◌, not, List, [], ◌∷◌, ◌++◌, ◌==◌, if◌then◌else◌, arith, ◌≡◌,
}
use ch32v303rct6_rtt_mrs.Can.{Base, can1, can2, other}
use ch32v303rct6_rtt_mrs.Can.Interrupts.{Reg}

-- `RT_DEVICE_FLAG_INT_RX`, `RT_DEVICE_FLAG_INT_TX`, `RT_DEVICE_CAN_INT_ERR`, and any other argument.
pub data Group : Type 0 where
  receiving sending errors unknown : Group

-- The four interrupt numbers of a controller.
pub data Line : Type 0 where
  tx_line rx0_line rx1_line sce_line : Line

-- `CAN_ClearITPendingBit` and `CAN_ITConfig`, by the bit of the interrupt in INTENR, and
-- `NVIC_SetPriority`, `NVIC_EnableIRQ` and `NVIC_DisableIRQ`.
pub data Call : Type 0 where
  clear_pending : ℕ → Call
  it_config : ℕ → Bool → Call
  set_priority : Line → ℕ → Call
  enable_irq disable_irq : Line → Call

-- The interrupts that a group names, in the order of the calls.
abbrev pub bits_of : Group → List ℕ
bits_of receiving = 1 ∷ 2 ∷ 3 ∷ 4 ∷ 5 ∷ 6 ∷ []
bits_of sending = 0 ∷ []
bits_of errors = 8 ∷ 9 ∷ 10 ∷ 11 ∷ 15 ∷ []
bits_of unknown = []

abbrev pub lines_of : Group → List Line
lines_of receiving = rx0_line ∷ rx1_line ∷ []
lines_of sending = tx_line ∷ []
lines_of errors = sce_line ∷ []
lines_of unknown = []

-- Only the two controllers of the chip have lines.
abbrev pub on_chip : Base → List Line → List Line
on_chip can1 lines = lines
on_chip can2 lines = lines
on_chip other lines = []

abbrev clear_all : List ℕ → List Call
clear_all [] = []
clear_all (b ∷ bs) = clear_pending b ∷ clear_all bs

abbrev config_all : Bool → List ℕ → List Call
config_all on [] = []
config_all on (b ∷ bs) = it_config b on ∷ config_all on bs

abbrev disable_all : List Line → List Call
disable_all [] = []
disable_all (l ∷ ls) = disable_irq l ∷ disable_all ls

abbrev enable_all : List Line → List Call
enable_all [] = []
enable_all (l ∷ ls) = set_priority l 1 ∷ enable_irq l ∷ enable_all ls

-- `RT_DEVICE_CTRL_CLR_INT`; the pending bits of errors alone are cleared.
pub clr_int : Base → Group → List Call
clr_int base errors =
    disable_all (on_chip base (lines_of errors))
    ++ clear_all (bits_of errors)
    ++ config_all false (bits_of errors)
clr_int base g = disable_all (on_chip base (lines_of g)) ++ config_all false (bits_of g)

-- `RT_DEVICE_CTRL_SET_INT`; the pending bits of errors are not cleared.
pub set_int : Base → Group → List Call
set_int base errors =
    config_all true (bits_of errors) ++ enable_all (on_chip base (lines_of errors))
set_int base g =
    clear_all (bits_of g) ++ config_all true (bits_of g) ++ enable_all (on_chip base (lines_of g))

-- What the calls make of INTENR.
pub intenr_after : List Call → Reg → Reg
intenr_after [] r i = r i
intenr_after (it_config b on ∷ cs) r i = intenr_after cs (λ j. if j == b then on else r j) i
intenr_after (clear_pending b ∷ cs) r i = intenr_after cs r i
intenr_after (set_priority l n ∷ cs) r i = intenr_after cs r i
intenr_after (enable_irq l ∷ cs) r i = intenr_after cs r i
intenr_after (disable_irq l ∷ cs) r i = intenr_after cs r i

abbrev pub is_bit_of : Group → ℕ → Bool
is_bit_of receiving i = (i == 1) || (i == 2) || (i == 3) || (i == 4) || (i == 5) || (i == 6)
is_bit_of sending i = i == 0
is_bit_of errors i = (i == 8) || (i == 9) || (i == 10) || (i == 11) || (i == 15)
is_bit_of unknown i = false

pub intenr_after-clr_int :
    (base : Base) (g : Group) (r : Reg) (i : ℕ)
    → (intenr_after (set_int base g) r i ≡ (is_bit_of g i || r i))
      × (intenr_after (clr_int base g) r i ≡ (not (is_bit_of g i) && r i))
unfolding intenr_after set_int clr_int
intenr_after-clr_int base g r i = (ground arith, ground arith)
