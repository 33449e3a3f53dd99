-- ===== src/Gpio/Irq.antt =====
-- libraries/hal_drivers/drv_gpio.c: the modes of pins, the enabling of their interrupts, and the
-- interrupt handlers that call what is attached.
pub mod Armed
use ch32v303rct6_rtt_mrs.Base.{
  ℕ, ◌+◌, ◌*◌, ◌/◌, ◌%◌, ◌^◌, Bool, true, false, ◌&&◌, ◌||◌, not, Option, none, some, List, [], ◌∷◌,
  ◌++◌, leb, ltb, ◌==◌, if◌then◌else◌,
}
use ch32v303rct6_rtt_mrs.Gpio.{pin_port, pin_no, bit_no, Status, ok, no_sys, Entry, Table, is_free}

-- The modes of `GPIO_Mode` that the driver uses; `ain` is the value 0.
pub data GpioMode : Type 0 where
  ain in_floating ipd ipu out_od out_pp : GpioMode

-- `EXTI_Trigger`; `unset` is the value 0 that the structure starts with.
pub data Trigger : Type 0 where
  unset rising falling rising_falling : Trigger

-- The mode that `ch32_pin_mode` configures for a mode of the pin device.
pub mode_of : ℕ → GpioMode
mode_of mode =
    if mode == 0
    then out_pp
    else if mode == 1
    then in_floating
    else if mode == 3
    then ipd
    else if mode == 2
    then ipu
    else if mode == 4
    then out_od
    else out_pp

-- The vendor's calls on a port and a pin of it, over the state of the ports.
module _ {P : Type 0} (port_max : ℕ) (gpio_init : ℕ → ℕ → GpioMode → P → P)
    (gpio_write_bit : ℕ → ℕ → ℕ → P → P) (gpio_read_input : ℕ → ℕ → P → ℕ) where
  -- `ch32_pin_mode`.
  pub pin_mode : ℕ → ℕ → P → P
  unfolding mode_of
  pin_mode pin mode s =
      if leb port_max (pin_port pin)
      then s
      else gpio_init (pin_port pin) (pin_no pin) (mode_of mode) s

  -- `ch32_pin_write`.
  pub pin_write : ℕ → ℕ → P → P
  pin_write pin value s =
      if ltb (pin_port pin) port_max then gpio_write_bit (pin_port pin) (pin_no pin) value s else s

  -- `ch32_pin_read`: low for a port that the chip does not have.
  pub pin_read : ℕ → P → ℕ
  pin_read pin s =
      if ltb (pin_port pin) port_max then gpio_read_input (pin_port pin) (pin_no pin) s else 0

-- The interrupt vectors of `pin_irq_map`.
pub data Vector : Type 0 where
  exti0 exti1 exti2 exti3 exti4 exti9_5 exti15_10 : Vector

pub vector_of : ℕ → Vector
vector_of line =
    if line == 0
    then exti0
    else if line == 1
    then exti1
    else if line == 2
    then exti2
    else if line == 3
    then exti3
    else if line == 4
    then exti4
    else if ltb line 10
    then exti9_5
    else exti15_10

abbrev pub same_vector : Vector → Vector → Bool
same_vector exti0 exti0 = true
same_vector exti1 exti1 = true
same_vector exti2 exti2 = true
same_vector exti3 exti3 = true
same_vector exti4 exti4 = true
same_vector exti9_5 exti9_5 = true
same_vector exti15_10 exti15_10 = true
same_vector _ _ = false

-- What `GPIO_Init`, `GPIO_EXTILineConfig` and `EXTI_Init` were last called with for a line.
pub record Line : Type 0 where
  pub port : ℕ
  pub mode : GpioMode
  pub trigger : Trigger

-- The table of handlers, the bits of `pin_irq_enable_mask`, the vectors that the NVIC has enabled,
-- and the set-up of the lines.
pub record Irqs : Type 0 where
  pub table : Table
  pub mask : ℕ → Bool
  pub nvic : Vector → Bool
  pub lines : ℕ → Option Line

abbrev pub put_bit : (ℕ → Bool) → ℕ → Bool → ℕ → Bool
put_bit mask line value i = if i == line then value else mask i

abbrev pub put_vector : (Vector → Bool) → Vector → Bool → Vector → Bool
put_vector nvic v value w = if same_vector w v then value else nvic w

abbrev pub put_line : (ℕ → Option Line) → ℕ → Line → ℕ → Option Line
put_line lines line l i = if i == line then some l else lines i

-- The switch over the mode of the attached entry.
abbrev pub line_of : ℕ → ℕ → Line
line_of port mode =
    if mode == 0
    then record { port = port; mode = ipd; trigger = rising }
    else if mode == 1
    then record { port = port; mode = ipu; trigger = falling }
    else if mode == 2
    then record { port = port; mode = in_floating; trigger = rising_falling }
    else record { port = port; mode = ain; trigger = unset }

abbrev pub any_9_5 : (ℕ → Bool) → Bool
any_9_5 m = m 5 || m 6 || m 7 || m 8 || m 9

abbrev pub any_15_10 : (ℕ → Bool) → Bool
any_15_10 m = m 10 || m 11 || m 12 || m 13 || m 14 || m 15

enable_line : Option ℕ → ℕ → Irqs → Status × Irqs
unfolding vector_of
enable_line none port s = (no_sys, s)
enable_line (some line) port s =
    if leb 16 line then (no_sys, s) else if is_free (s.table line).pin then (no_sys, s) else (
      ok,
      record s {
        mask = put_bit s.mask line true;
        nvic = put_vector s.nvic (vector_of line) true;
        lines = put_line s.lines line (line_of port (s.table line).mode);
      },
    )

-- The vector stays on while another line of its group is enabled.
abbrev pub still_used : ℕ → (ℕ → Bool) → Bool
still_used line mask =
    if leb 5 line && leb line 9
    then any_9_5 mask
    else if leb 10 line && leb line 15
    then any_15_10 mask
    else false

disable_line : Option ℕ → Irqs → Status × Irqs
unfolding vector_of
disable_line none s = (no_sys, s)
disable_line (some line) s =
    let mask' = put_bit s.mask line false in
    if leb 16 line
    then (no_sys, s)
    else if still_used line mask'
    then (ok, record s { mask = mask' })
    else (ok, record s { mask = mask'; nvic = put_vector s.nvic (vector_of line) false })

-- `ch32_pin_irq_enable`.
pub irq_enable : ℕ → ℕ → ℕ → Irqs → Status × Irqs
unfolding enable_line disable_line bit_no
irq_enable port_max pin enabled s =
    if leb port_max (pin_port pin)
    then (no_sys, s)
    else if enabled == 1
    then enable_line (bit_no 32 (2 ^ pin_no pin) 0) (pin_port pin) s
    else if enabled == 0
    then disable_line (bit_no 32 (2 ^ pin_no pin) 0) s
    else (no_sys, s)

-- A call of a handler, by its number and its argument.
pub record Call : Type 0 where
  pub hdr : ℕ
  pub args : ℕ

-- `pin_irq_hdr`.
abbrev pub call_hdr : Table → ℕ → List Call
call_hdr table line =
    if (table line).hdr == 0
    then []
    else record { hdr = (table line).hdr; args = (table line).args } ∷ []

abbrev pub one_line : ℕ → Table → (ℕ → Bool) → List Call × (ℕ → Bool)
one_line line table pending =
    if pending line then (call_hdr table line, put_bit pending line false) else ([], pending)

-- `EXTI0_IRQHandler` to `EXTI9_5_IRQHandler`, of the pending bits that `EXTI_GetITStatus` reads: the
-- calls in their order, and the bits after `EXTI_ClearITPendingBit`. The driver has no handler for
-- the last vector.
pub handler : Vector → Table → (ℕ → Bool) → Option (List Call × (ℕ → Bool))
handler exti0 table pending = some (one_line 0 table pending)
handler exti1 table pending = some (one_line 1 table pending)
handler exti2 table pending = some (one_line 2 table pending)
handler exti3 table pending = some (one_line 3 table pending)
handler exti4 table pending = some (one_line 4 table pending)
handler exti9_5 table pending = some (
    if any_9_5 pending
    then (
      call_hdr table 5
          ++ (call_hdr table 6 ++ (call_hdr table 7 ++ (call_hdr table 8 ++ call_hdr table 9))),
      λ i. if leb 5 i && leb i 9 then false else pending i,
    )
    else ([], pending))
handler exti15_10 table pending = none
