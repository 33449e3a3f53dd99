-- ===== src/Gpio.antt =====
-- libraries/hal_drivers/drv_gpio.c: the names of pins, and the table of the handlers of the sixteen
-- external interrupt lines.
pub mod Irq
pub mod Pins
pub mod Tests
use ch32v303rct6_rtt_mrs.Base.{
  ℕ, zero, suc, ◌+◌, ◌-◌, ◌*◌, ◌/◌, ◌%◌, ◌^◌, Bool, true, false, ◌&&◌, ◌||◌, not, Option, none,
  some, List, [], ◌∷◌, ltb, leb, ◌==◌, if◌then◌else◌, length, get_or, u32,
}

-- `PIN_NUM`, `PIN_PORT` and `PIN_NO`.
abbrev pub pin_num : ℕ → ℕ → ℕ
pin_num port num = port % 16 * 16 + num % 16

abbrev pub pin_port : ℕ → ℕ
pin_port pin = pin / 16 % 16

abbrev pub pin_no : ℕ → ℕ
pin_no pin = pin % 16

-- The loop over the digits of a name, in the 32 bits of an `int`.
pub pin_digits : List ℕ → ℕ → ℕ
pin_digits [] num = num
pin_digits (c ∷ cs) num = pin_digits cs (u32 (u32 (num * 10) + c + (2 ^ 32 - 48)))

abbrev drop_three : List ℕ → List ℕ
drop_three (a ∷ b ∷ c ∷ rest) = rest
drop_three _ = []

-- `ch32_pin_get` of the bytes of a name; `none` is `-RT_EINVAL`.
pub pin_get : List ℕ → Option ℕ
unfolding pin_digits
pin_get name =
    if ltb (length name) 4 || leb 6 (length name)
    then none
    else if not (get_or name 0 0 == 80) || not (get_or name 2 0 == 46)
    then none
    else if leb 65 (get_or name 1 0) && leb (get_or name 1 0) 90
    then some (pin_num (get_or name 1 0 - 65) (pin_digits (drop_three name) 0))
    else none

-- `bit2bitno`, with the rounds left.
pub bit_no : ℕ → ℕ → ℕ → Option ℕ
bit_no zero bit i = none
bit_no (suc left) bit i =
    let later = bit_no left bit (i + 1) in if 2 ^ i == bit then some i else later

-- The codes that the driver returns: 0, `-RT_EBUSY` and `-RT_ENOSYS`.
pub data Status : Type 0 where
  ok busy no_sys : Status

-- An entry of `pin_irq_hdr_tab`; `none` is the pin -1, and 0 the handler `RT_NULL`.
pub record Entry : Type 0 where
  pub pin : Option ℕ
  pub hdr : ℕ
  pub mode : ℕ
  pub args : ℕ

abbrev pub free : Entry
free = record { pin = none; hdr = 0; mode = 0; args = 0 }

abbrev pub Table : Type 0
Table = ℕ → Entry

abbrev pub is_pin : Option ℕ → ℕ → Bool
is_pin none pin = false
is_pin (some p) pin = p == pin

abbrev pub is_free : Option ℕ → Bool
is_free none = true
is_free (some p) = false

abbrev pub put_entry : Table → ℕ → Entry → Table
put_entry table line entry i = if i == line then entry else table i

module _ (port_max : ℕ) where
  -- The part of `ch32_pin_attach_irq` behind the line's number.
  pub attach_line : Option ℕ → ℕ → ℕ → ℕ → ℕ → Table → Status × Table
  attach_line none pin mode hdr args table = (no_sys, table)
  attach_line (some line) pin mode hdr args table =
      let e = table line in
      let entry : Entry = record { pin = some pin; hdr = hdr; mode = mode; args = args } in
      if leb 16 line
      then (no_sys, table)
      else if is_pin e.pin pin && ((e.hdr == hdr) && ((e.mode == mode) && (e.args == args)))
      then (ok, table)
      else if is_free e.pin
      then (ok, put_entry table line entry)
      else (busy, table)

  -- `ch32_pin_attach_irq`.
  pub attach_irq : ℕ → ℕ → ℕ → ℕ → Table → Status × Table
  unfolding attach_line bit_no
  attach_irq pin mode hdr args table =
      if leb port_max (pin_port pin)
      then (no_sys, table)
      else attach_line (bit_no 32 (2 ^ pin_no pin) 0) pin mode hdr args table

  -- `ch32_pin_dettach_irq`.
  pub detach_line : Option ℕ → Table → Status × Table
  detach_line none table = (no_sys, table)
  detach_line (some line) table =
      if leb 16 line
      then (no_sys, table)
      else if is_free (table line).pin
      then (ok, table)
      else (ok, put_entry table line free)

  pub detach_irq : ℕ → Table → Status × Table
  unfolding detach_line bit_no
  detach_irq pin table =
      if leb port_max (pin_port pin)
      then (no_sys, table)
      else detach_line (bit_no 32 (2 ^ pin_no pin) 0) table
