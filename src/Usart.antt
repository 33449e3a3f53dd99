-- ===== src/Usart.antt =====
-- libraries/hal_drivers/drv_usart.c: the pins and settings of a serial port, its interrupt, and the
-- single bytes. The registers are a parameter.
pub mod Table
pub mod Line
pub mod Tests
use ch32v303rct6_rtt_mrs.Base.{
  ℕ, zero, suc, ◌%◌, Bool, true, false, Option, none, some, List, [], ◌∷◌, ◌==◌, if◌then◌else◌,
  ◌>>=◌,
}

-- `struct serial_configure`, as far as the driver reads it.
pub record Config : Type 0 where
  pub baud_rate : ℕ
  pub data_bits : ℕ
  pub stop_bits : ℕ
  pub parity : ℕ

-- `USART_InitTypeDef`, with the vendor's values; neither flow control nor the two directions vary.
pub record Init : Type 0 where
  pub baud_rate : ℕ
  pub word_length : ℕ
  pub stop_bits : ℕ
  pub parity : ℕ

-- The three switches of `ch32_configure`.
abbrev pub word_length_of : ℕ → ℕ
word_length_of bits = if bits == 8 then 0 else if bits == 9 then 0x1000 else 0

abbrev pub stop_bits_of : ℕ → ℕ
stop_bits_of bits = if bits == 0 then 0 else if bits == 1 then 0x2000 else 0

abbrev pub parity_of : ℕ → ℕ
parity_of p = if p == 0 then 0 else if p == 1 then 0x600 else if p == 2 then 0x400 else 0

pub init_of : Config → Init
init_of cfg = record {
  baud_rate = cfg.baud_rate;
  word_length = word_length_of cfg.data_bits;
  stop_bits = stop_bits_of cfg.stop_bits;
  parity = parity_of cfg.parity;
}

-- `struct ch32_uart_hw_config`, with ports by their number, and pins by their bit.
pub record HwConfig : Type 0 where
  pub uart_clock : ℕ
  pub gpio_clock : ℕ
  pub tx_port : ℕ
  pub tx_pin : ℕ
  pub rx_port : ℕ
  pub rx_pin : ℕ
  pub remap : ℕ

abbrev pub apb2_afio : ℕ
apb2_afio = 1

abbrev pub speed_50mhz : ℕ
speed_50mhz = 3

abbrev pub mode_af_pp : ℕ
mode_af_pp = 0x18

abbrev pub mode_in_floating : ℕ
mode_in_floating = 0x04

-- `RCC_APB2PeriphClockCmd` and `RCC_APB1PeriphClockCmd` with ENABLE, `GPIO_PinRemapConfig`,
-- `GPIO_Init` of a port and a pin with its speed and mode,
-- `USART_Init`, `USART_Cmd`, `USART_GetFlagStatus` of TC and RXNE, the data register, the interrupt of
-- RXNE at the port and at the processor, `USART_GetITStatus`, and `USART_ClearITPendingBit`.
pub record Port (S : Type 0) : Type 0 where
  pub apb2_clock : ℕ → S → S
  pub apb1_clock : ℕ → S → S
  pub pin_remap : ℕ → S → S
  pub gpio_init : ℕ → ℕ → ℕ → ℕ → S → S
  pub init : Init → S → S
  pub enable : Bool → S → S
  pub tc : S → Bool × S
  pub rxne : S → Bool
  pub write : ℕ → S → S
  pub read : S → ℕ × S
  pub it_config : Bool → S → S
  pub enable_irq : Bool → S → S
  pub it_status : S → Bool
  pub clear_pending : S → S

-- `RT_DEVICE_CTRL_CLR_INT`, `RT_DEVICE_CTRL_SET_INT`, and the other commands.
pub data Cmd : Type 0 where
  clr_int set_int other : Cmd

module _ {S : Type 0} (port : Port S) where
  -- The clocks and the pins in `ch32_configure`.
  pub route : Bool → HwConfig → S → S
  route is_usart1 hw s =
      let s1 = port.apb2_clock hw.gpio_clock s in
      let s2 =
        if is_usart1 then port.apb2_clock hw.uart_clock s1 else port.apb1_clock hw.uart_clock s1 in
      let s3 =
        if hw.remap == 0 then s2 else port.pin_remap hw.remap (port.apb2_clock apb2_afio s2) in
      let s4 = port.gpio_init hw.tx_port hw.tx_pin speed_50mhz mode_af_pp s3 in
      port.gpio_init hw.rx_port hw.rx_pin speed_50mhz mode_in_floating s4

  -- `ch32_configure`.
  pub configure : Bool → HwConfig → Config → S → S
  unfolding init_of route
  configure is_usart1 hw cfg s = port.enable true (port.init (init_of cfg) (route is_usart1 hw s))

  -- `ch32_control`.
  pub control : Cmd → S → S
  control clr_int s = port.it_config false (port.enable_irq false s)
  control set_int s = port.it_config true (port.enable_irq true s)
  control other s = s

  -- The wait for TC, over the polls allowed.
  pub wait_tc : ℕ → S → Option S
  wait_tc zero s = none
  wait_tc (suc polls) s =
      let (done, s') = port.tc s in let later = wait_tc polls s' in if done then some s' else later

  -- `ch32_putc`; it returns 1.
  pub putc : ℕ → ℕ → S → Option (ℕ × S)
  unfolding wait_tc
  putc polls c s = wait_tc polls s >>= λ s'. some (1, port.write c s')

  -- `ch32_getc`; `none` is -1.
  pub getc : S → Option ℕ × S
  getc s = if port.rxne s then (some ((port.read s).0 % 256), (port.read s).1) else (none, s)

  -- `uart_isr`, with what `rt_hw_serial_isr` makes of the state.
  pub isr : (S → S) → S → S
  isr serial_isr s = if port.it_status s then port.clear_pending (serial_isr s) else s

  -- `ch32_putc` for one byte after the other.
  pub put_all : ℕ → List ℕ → S → Option S
  unfolding putc
  put_all polls [] s = some s
  put_all polls (c ∷ cs) s = putc polls c s >>= λ r. put_all polls cs r.1
