-- ===== src/Usart/Table.antt =====
-- The table of ports of libraries/hal_drivers/drv_usart.c, with all eight of them switched on.
use ch32v303rct6_rtt_mrs.Base.{
  if◌then◌else◌, arith, ℕ, ◌+◌, ◌*◌, ◌/◌, ◌%◌, ◌^◌, Bool, true, false, ◌==◌, ◌≡◌, ◌≢◌, refl, ap,
  sym, ◌∙◌,
}
use ch32v303rct6_rtt_mrs.Usart.{HwConfig}

pub data Uart : Type 0 where
  uart1 uart2 uart3 uart4 uart5 uart6 uart7 uart8 : Uart

-- `uart_hw_config`.
pub hw_config : Uart → HwConfig
hw_config uart1 = record {
  uart_clock = 0x4000;
  gpio_clock = 0x4;
  tx_port = 0;
  tx_pin = 2 ^ 9;
  rx_port = 0;
  rx_pin = 2 ^ 10;
  remap = 0;
}
hw_config uart2 = record {
  uart_clock = 0x20000;
  gpio_clock = 0x4;
  tx_port = 0;
  tx_pin = 2 ^ 2;
  rx_port = 0;
  rx_pin = 2 ^ 3;
  remap = 0;
}
hw_config uart3 = record {
  uart_clock = 0x40000;
  gpio_clock = 0x8;
  tx_port = 1;
  tx_pin = 2 ^ 10;
  rx_port = 1;
  rx_pin = 2 ^ 11;
  remap = 0;
}
hw_config uart4 = record {
  uart_clock = 0x80000;
  gpio_clock = 0x10;
  tx_port = 2;
  tx_pin = 2 ^ 10;
  rx_port = 2;
  rx_pin = 2 ^ 11;
  remap = 0;
}
hw_config uart5 = record {
  uart_clock = 0x100000;
  gpio_clock = 0x30;
  tx_port = 2;
  tx_pin = 2 ^ 12;
  rx_port = 3;
  rx_pin = 2 ^ 2;
  remap = 0;
}
hw_config uart6 = record {
  uart_clock = 0x40;
  gpio_clock = 0x10;
  tx_port = 2;
  tx_pin = 2 ^ 0;
  rx_port = 2;
  rx_pin = 2 ^ 1;
  remap = 0;
}
hw_config uart7 = record {
  uart_clock = 0x80;
  gpio_clock = 0x10;
  tx_port = 2;
  tx_pin = 2 ^ 2;
  rx_port = 2;
  rx_pin = 2 ^ 3;
  remap = 0;
}
hw_config uart8 = record {
  uart_clock = 0x100;
  gpio_clock = 0x10;
  tx_port = 2;
  tx_pin = 2 ^ 4;
  rx_port = 2;
  rx_pin = 2 ^ 5;
  remap = 0;
}

-- A pin of a port as one number.
abbrev pub pin_code : ℕ → ℕ → ℕ
pin_code port pin = port * 65536 + pin

abbrev pub tx_code : Uart → ℕ
tx_code u = pin_code (hw_config u).tx_port (hw_config u).tx_pin

abbrev pub rx_code : Uart → ℕ
rx_code u = pin_code (hw_config u).rx_port (hw_config u).rx_pin

-- The bit of a port's clock is two above the port's number.
abbrev pub Clocked : Uart → ℕ → Type 0
Clocked u port = (hw_config u).gpio_clock / 2 ^ (port + 2) % 2 ≡ 1

-- The clocks of both ports are switched on, and a port does not send on the pin it receives on.
pub hw_config-Clocked :
    (u : Uart)
    → Clocked u (hw_config u).tx_port × Clocked u (hw_config u).rx_port × (tx_code u ≢ rx_code u)
unfolding hw_config
hw_config-Clocked uart1 = (refl, refl, λ e. omega arith)
hw_config-Clocked uart2 = (refl, refl, λ e. omega arith)
hw_config-Clocked uart3 = (refl, refl, λ e. omega arith)
hw_config-Clocked uart4 = (refl, refl, λ e. omega arith)
hw_config-Clocked uart5 = (refl, refl, λ e. omega arith)
hw_config-Clocked uart6 = (refl, refl, λ e. omega arith)
hw_config-Clocked uart7 = (refl, refl, λ e. omega arith)
hw_config-Clocked uart8 = (refl, refl, λ e. omega arith)

-- The port that a pin belongs to, and whether it sends on it.
abbrev owner : ℕ → Uart × Bool
owner code =
    if code == pin_code 0 (2 ^ 9)
    then (uart1, true)
    else if code == pin_code 0 (2 ^ 10)
    then (uart1, false)
    else if code == pin_code 0 (2 ^ 2)
    then (uart2, true)
    else if code == pin_code 0 (2 ^ 3)
    then (uart2, false)
    else if code == pin_code 1 (2 ^ 10)
    then (uart3, true)
    else if code == pin_code 1 (2 ^ 11)
    then (uart3, false)
    else if code == pin_code 2 (2 ^ 10)
    then (uart4, true)
    else if code == pin_code 2 (2 ^ 11)
    then (uart4, false)
    else if code == pin_code 2 (2 ^ 12)
    then (uart5, true)
    else if code == pin_code 3 (2 ^ 2)
    then (uart5, false)
    else if code == pin_code 2 (2 ^ 0)
    then (uart6, true)
    else if code == pin_code 2 (2 ^ 1)
    then (uart6, false)
    else if code == pin_code 2 (2 ^ 2)
    then (uart7, true)
    else if code == pin_code 2 (2 ^ 3)
    then (uart7, false)
    else if code == pin_code 2 (2 ^ 4)
    then (uart8, true)
    else if code == pin_code 2 (2 ^ 5)
    then (uart8, false)
    else (uart1, false)

owner-tx_code : (u : Uart) → owner (tx_code u) ≡ (u, true)
unfolding hw_config
owner-tx_code uart1 = refl
owner-tx_code uart2 = refl
owner-tx_code uart3 = refl
owner-tx_code uart4 = refl
owner-tx_code uart5 = refl
owner-tx_code uart6 = refl
owner-tx_code uart7 = refl
owner-tx_code uart8 = refl

owner-rx_code : (u : Uart) → owner (rx_code u) ≡ (u, false)
unfolding hw_config
owner-rx_code uart1 = refl
owner-rx_code uart2 = refl
owner-rx_code uart3 = refl
owner-rx_code uart4 = refl
owner-rx_code uart5 = refl
owner-rx_code uart6 = refl
owner-rx_code uart7 = refl
owner-rx_code uart8 = refl

-- No two ports share a pin.
pub hw_config_apart :
    (u v : Uart)
    → u ≢ v
    → (tx_code u ≢ tx_code v) × (rx_code u ≢ rx_code v) × (tx_code u ≢ rx_code v)
hw_config_apart u v n =
    let tx = owner-tx_code u in
    let rx = owner-rx_code u in
    let tx' = owner-tx_code v in
    let rx' = owner-rx_code v in
    (
      λ e. n (ap (λ o. o.0) (sym tx ∙ ap owner e ∙ tx')),
      λ e. n (ap (λ o. o.0) (sym rx ∙ ap owner e ∙ rx')),
      λ e. n (ap (λ o. o.0) (sym tx ∙ ap owner e ∙ rx')),
    )
