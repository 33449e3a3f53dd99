-- ===== src/Spi.antt =====
-- libraries/hal_drivers/drv_spi.c: the clock divider of a bus, the exchange of bytes with its
-- timeouts, and the transfer of a message in parts.
pub mod Transfer
pub mod Clock
pub mod Tests
use ch32v303rct6_rtt_mrs.Base.{
  ℕ, zero, suc, ◌+◌, ◌-◌, ◌*◌, ◌/◌, ◌%◌, ◌^◌, Bool, true, false, ◌&&◌, not, Option, none, some,
  List, [], ◌∷◌, ◌++◌, ltb, leb, ◌==◌, if◌then◌else◌, take, drop,
}

-- `RT_EOK` and `-RT_EIO`.
pub data Status : Type 0 where
  ok io_error : Status

-- `rt_spi_configuration`: the flags `RT_SPI_SLAVE`, `RT_SPI_3WIRE`, `RT_SPI_CPHA`, `RT_SPI_CPOL`,
-- `RT_SPI_MSB`, `RT_SPI_NO_CS` and `RT_SPI_CS_HIGH` of the mode, the width and the rate.
pub record Config : Type 0 where
  pub slave : Bool
  pub three_wire : Bool
  pub cpha : Bool
  pub cpol : Bool
  pub msb : Bool
  pub no_cs : Bool
  pub cs_high : Bool
  pub data_width : ℕ
  pub max_hz : ℕ

-- `SPI_InitTypeDef`; the prescaler is the divider.
pub record Init : Type 0 where
  pub is_master : Bool
  pub one_line_rx : Bool
  pub wide : Bool
  pub second_edge : Bool
  pub idle_high : Bool
  pub divider : ℕ
  pub msb_first : Bool

-- The divider of the bus's clock.
pub divider_of : ℕ → ℕ → ℕ
divider_of clock max_hz =
    if leb (clock / 2) max_hz
    then 2
    else if leb (clock / 4) max_hz
    then 4
    else if leb (clock / 8) max_hz
    then 8
    else if leb (clock / 16) max_hz
    then 16
    else if leb (clock / 32) max_hz
    then 32
    else if leb (clock / 64) max_hz
    then 64
    else if leb (clock / 128) max_hz
    then 128
    else 256

-- `ch32_spi_init` with the clock of `ch32_spi_clock_get`: what is handed to `SPI_Init`, or nothing
-- where the width is refused.
pub spi_init : ℕ → Config → Status × Option Init
unfolding divider_of
spi_init clock c =
    if leb c.data_width 16
    then (
      ok,
      some (record {
        is_master = not c.slave;
        one_line_rx = c.three_wire;
        wide = ltb 8 c.data_width;
        second_edge = c.cpha;
        idle_high = c.cpol;
        divider = divider_of clock c.max_hz;
        msb_first = c.msb;
      }),
    )
    else (io_error, none)

-- `ch32_spi_clock_get` of the buses 1 to 3, from PCLK1 and PCLK2.
abbrev pub clock_get : ℕ → ℕ → ℕ → ℕ
clock_get pclk1 pclk2 bus = if (bus == 2) then pclk1 else if (bus == 3) then pclk1 else pclk2

-- The pins of a bus that `ch32_spi_clock_and_io_init` sets up: the port, from 0 for GPIOA, and the
-- pins of the clock, the input and the output.
abbrev pub io_pins : ℕ → Option (ℕ × ℕ × ℕ × ℕ)
io_pins bus =
    if bus == 1
    then some (0, 5, 6, 7)
    else if bus == 2
    then some (1, 13, 14, 15)
    else if bus == 3
    then some (1, 3, 4, 5)
    else none

-- `rt_spi_message`: the bytes to send, if any, whether there is a place for the bytes received, the
-- length, and the two flags of the chip select.
pub record Message : Type 0 where
  pub send : Option (List ℕ)
  pub receives : Bool
  pub length : ℕ
  pub cs_take : Bool
  pub cs_release : Bool

-- The vendor's calls on a bus: the two flags are polled, the data register is written and read,
-- `SPI_Cmd` disables the bus, and the chip select is set to a level.
pub record Bus (S : Type 0) : Type 0 where
  pub txe : S → Bool × S
  pub rxne : S → Bool × S
  pub send_data : ℕ → S → S
  pub receive_data : S → ℕ × S
  pub disable : S → S
  pub select : Bool → S → S

module _ {S : Type 0} (bus : Bus S) where
  -- The polls of a flag that are left: whether it was seen.
  pub poll : (S → Bool × S) → ℕ → S → Bool × S
  poll flag zero s = (false, s)
  poll flag (suc left) s =
      let (seen, s') = flag s in let later = poll flag left s' in if seen then (true, s') else later

  -- `spix_readwritebyte`: each flag is polled 201 times; 0 where one does not come.
  pub readwritebyte : ℕ → S → ℕ × S
  unfolding poll
  readwritebyte byte s =
      let (room, s1) = poll bus.txe 201 s in
      let (full, s2) = poll bus.rxne 201 (bus.send_data byte s1) in
      if room then (if full then bus.receive_data s2 else (0, s2)) else (0, s1)

  -- `spi_transmitreceive` of the bytes of the part.
  pub transmitreceive : List ℕ → S → List ℕ × S
  unfolding readwritebyte
  transmitreceive [] s = ([], s)
  transmitreceive (b ∷ bs) s =
      let (r, s') = readwritebyte b s in let (rs, s'') = transmitreceive bs s' in (r ∷ rs, s'')

  -- `spi_transmit`.
  pub transmit : List ℕ → S → S
  unfolding readwritebyte
  transmit [] s = s
  transmit (b ∷ bs) s = transmit bs (readwritebyte b s).1

  -- `spi_receive`.
  pub receive : ℕ → S → List ℕ × S
  unfolding readwritebyte
  receive zero s = ([], s)
  receive (suc n) s =
      let (r, s') = readwritebyte 255 s in let (rs, s'') = receive n s' in (r ∷ rs, s'')

  -- One exchange of `spi_xfer`: `done` bytes are already sent, `n` are sent now.
  pub exchange : Bool → Message → ℕ → ℕ → S → List ℕ × S
  unfolding transmitreceive transmit receive
  exchange three_wire m done n s = elim m.send [
    | some bytes ↦
        let part = take n (drop done bytes) in
        if m.receives then transmitreceive part s else (
          [],
          if m.cs_release && three_wire then bus.disable (transmit part s) else transmit part s,
        )
    | none ↦ receive n s
  ]

  -- `while (message_length)`, over the rounds left, with the bytes left.
  pub xfer_loop : ℕ → Bool → Message → ℕ → S → Option (List ℕ × S)
  unfolding exchange
  xfer_loop zero three_wire m left s = if left == 0 then some ([], s) else none
  xfer_loop (suc fuel) three_wire m left s =
      let n = if ltb 65535 left then 65535 else left in
      let (bytes, s') = exchange three_wire m (m.length - left) n s in
      let rest = xfer_loop fuel three_wire m (left - n) s' in
      if left == 0
      then some ([], s)
      else elim rest [ none ↦ none | some (more, s'') ↦ some (bytes ++ more, s'') ]

  -- `spi_xfer`, with the rounds of its loop: the bytes received and the bus. It always reports the
  -- whole length.
  pub xfer : ℕ → Config → Message → S → Option (List ℕ × S)
  unfolding xfer_loop
  xfer fuel c m s =
      let taken = if m.cs_take && not c.no_cs then bus.select c.cs_high s else s in
      elim (xfer_loop fuel c.three_wire m m.length taken) [
        | none ↦ none
        | some (bytes, s') ↦
            some (bytes, if m.cs_release && not c.no_cs then bus.select (not c.cs_high) s' else s')
      ]
