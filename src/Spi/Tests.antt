-- ===== src/Spi/Tests.antt =====
-- A bus whose output is wired to its input.
use ch32v303rct6_rtt_mrs.Base.{
  ℕ, true, false, ◌&&◌, not, some, [], ◌∷◌, if◌then◌else◌, arith, ◌≡◌, refl,
}
use ch32v303rct6_rtt_mrs.Spi.{Config, Message, Bus, transmitreceive, xfer}
use ch32v303rct6_rtt_mrs.Spi.Transfer.{xfer-transmitreceive}

abbrev wired : Bus ℕ
wired = record {
  txe = λ s. (true, s);
  rxne = λ s. (true, s);
  send_data = λ b s. b;
  receive_data = λ s. (s, s);
  disable = λ s. s;
  select = λ level s. s;
}

abbrev mode_zero : Config
mode_zero = record {
  slave = false;
  three_wire = false;
  cpha = false;
  cpol = false;
  msb = true;
  no_cs = false;
  cs_high = false;
  data_width = 8;
  max_hz = 1000000;
}

abbrev three_bytes : Message
three_bytes = record {
  send = some (1 ∷ 2 ∷ 3 ∷ []);
  receives = true;
  length = 3;
  cs_take = true;
  cs_release = true;
}

xfer-transmitreceive_example :
    let taken = if true && not false then wired.select false 0 else 0 in
    let r = transmitreceive wired (1 ∷ 2 ∷ 3 ∷ []) taken in
    xfer wired 2 mode_zero three_bytes 0
    ≡ some (r.0, if true && not false then wired.select (not false) r.1 else r.1)
xfer-transmitreceive_example =
    xfer-transmitreceive wired 2 mode_zero three_bytes (1 ∷ 2 ∷ 3 ∷ []) 0 refl refl refl
      (omega arith)
