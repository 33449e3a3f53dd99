-- ===== src/Softspi/Lines.antt =====
-- What is set on a line is read from it, and the other lines stay.
use ch32v303rct6_rtt_mrs.Base.{
  sym, ℕ, ◌<◌, ◌≢◌, true, false, ◌==◌, if◌then◌else◌, arith, ◌≡◌, refl, ◌∙◌, Bool-cases, inl, inr,
}
use ch32v303rct6_rtt_mrs.Softi2c.{Pins}
use ch32v303rct6_rtt_mrs.Softspi.{SpiConfig, tog_sclk, get_sclk, get_mosi, get_miso}

-- An output that reads as 0 or 1, as it was written, and whose writes leave the other pins.
pub record IsLine {S : Type 0} (pins : Pins S) (p : ℕ) : Type 0 where
  pub level : (s : S) → pins.pin_read p s < 2
  pub same : (v : ℕ) (s : S) → v < 2 → pins.pin_read p (pins.pin_write p v s) ≡ v
  pub others :
      (q v : ℕ) (s : S) → p ≢ q → pins.pin_read q (pins.pin_write p v s) ≡ pins.pin_read q s

module _ {S : Type 0} (pins : Pins S) (cfg : SpiConfig) (lines : IsLine pins cfg.sck)
    (apart : (cfg.sck ≢ cfg.mosi) × (cfg.sck ≢ cfg.miso)) where
  pub tog_sclk-tog_sclk :
      (s : S)
      → let s' = tog_sclk pins cfg s in
        (get_sclk pins cfg s' ≡ (if get_sclk pins cfg s == 0 then 1 else 0))
        × (get_sclk pins cfg (tog_sclk pins cfg s') ≡ get_sclk pins cfg s)
        × (get_mosi pins cfg s' ≡ get_mosi pins cfg s)
        × (get_miso pins cfg s' ≡ get_miso pins cfg s)
  unfolding tog_sclk get_sclk get_mosi get_miso
  tog_sclk-tog_sclk s = elim (Bool-cases (pins.pin_read cfg.sck s == 1)) [
    | inl high ↦
        let low = lines.same 0 s (omega arith) in
        let up = lines.same 1 (pins.pin_write cfg.sck 0 s) (omega arith) in
        let one : pins.pin_read cfg.sck s ≡ 1 = ground arith in
        let none_low : (pins.pin_read cfg.sck s == 0) ≡ false = ground (arith, one) in
        rw (high, none_low, low)
          (refl, up ∙ sym one, lines.others cfg.mosi 0 s apart.0, lines.others cfg.miso 0 s apart.1)
    | inr low ↦
        let high = lines.same 1 s (omega arith) in
        let down = lines.same 0 (pins.pin_write cfg.sck 1 s) (omega arith) in
        let zero_now : pins.pin_read cfg.sck s ≡ 0 = ground (arith, lines.level s) in
        let none_low : (pins.pin_read cfg.sck s == 0) ≡ true = ground (arith, zero_now) in
        rw (low, none_low, high)
          (
            refl,
            down ∙ sym zero_now,
            lines.others cfg.mosi 1 s apart.0,
            lines.others cfg.miso 1 s apart.1,
          )
  ]
