-- ===== src/Softi2c/Unlock.antt =====
-- A device that holds the data line is clocked free.
use ch32v303rct6_rtt_mrs.Base.{
  ℕ, zero, suc, ◌-◌, ◌≤◌, ◌≢◌, false, ◌∙◌, Bool, true, if◌then◌else◌, ◌==◌, arith, ◌≡◌, refl,
  Bool-cases, inl, inr,
}
use ch32v303rct6_rtt_mrs.Softi2c.{ok, Pins, I2cConfig, pulse, pulses, bus_unlock}

module _ {S : Type 0} (pins : Pins S) (cfg : I2cConfig) where
  -- A device with `held` bits left, and whether the clock line is `high`: a level written to the pin
  -- of the clock shows on the line, and the fall of the line shifts a bit out; a wait changes
  -- nothing, and with no bits left the data line is high.
  pub record IsHeld (held : S → ℕ) (high : S → Bool) : Type 0 where
    pub rises : (s : S) → high (pins.pin_write cfg.scl 1 s) ≡ true
    pub rests : (s : S) → held (pins.pin_write cfg.scl 1 s) ≡ held s
    pub falls : (s : S) → high (pins.pin_write cfg.scl 0 s) ≡ false
    pub shifts :
        (s : S) → held (pins.pin_write cfg.scl 0 s) ≡ (if high s then held s - 1 else held s)
    pub waits : (us : ℕ) (s : S) → held (pins.udelay us s) ≡ held s
    pub stays : (us : ℕ) (s : S) → high (pins.udelay us s) ≡ high s
    pub free : (s : S) → held s ≡ 0 → pins.pin_read cfg.sda s ≢ 0

  module _ (held : S → ℕ) (high : S → Bool) (h : IsHeld held high) where
    -- A pulse shifts one bit out and leaves the clock line low.
    pulse-held :
        (s : S) → (held (pulse pins cfg s) ≡ held s - 1) × (high (pulse pins cfg s) ≡ false)
    unfolding pulse
    pulse-held s =
        let up = pins.pin_write cfg.scl 1 s in
        let still = pins.udelay 100 up in
        let down = pins.pin_write cfg.scl 0 still in
        let was_high : high still ≡ true = h.stays 100 up ∙ h.rises s in
        let same : held still ≡ held s = h.waits 100 up ∙ h.rests s in
        (
          h.waits 100 down ∙ h.shifts still ∙ rw (was_high, same) refl,
          h.stays 100 down ∙ h.falls still,
        )

    pulses-held : (n : ℕ) (s : S) → held (pulses pins cfg n s) ≡ held s - n
    unfolding pulses
    pulses-held zero s = omega arith
    pulses-held (suc n) s = omega (arith, pulses-held n (pulse pins cfg s), (pulse-held s).0)

    pulses-low : (n : ℕ) (s : S) → high (pulses pins cfg (suc n) s) ≡ false
    unfolding pulses
    pulses-low zero s = (pulse-held s).1
    pulses-low (suc n) s = pulses-low n (pulse pins cfg s)

    -- On a bus where the level written to the clock pin shows on the clock line, each fall of
    -- that line takes one bit from the device that holds the data line, waits change nothing, and
    -- the data line is high when no bits are left: with at most nine bits left,
    -- ch32_i2c_bus_unlock answers RT_EOK with the data line high. If the data line was low, no
    -- bits are left and the clock line is left low; otherwise both stay as they were.
    pub bus_unlock-IsHeld :
        (s : S)
        → held s ≤ 9
        → let r = bus_unlock pins cfg s in
          (r.0 ≡ ok)
          × (pins.pin_read cfg.sda r.1 ≢ 0)
          × (held r.1 ≡ (if pins.pin_read cfg.sda s == 0 then 0 else held s))
          × (high r.1 ≡ (if pins.pin_read cfg.sda s == 0 then false else high s))
    unfolding bus_unlock
    bus_unlock-IsHeld s few = elim (Bool-cases (pins.pin_read cfg.sda s == 0)) [
      | inl low ↦
          let left = pulses-held 9 s in
          let none_left : held (pulses pins cfg 9 s) ≡ 0 = omega (arith, left) in
          let up = h.free (pulses pins cfg 9 s) none_left in
          let freed : (pins.pin_read cfg.sda (pulses pins cfg 9 s) == 0) ≡ false =
            ground (arith, up) in
          rw (low, freed) (refl, up, none_left, pulses-low 8 s)
      | inr free ↦
          let up : pins.pin_read cfg.sda s ≢ 0 = ground (arith, free) in
          rw (free, free) (refl, up, refl, refl)
    ]
