-- ===== src/Spi/Clock.antt =====
-- The clock of a bus against the rate that is asked for.
use ch32v303rct6_rtt_mrs.Base.{ℕ, ◌/◌, ◌≤◌, ◌<◌, ◌⊎◌, arith, ◌≡◌}
use ch32v303rct6_rtt_mrs.Spi.{divider_of}

pub divider_of_lem :
    (clock max_hz : ℕ)
    → let d = divider_of clock max_hz in
      ((clock / d ≤ max_hz) ⊎ ((d ≡ 256) × (max_hz < clock / 128)))
      × ((d ≡ 2) ⊎ (max_hz < clock / (d / 2)))
unfolding divider_of
divider_of_lem clock max_hz = ground arith
