-- ===== src/Flash/Hal.antt =====
-- The flash controller as bsp/src/bsp_flash.c sees it: the memory that it reads, the two locks,
-- the interrupt level, and the calls of the vendor's driver (libraries/hal_libraries), which is
-- a parameter with its documented behaviour.
use ch32v303rct6_rtt_mrs.Base.{
  ℕ, ◌+◌, ◌%◌, ◌/◌, ◌^◌, ◌≤◌, ◌<◌, Bool, true, false, ◌==◌, if◌then◌else◌, ◌≡◌, ◌≢◌, ◌⊎◌,
}

-- Bytes by address.
abbrev pub Mem : Type 0
Mem = ℕ → ℕ

-- `interrupts` is the level that `rt_hw_interrupt_disable` clears and returns, and
-- `interrupt_value` is the file's static variable.
pub record Chip : Type 0 where
  pub mem : Mem
  pub unlocked : Bool
  pub fast_unlocked : Bool
  pub interrupts : ℕ
  pub interrupt_value : ℕ

-- An erased half word reads 0xE339.
abbrev pub erased_byte : ℕ → ℕ
erased_byte addr = if addr % 2 == 0 then 0x39 else 0xE3

-- The laws of erasing and programming are of an unlocked controller: the flag comes first. Locking
-- the fast mode leaves the other lock as it is.
pub record FlashHal : Type 0 where
  pub unlock : Chip → Chip
  pub lock : Chip → Chip
  pub unlock_fast : Chip → Chip
  pub lock_fast : Chip → Chip
  pub erase_page_fast : Bool → ℕ → Mem → Mem
  pub program_half_word : Bool → ℕ → ℕ → Mem → Mem
  pub unlock_lem : (c : Chip) → unlock c ≡ record c { unlocked = true }
  pub lock_lem : (c : Chip) → lock c ≡ record c { unlocked = false }
  pub unlock_fast_lem :
      (c : Chip) → unlock_fast c ≡ record c { unlocked = true; fast_unlocked = true }
  pub lock_fast_lem : (c : Chip) → lock_fast c ≡ record c { fast_unlocked = false }
  pub erased :
      (page addr : ℕ) (m : Mem)
      → page % 256 ≡ 0
      → page ≤ addr
      → addr < page + 256
      → erase_page_fast true page m addr ≡ erased_byte addr
  pub erase_frame :
      (page addr : ℕ) (m : Mem)
      → page % 256 ≡ 0
      → (addr < page) ⊎ (page + 256 ≤ addr)
      → erase_page_fast true page m addr ≡ m addr
  pub programmed :
      (addr value : ℕ) (m : Mem)
      → addr % 2 ≡ 0
      → value < 2 ^ 16
      → m addr ≡ 0x39
      → m (addr + 1) ≡ 0xE3
      → (program_half_word true addr value m addr ≡ value % 256)
        × (program_half_word true addr value m (addr + 1) ≡ value / 256)
  pub program_frame :
      (addr value a : ℕ) (m : Mem)
      → a ≢ addr
      → a ≢ addr + 1
      → program_half_word true addr value m a ≡ m a
