-- ===== src/Flash/Driver.antt =====
-- The lock, read, write and erase functions at the head of bsp/src/bsp_flash.c.
pub mod Write
pub mod Erase
use ch32v303rct6_rtt_mrs.Base.{
  ℕ, zero, suc, ◌+◌, ◌-◌, ◌*◌, ◌/◌, ◌%◌, Bool, true, false, ltb, leb, ◌==◌, if◌then◌else◌,
  half_word,
}
use ch32v303rct6_rtt_mrs.Flash.Hal.{Mem, Chip, FlashHal}
use ch32v303rct6_rtt_mrs.Flash.Layout.{Record, page_size, pages, start_addr}

-- A pointer into a buffer: the byte at each offset.
abbrev pub Buf : Type 0
Buf = ℕ → ℕ

-- `*(rt_uint16_t *)addr`.
abbrev pub load16 : Mem → ℕ → ℕ
load16 m addr = half_word (m addr) (m (addr + 1))

interrupt_disable : Chip → Chip
interrupt_disable c = record c { interrupt_value = c.interrupts; interrupts = 0 }

interrupt_enable : Chip → Chip
interrupt_enable c = record c { interrupts = c.interrupt_value }

-- `Flash_Read`: the buffer afterwards.
unfoldable pub read : Mem → ℕ → Buf → ℕ → Buf
read m addr buf len i = if ltb i len then m (addr + i) else buf i

-- The test after an erase: all half words of the page read 0xE339.
pub all_erased : ℕ → Mem → ℕ → ℕ → Bool
all_erased zero m addr i = true
all_erased (suc left) m addr i =
    if load16 m (addr + 2 * i) == 0xE339 then all_erased left m addr (i + 1) else false

abbrev pub clamp_page : Record → ℕ → ℕ
clamp_page record_type page =
    if leb page (pages record_type - 1) then page else pages record_type - 1

module _ (hal : FlashHal) where
  unlock_flash : Chip → Chip
  unfolding interrupt_disable
  unlock_flash c = hal.unlock (interrupt_disable c)

  lock_flash : Chip → Chip
  unfolding interrupt_enable
  lock_flash c = interrupt_enable (hal.lock c)

  fast_unlock_flash : Chip → Chip
  unfolding interrupt_disable
  fast_unlock_flash c = hal.unlock_fast (interrupt_disable c)

  fast_lock_flash : Chip → Chip
  unfolding interrupt_enable
  fast_lock_flash c = interrupt_enable (hal.lock_fast c)

  -- The loop of `Flash_Write`, with the half words left; a half word that does not read back
  -- ends it.
  write_loop : ℕ → ℕ → Buf → ℕ → Chip → ℕ × Chip
  unfolding lock_flash
  write_loop zero addr buf i c = (i, lock_flash c)
  write_loop (suc left) addr buf i c =
      let value = half_word (buf i) (buf (i + 1)) in
      let c' = record c { mem = hal.program_half_word c.unlocked (addr + i) value c.mem } in
      let rest = write_loop left addr buf (i + 2) c' in
      if load16 c'.mem (addr + i) == value then rest else (0, lock_flash c')

  -- `Flash_Write`: the length written, 0 on an error, and the chip afterwards.
  pub write : ℕ → Buf → ℕ → Chip → ℕ × Chip
  unfolding write_loop unlock_flash
  write addr buf len c =
      if addr % 2 == 0 then write_loop ((len + 1) / 2) addr buf 0 (unlock_flash c) else (0, c)

  -- The three calls that erase a page.
  pub erase_at : ℕ → Chip → Chip
  unfolding fast_unlock_flash fast_lock_flash
  erase_at addr c =
      let ready = fast_unlock_flash c in
      fast_lock_flash
        (record ready { mem = hal.erase_page_fast ready.fast_unlocked addr ready.mem })

  -- `Flash_ErasePage_Records`: whether it is `READY`, and the chip afterwards.
  pub erase_page_records : Record → ℕ → Chip → Bool × Chip
  erase_page_records record_type page c =
      let addr = start_addr record_type + page_size * clamp_page record_type page in
      let c' = erase_at addr c in (all_erased 128 c'.mem addr 0, c')
