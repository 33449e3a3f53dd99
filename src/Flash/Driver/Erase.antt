-- ===== src/Flash/Driver/Erase.antt =====
-- `Flash_ErasePage_Records` and the three calls that it shares with `Flash_ErasePage_ConfigInfo`.
use ch32v303rct6_rtt_mrs.Base.{
  ℕ, zero, suc, ◌+◌, ◌*◌, ◌%◌, ◌≤◌, ◌<◌, true, false, arith, ◌≡◌, ◌⊎◌, refl,
}
use ch32v303rct6_rtt_mrs.Flash.Hal.{Mem, Chip, FlashHal}
use ch32v303rct6_rtt_mrs.Flash.Layout.{Record, page_size, pages, start_addr}
use ch32v303rct6_rtt_mrs.Flash.Driver.{all_erased, clamp_page, erase_at, erase_page_records}
use ch32v303rct6_rtt_mrs.Flash.Driver.Write.{IsErased}

-- The page at `addr` is erased, no other byte has changed, and the interrupt level is back. The
-- fast mode is locked again, but the controller is left open to `FLASH_ProgramHalfWord`.
pub record ErasedPage (addr : ℕ) (c c' : Chip) : Type 0 where
  pub blank : IsErased c'.mem addr (addr + page_size)
  pub frame : (a : ℕ) → (a < addr) ⊎ (addr + page_size ≤ a) → c'.mem a ≡ c.mem a
  pub fast_locked : c'.fast_unlocked ≡ false
  pub left_open : c'.unlocked ≡ true
  pub restored : c'.interrupts ≡ c.interrupts

all_erased_lem :
    (left i addr : ℕ) (m : Mem)
    → addr % 2 ≡ 0
    → IsErased m (addr + 2 * i) (addr + 2 * (i + left))
    → all_erased left m addr i ≡ true
unfolding all_erased
all_erased_lem zero i addr m even blank = refl
all_erased_lem (suc left) i addr m even blank = ground (
  arith,
  blank (addr + 2 * i),
  blank (addr + 2 * i + 1),
  all_erased_lem left (i + 1) addr m even (λ a p q. blank a (omega arith) (omega arith)),
)

pub start_addr-aligned : (r : Record) → start_addr r % 256 ≡ 0
unfolding start_addr
start_addr-aligned r = ground arith

module _ (hal : FlashHal) where
  pub erase_at-ErasedPage :
      (addr : ℕ) (c : Chip) → addr % 256 ≡ 0 → ErasedPage addr c (erase_at hal addr c)
  unfolding erase_at
  erase_at-ErasedPage addr c aligned =
      rw (hal.unlock_fast_lem, hal.lock_fast_lem)
        (record {
          blank = λ a p q. hal.erased addr a c.mem aligned p q;
          frame = λ a p. hal.erase_frame addr a c.mem aligned p;
          fast_locked = refl;
          left_open = refl;
          restored = refl;
        })

  -- Flash_ErasePage_Records of a page of the type answers READY and erases that page alone; the
  -- interrupt level is back and the fast mode locked, but the controller is left unlocked for
  -- programming.
  pub erase_page_records-ErasedPage :
      (r : Record) (page : ℕ) (c : Chip)
      → page < pages r
      → ((erase_page_records hal r page c).0 ≡ true)
        × ErasedPage (start_addr r + page_size * page) c (erase_page_records hal r page c).1
  unfolding erase_page_records
  erase_page_records-ErasedPage r page c fits =
      let addr = start_addr r + page_size * page in
      let keep : clamp_page r page ≡ page = ground arith in
      let aligned : addr % 256 ≡ 0 = omega (arith, start_addr-aligned r) in
      let e = erase_at-ErasedPage addr c aligned in
      rw keep (
        all_erased_lem 128 0 addr (erase_at hal addr c).mem (omega arith)
            (λ a p q. e.blank a (omega arith) (omega arith)),
        e,
      )
