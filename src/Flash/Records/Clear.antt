-- ===== src/Flash/Records/Clear.antt =====
-- `Flash_Erase_Records`: an empty log.
use mathlib.Core.Path.{refl}
use native.Mathlib.Decide.{dec_lt}
use ch32v303rct6_rtt_mrs.Base.{◌∙◌, inl, ◌⊎◌, ℕ, zero, suc, ◌+◌, ◌*◌, ◌≤◌, ◌<◌, arith, ◌≡◌}
use ch32v303rct6_rtt_mrs.Flash.Hal.{Mem, Chip, FlashHal}
use ch32v303rct6_rtt_mrs.Flash.Layout.{Record, pages, start_addr, page_size}
use ch32v303rct6_rtt_mrs.Flash.Driver.{erase_page_records}
use ch32v303rct6_rtt_mrs.Flash.Driver.Write.{IsErased}
use ch32v303rct6_rtt_mrs.Flash.Driver.Erase.{erase_page_records-ErasedPage, start_addr-aligned}
use ch32v303rct6_rtt_mrs.Flash.Records.{erase_loop, erase_records}
use ch32v303rct6_rtt_mrs.Flash.Records.Slots.{slot, page_no-lt}
use ch32v303rct6_rtt_mrs.Flash.Records.Log.{IsLog}

-- The bytes from `from` to `to` are erased, and nothing outside has changed; the interrupt level is
-- back.
pub record ErasedArea (from to : ℕ) (c c' : Chip) : Type 0 where
  pub blank : IsErased c'.mem from to
  pub frame : (a : ℕ) → (a < from) ⊎ (to ≤ a) → c'.mem a ≡ c.mem a
  pub level : c'.interrupts ≡ c.interrupts

-- Two erases of adjoining areas.
pub ErasedArea-join :
    {from mid to : ℕ} {c c1 c2 : Chip}
    → from ≤ mid
    → mid ≤ to
    → ErasedArea from mid c c1
    → ErasedArea mid to c1 c2
    → ErasedArea from to c c2
ErasedArea-join {mid = mid} p q e1 e2 = record {
  blank = λ a lo hi. elim (dec_lt a mid) [
    | yes below ↦ e2.frame a (inl below) ∙ e1.blank a lo below
    | no above ↦ e2.blank a (omega arith) hi
  ];
  frame = λ a away. e2.frame a (omega arith) ∙ e1.frame a (omega arith);
  level = e2.level ∙ e1.level;
}

module _ (hal : FlashHal) where
  erase_loop-ErasedArea :
      (left page to : ℕ) (r : Record) (c : Chip)
      → page + left ≡ pages r
      → to ≡ start_addr r + page_size * pages r
      → ErasedArea (start_addr r + page_size * page) to c (erase_loop hal left r page c)
  unfolding erase_loop
  erase_loop-ErasedArea zero page to r c e t = record {
    blank = λ a lo hi. absurd (omega arith);
    frame = λ a away. refl;
    level = refl;
  }
  erase_loop-ErasedArea (suc left) page to r c e t =
      let p = (erase_page_records-ErasedPage hal r page c (omega arith)).1 in
      let rest =
        erase_loop-ErasedArea left (page + 1) to r (erase_page_records hal r page c).1 (omega arith)
          t in
      ErasedArea-join (omega arith) (omega arith)
        (record {
          blank = λ a lo hi. p.blank a lo (omega arith);
          frame = λ a away. p.frame a (omega arith);
          level = p.restored;
        })
        rest

  -- Flash_Erase_Records erases the pages of the type and changes nothing outside; the interrupt
  -- level is back.
  pub erase_records-ErasedArea :
      (r : Record) (c : Chip)
      → ErasedArea (start_addr r) (start_addr r + page_size * pages r) c (erase_records hal r c)
  unfolding erase_records
  erase_records-ErasedArea r c =
      let whole =
        erase_loop-ErasedArea (pages r) 0 (start_addr r + page_size * pages r) r c (omega arith)
          refl in
      record {
        blank = λ a lo hi. whole.blank a (omega arith) hi;
        frame = λ a away. whole.frame a (omega arith);
        level = whole.level;
      }

-- Erased pages are a log of no records.
pub IsErased-IsLog :
    (m : Mem) (r : Record) (keep : ℕ)
    → IsErased m (start_addr r) (start_addr r + page_size * pages r)
    → IsLog m r 0 keep 0
IsErased-IsLog m r keep blank = record {
  bounded = λ q j hq hj h.
      let a = slot r q j in
      absurd (ground (arith, h, blank a, blank (a + 1), start_addr-aligned r));
  kept = λ k lo hi near. absurd (omega arith);
  ahead = λ k lo near a p below. blank a (omega arith) (omega (arith, page_no-lt r k));
}
