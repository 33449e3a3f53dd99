-- ===== src/Flash/Config/Page.antt =====
-- A change of the configuration page: read, erase, patch, write.
use mathlib.Core.Path.{refl}
use native.Mathlib.Decide.{ℕ_discrete, dec_lt}
use ch32v303rct6_rtt_mrs.Base.{
  inl, ◌-◌, ◌∙◌, false, get_or, ◌⊎◌, List, ℕ, zero, suc, ◌+◌, ◌≤◌, ◌<◌, arith, ◌≡◌,
}
use ch32v303rct6_rtt_mrs.Flash.Hal.{Chip, FlashHal}
use ch32v303rct6_rtt_mrs.Flash.Layout.{config_addr, page_size}
use ch32v303rct6_rtt_mrs.Flash.Driver.{Buf, read, write}
use ch32v303rct6_rtt_mrs.Flash.Driver.Write.{IsBytes, Wrote, write-Wrote}
use ch32v303rct6_rtt_mrs.Flash.Driver.Erase.{ErasedPage, erase_at-ErasedPage}
use ch32v303rct6_rtt_mrs.Flash.Config.{patch, erase_config, erase_read_config, write_config}

patch_outside :
    (left offset i : ℕ) (bytes : List ℕ) (buf : Buf) (j : ℕ)
    → (j < offset + i) ⊎ (offset + i + left ≤ j)
    → patch left offset i bytes buf j ≡ buf j
unfolding patch
patch_outside zero offset i bytes buf j p = refl
patch_outside (suc left) offset i bytes buf j p =
    patch_outside left offset (i + 1) bytes _ j (omega arith) ∙ ground arith

patch_inside :
    (left offset i : ℕ) (bytes : List ℕ) (buf : Buf) (j : ℕ)
    → i ≤ j
    → j < i + left
    → patch left offset i bytes buf (offset + j) ≡ get_or bytes j 0
unfolding patch
patch_inside zero offset i bytes buf j p q = absurd (omega arith)
patch_inside (suc left) offset i bytes buf j p q = elim (ℕ_discrete i j) [
  | yes here ↦ patch_outside left offset (i + 1) bytes _ (offset + j) (omega arith) ∙ ground arith
  | no later ↦ patch_inside left offset (i + 1) bytes _ j (omega arith) (omega arith)
]

patch-IsBytes :
    (left offset i : ℕ) (bytes : List ℕ) (buf : Buf)
    → ((k : ℕ) → get_or bytes k 0 < 256)
    → IsBytes buf
    → IsBytes (patch left offset i bytes buf)
unfolding patch
patch-IsBytes zero offset i bytes buf small h = h
patch-IsBytes (suc left) offset i bytes buf small h =
    patch-IsBytes left offset (i + 1) bytes _ small (λ j. ground (arith, small i, h j))

-- The bytes stand at the offset in the page, and nothing else in the flash has changed; the flash
-- is locked and the interrupt level is back.
pub record Patched (offset len : ℕ) (bytes : List ℕ) (c c' : Chip) : Type 0 where
  pub inside : (i : ℕ) → i < len → c'.mem (config_addr + offset + i) ≡ get_or bytes i 0
  pub outside :
      (a : ℕ) → (a < config_addr + offset) ⊎ (config_addr + offset + len ≤ a) → c'.mem a ≡ c.mem a
  pub locked : c'.unlocked ≡ false
  pub level : c'.interrupts ≡ c.interrupts

module _ (hal : FlashHal) where
  pub patch-Patched :
      (offset len : ℕ) (bytes : List ℕ) (c : Chip)
      → ((k : ℕ) → get_or bytes k 0 < 256)
      → IsBytes c.mem
      → offset + len ≤ page_size
      → let (page, c1) = erase_read_config hal c in
        Patched offset len bytes c (write_config hal (patch len offset 0 bytes page) c1)
  unfolding erase_read_config erase_config write_config
  patch-Patched offset len bytes c small flash fits = record {
    inside = λ i below.
        let at : config_addr + offset + i ≡ config_addr + (offset + i) = omega arith in
        rw at (
          w.inside (offset + i) (omega arith) (omega arith)
          ∙ patch_inside len offset 0 bytes page i (omega arith) (omega arith));
    outside = λ a away. elim (dec_lt a config_addr) [
      | yes before ↦ w.outside a (ground arith) ∙ e.frame a (inl before)
      | no after ↦ elim (dec_lt a (config_addr + page_size)) [
        | no past ↦ w.outside a (ground arith) ∙ e.frame a (ground arith)
        | yes here ↦ kept a (omega arith) here away
      ]
    ];
    locked = w.locked;
    level = w.restored ∙ e.restored;
  }
    where
      page : Buf
      page = read c.mem config_addr (λ i. 0) page_size

      e : ErasedPage config_addr c (erase_config hal c)
      e = erase_at-ErasedPage hal config_addr c refl

      w :
          Wrote config_addr 0 page_size
            (patch len offset 0 bytes page)
            (erase_config hal c)
            (erase_config hal c).interrupts
            (write hal config_addr (patch len offset 0 bytes page) page_size (erase_config hal c))
      w =
          write-Wrote hal config_addr page_size (patch len offset 0 bytes page) (erase_config hal c)
            (patch-IsBytes len offset 0 bytes page small
              (λ i. unfold read in ground (arith, flash (config_addr + i))))
            refl refl e.blank

      kept :
          (a : ℕ)
          → config_addr ≤ a
          → a < config_addr + page_size
          → (a < config_addr + offset) ⊎ (config_addr + offset + len ≤ a)
          → (write hal config_addr
                (patch len offset 0 bytes page)
                page_size
                (erase_config hal c)).1.mem
              a
            ≡ c.mem a
      kept a lo hi away =
          let at : a ≡ config_addr + (a - config_addr) = omega arith in
          rw at (
            w.inside (a - config_addr) (omega arith) (omega arith)
            ∙ patch_outside len offset 0 bytes page (a - config_addr) (ground arith)
            ∙ unfold read in ground arith)
