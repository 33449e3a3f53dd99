-- ===== src/Flash/Records/Room.antt =====
-- The erase of `Flash_Write_Record` keeps the log but for the record that the next one drops, and
-- leaves the slots ahead of the next record erased.
use native.Mathlib.Decide.{ℕ_discrete}
use mathlib.Core.Path.{refl}
use native.Mathlib.Nat.{mod-eq-sub-mod, mod-eq_of_lt, mod-add-mod}
use ch32v303rct6_rtt_mrs.Base.{
  inr, inl, Bool-cases, ltb, ◌&&◌, ◌⊎◌, ◌∙◌, ◌==◌, ◌^◌, ◌≢◌, ◌/◌, if◌then◌else◌, u32, ◌%◌, ◌-◌, u8,
  ℕ, ◌+◌, ◌*◌, ◌≤◌, ◌<◌, arith, ◌≡◌,
}
use ch32v303rct6_rtt_mrs.Flash.Hal.{Mem, Chip, FlashHal}
use ch32v303rct6_rtt_mrs.Flash.Layout.{
  Record, pages, start_addr, page_size, page_records, record_size, max_num,
}
use ch32v303rct6_rtt_mrs.Flash.Driver.{erase_page_records}
use ch32v303rct6_rtt_mrs.Flash.Driver.Write.{IsErased}
use ch32v303rct6_rtt_mrs.Flash.Driver.Erase.{
  start_addr-aligned, ErasedPage, erase_page_records-ErasedPage,
}
use ch32v303rct6_rtt_mrs.Flash.Records.{make_room}
use ch32v303rct6_rtt_mrs.Flash.Records.Slots.{
  slot, page_no, place, record_addr_lem, mod_differ, pages_bounds,
}
use ch32v303rct6_rtt_mrs.Flash.Records.Scan.{Bounded}
use ch32v303rct6_rtt_mrs.Flash.Records.Log.{
  home, Holds, Ahead, IsLog, Same, Bounded-Same, Holds-Same,
}

-- The types that keep one page more than their records fill: all but the end of life.
abbrev pub IsRing : Record → Type 0
IsRing r = (3 ≤ pages r) × (max_num r ≡ page_records * (pages r - 1))

-- The erase falls before the last slot but one of a page.
last_but_one :
    (n : ℕ)
    → n < 65536
    → (u8 (u32 (n + (2 ^ 32 - 1)) % page_records) + 1 == page_records - 1) ≡ (n % 25 == 24)
last_but_one n h = ground arith

next_page : (q p : ℕ) → 1 ≤ p → (q + 1) % p ≡ (if q % p + 1 == p then 0 else q % p + 1)
next_page q p h = elim (Bool-cases (q % p + 1 == p)) [
  | inl e ↦
      let full : q % p + 1 ≡ p = ground arith in rw (e, ← mod-add-mod q p 1, full) (grind arith)
  | inr e ↦ rw (e, ← mod-add-mod q p 1) (mod-eq_of_lt (ground arith))
]

-- What an erase of the page after that of record `n` does to the log.
module _ (r : Record) (n : ℕ) (c c' : Chip) (ring : IsRing r) (v : IsLog c.mem r n (max_num r) n)
    (last : n % 25 ≡ 24) (full : max_num r < n)
    (e : ErasedPage (start_addr r + page_size * ((n / 25 + 1) % pages r)) c c') where
  other_page-Same :
      (q j : ℕ) → j < page_records → q ≢ (n / 25 + 1) % pages r → Same c.mem c'.mem (slot r q j)
  other_page-Same q j hj ne a p below = e.frame a (omega arith)

  IsErased-slot :
      (j : ℕ)
      → j < page_records
      → let s = slot r ((n / 25 + 1) % pages r) j in IsErased c'.mem s (s + record_size)
  IsErased-slot j hj a p below = e.blank a (omega arith) (omega arith)

  erased-Bounded : (q j : ℕ) → q < pages r → j < page_records → Bounded c'.mem n (slot r q j)
  erased-Bounded q j hq hj h = elim (ℕ_discrete q ((n / 25 + 1) % pages r)) [
    | no other ↦
        Bounded-Same c.mem c'.mem n (slot r q j) (other_page-Same q j hj other)
          (v.bounded q j hq hj) h
    | yes here ↦
        let s = slot r ((n / 25 + 1) % pages r) j in
        absurd (
          ground (
            arith,
            rw here at h,
            start_addr-aligned r,
            IsErased-slot j hj s,
            IsErased-slot j hj (s + 1),
          ))
  ]

  pub erased-Same : (k : ℕ) → 1 ≤ k → k ≤ n → n < k + (max_num r - 1) → Same c.mem c'.mem (home r k)
  erased-Same k lo hi near =
      other_page-Same (page_no r k) (place k) (omega arith)
        (mod_differ ((k - 1) / 25) (n / 25 + 1) (pages r) (omega arith) (omega arith))

  erased-kept : (k : ℕ) → 1 ≤ k → k ≤ n → n < k + (max_num r - 1) → Holds c'.mem r k
  erased-kept k lo hi near =
      Holds-Same c.mem c'.mem r k (erased-Same k lo hi near) (v.kept k lo hi (omega arith))

  IsErased-Ahead :
      (k : ℕ) → n < k → Ahead r (n + 1) k → IsErased c'.mem (home r k) (home r k + record_size)
  IsErased-Ahead k lo near = elim (ℕ_discrete k (n + 1)) [
    | yes next ↦ rw next λ a p below.
        other_page-Same (page_no r (n + 1)) (place (n + 1)) (omega arith)
          (mod_differ ((n + 1 - 1) / 25) (n / 25 + 1) (pages r) (omega arith) (omega arith)) a p
          below
        ∙ v.ahead (n + 1) (omega arith) (ground arith) a p below
    | no later ↦
        let page : (k - 1) / 25 ≡ n / 25 + 1 = ground arith in
        rw page (IsErased-slot (place k) (omega arith))
  ]

  pub ErasedPage-IsLog : IsLog c'.mem r n (max_num r - 1) (n + 1)
  ErasedPage-IsLog = record { bounded = erased-Bounded; kept = erased-kept; ahead = IsErased-Ahead }

-- No erase is due: the slots ahead of the next record are ahead of this one.
IsLog-relax :
    (r : Record) (n : ℕ) (m : Mem)
    → IsRing r
    → (n % 25 ≢ 24) ⊎ (n ≤ max_num r)
    → IsLog m r n (max_num r) n
    → IsLog m r n (max_num r - 1) (n + 1)
IsLog-relax r n m ring due v = record {
  bounded = v.bounded;
  kept = λ k lo hi near. v.kept k lo hi (omega arith);
  ahead = λ k lo near. v.ahead k lo (ground arith);
}

module _ (hal : FlashHal) where
  make_room-eq :
      (r : Record) (n : ℕ) (c : Chip)
      → IsRing r
      → n < 65535
      → make_room hal r n c ≡ (
          if (n % 25 == 24) && ltb (max_num r) n
          then (erase_page_records hal r ((n / 25 + 1) % pages r) c).1
          else c)
  unfolding make_room
  make_room-eq r n c ring small = elim (Bool-cases (n % 25 == 24)) [
    | inr e ↦ ground (arith, last_but_one n)
    | inl e ↦ elim (Bool-cases (ltb (max_num r) n)) [
      | inr room ↦
          ground
            (arith, last_but_one n, record_addr_lem r n, mod-eq_of_lt {n = n / 25} {m = pages r})
      | inl full ↦ ground (
        arith,
        last_but_one n,
        record_addr_lem r n,
        record_addr_lem r (n - (max_num r - 1)),
        mod-eq-sub-mod {n = n / 25 + 1} {m = pages r},
        next_page (n / 25) (pages r),
        pages_bounds r,
      )
    ]
  ]

  -- The chip is ready for record `n + 1`: at most a page of this type's area has changed.
  pub record Ready (r : Record) (n : ℕ) (c c' : Chip) : Type 0 where
    pub log : IsLog c'.mem r n (max_num r - 1) (n + 1)
    pub stays : (k : ℕ) → 1 ≤ k → k ≤ n → n < k + (max_num r - 1) → Same c.mem c'.mem (home r k)
    pub frame :
        (a : ℕ) → (a < start_addr r) ⊎ (start_addr r + page_size * pages r ≤ a) → c'.mem a ≡ c.mem a
    pub level : c'.interrupts ≡ c.interrupts

  -- On a log of n records of a type with spare pages, n below 65535, the erase that
  -- Flash_Write_Record does first changes at most that type's area, keeps the last max_num - 1
  -- records and the highest index, leaves the next slots erased and restores the interrupt level.
  pub make_room-Ready :
      (r : Record) (n : ℕ) (c : Chip)
      → IsRing r
      → n < 65535
      → IsLog c.mem r n (max_num r) n
      → Ready r n c (make_room hal r n c)
  make_room-Ready r n c ring small v =
      rw (make_room-eq r n c ring small) (elim (Bool-cases ((n % 25 == 24) && ltb (max_num r) n)) [
        | inr keep ↦ rw keep (record {
          log = IsLog-relax r n c.mem ring (ground arith) v;
          stays = λ k lo hi near a p below. refl;
          frame = λ a p. refl;
          level = refl;
        })
        | inl due ↦
            let page = (n / 25 + 1) % pages r in
            let e =
              (erase_page_records-ErasedPage hal r page c (omega (arith, pages_bounds r))).1 in
            rw due (record {
              log = ErasedPage-IsLog r n c _ ring v (ground arith) (ground arith) e;
              stays = erased-Same r n c _ ring v (ground arith) (ground arith) e;
              frame = λ a p. e.frame a (ground (arith, pages_bounds r));
              level = e.restored;
            })
      ])
