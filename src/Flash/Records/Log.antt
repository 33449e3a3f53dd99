-- ===== src/Flash/Records/Log.antt =====
-- What the pages of a record type hold after `n` records: the invariant of the log.
use native.Mathlib.Nat.{le_trans}
use native.Mathlib.Decide.{ℕ_discrete}
use ch32v303rct6_rtt_mrs.Base.{
  inr, inl, ◌∙◌, ◌⊎◌, ◌≢◌, ◌-◌, ◌/◌, ℕ, zero, suc, ◌+◌, ◌*◌, ◌≤◌, ◌<◌, arith, ◌≡◌,
}
use ch32v303rct6_rtt_mrs.Flash.Hal.{Mem, Chip}
use ch32v303rct6_rtt_mrs.Flash.Layout.{Record, pages, page_records, record_size}
use ch32v303rct6_rtt_mrs.Flash.Driver.{load16}
use ch32v303rct6_rtt_mrs.Flash.Driver.Write.{IsErased, Wrote}
use ch32v303rct6_rtt_mrs.Flash.Records.{frame_header, max_index, Frame, frame_buf}
use ch32v303rct6_rtt_mrs.Flash.Records.Slots.{
  slot, page_no, place, page_no-lt, slots_disjoint, slots_differ,
}
use ch32v303rct6_rtt_mrs.Flash.Records.Scan.{Bounded, max_index-eq, max_index-zero}

-- The slot of index `k`.
abbrev pub home : Record → ℕ → ℕ
home r k = slot r (page_no r k) (place k)

-- The slot of index `k` holds a frame of that index.
abbrev pub Holds : Mem → Record → ℕ → Type 0
Holds m r k = (load16 m (home r k) ≡ frame_header) × (load16 m (home r k + 2) ≡ k)

-- The slots up to the end of the page that the next record goes to, or of the first round.
abbrev pub Ahead : Record → ℕ → ℕ → Type 0
Ahead r n k = (k ≤ page_records * (n / page_records + 1)) ⊎ (k ≤ page_records * pages r)

-- After `n` records: no frame has a higher index; the last `keep` records are there; and the slots
-- ahead, counted from `m`, are erased.
pub record IsLog (mem : Mem) (r : Record) (n keep m : ℕ) : Type 0 where
  pub bounded : (q j : ℕ) → q < pages r → j < page_records → Bounded mem n (slot r q j)
  pub kept : (k : ℕ) → 1 ≤ k → k ≤ n → n < k + keep → Holds mem r k
  pub ahead : (k : ℕ) → n < k → Ahead r m k → IsErased mem (home r k) (home r k + record_size)

-- The scan of such a log finds `n`.
pub max_index-IsLog :
    (mem : Mem) (r : Record) (n keep m : ℕ) → 1 ≤ keep → IsLog mem r n keep m → max_index mem r ≡ n
max_index-IsLog mem r zero keep m h v = max_index-zero mem r v.bounded
max_index-IsLog mem r (suc n) keep m h v =
    let top = v.kept (suc n) (omega arith) (omega arith) (omega arith) in
    max_index-eq mem r (suc n) (page_no r (suc n)) (place (suc n)) v.bounded (page_no-lt r (suc n))
      (omega arith) top.0 top.1

-- Bytes that stay make a slot that stays.
abbrev pub Same : Mem → Mem → ℕ → Type 0
Same m m' from = (a : ℕ) → from ≤ a → a < from + record_size → m' a ≡ m a

pub Bounded-Same : (m m' : Mem) (n addr : ℕ) → Same m m' addr → Bounded m n addr → Bounded m' n addr
Bounded-Same m m' n addr same b e =
    ground (arith, same addr, same (addr + 1), same (addr + 2), same (addr + 3), b)

pub Holds-Same :
    (m m' : Mem) (r : Record) (k : ℕ) → Same m m' (home r k) → Holds m r k → Holds m' r k
Holds-Same m m' r k same h =
    let a = home r k in ground (arith, same a, same (a + 1), same (a + 2), same (a + 3))

-- A frame of index `n + 1` written to the next slot, which is erased, makes a log of `n + 1` records.
module _ (r : Record) (n keep : ℕ) (f : Frame) (c : Chip) (level : ℕ) (out : ℕ × Chip)
    (small : n < 65535) (ring : 2 ≤ pages r) (fits : keep ≤ page_records * pages r)
    (header : f.header ≡ frame_header) (index : f.index ≡ n + 1)
    (v : IsLog c.mem r n (keep - 1) (n + 1))
    (w : Wrote (home r (n + 1)) 0 record_size (frame_buf f) c level out) where
  outside-Same :
      (q j : ℕ)
      → j < page_records
      → (q ≢ page_no r (n + 1)) ⊎ (j ≢ place (n + 1))
      → Same c.mem out.1.mem (slot r q j)
  outside-Same q j hj ne a p below =
      w.outside a (ground (arith, slots_disjoint r q j (page_no r (n + 1)) (place (n + 1))))

  written-Holds : Holds out.1.mem r (n + 1)
  written-Holds =
      let a = home r (n + 1) in ground (arith, w.inside 0, w.inside 1, w.inside 2, w.inside 3)

  append-Bounded :
      (q j : ℕ) → q < pages r → j < page_records → Bounded out.1.mem (n + 1) (slot r q j)
  append-Bounded q j hq hj e = elim (ℕ_discrete q (page_no r (n + 1))) [
    | no other ↦
        le_trans
          (Bounded-Same c.mem out.1.mem n (slot r q j) (outside-Same q j hj (inl other))
            (v.bounded q j hq hj) e)
          (omega arith)
    | yes page ↦ elim (ℕ_discrete j (place (n + 1))) [
      | no other ↦
          le_trans
            (Bounded-Same c.mem out.1.mem n (slot r q j) (outside-Same q j hj (inr other))
              (v.bounded q j hq hj) e)
            (omega arith)
      | yes here ↦ rw (page, here) (omega (arith, written-Holds.1))
    ]
  ]

  -- The slots of the records that are kept.
  pub append-Same : (k : ℕ) → 1 ≤ k → k ≤ n → n + 1 < k + keep → Same c.mem out.1.mem (home r k)
  append-Same k lo hi near =
      outside-Same (page_no r k) (place k) (omega arith)
        (slots_differ r k (n + 1) lo (omega arith) (omega arith))

  append-kept : (k : ℕ) → 1 ≤ k → k ≤ n + 1 → n + 1 < k + keep → Holds out.1.mem r k
  append-kept k lo hi near = elim (ℕ_discrete k (n + 1)) [
    | yes e ↦ rw e written-Holds
    | no ne ↦
        Holds-Same c.mem out.1.mem r k (append-Same k lo (omega arith) near)
          (v.kept k lo (omega arith) (omega arith))
  ]

  append-Ahead :
      (k : ℕ)
      → n + 1 < k
      → Ahead r (n + 1) k
      → IsErased out.1.mem (home r k) (home r k + record_size)
  append-Ahead k lt near a p q =
      outside-Same (page_no r k) (place k) (omega arith) (ground (arith, slots_differ r (n + 1) k))
        a p q
      ∙ v.ahead k (omega arith) near a p q

  pub IsLog-append : IsLog out.1.mem r (n + 1) keep (n + 1)
  IsLog-append = record { bounded = append-Bounded; kept = append-kept; ahead = append-Ahead }
