-- ===== src/Flash/Records/Scan.antt =====
-- The scan of `Flash_GetMaxIndex_Records`: the highest index of all frames in a type's pages.
use native.Mathlib.Decide.{ℕ_discrete}
use native.Mathlib.Nat.{le_trans}
use ch32v303rct6_rtt_mrs.Base.{ℕ, zero, suc, ◌+◌, ◌*◌, ◌≤◌, ◌<◌, arith, ◌≡◌}
use ch32v303rct6_rtt_mrs.Flash.Hal.{Mem}
use ch32v303rct6_rtt_mrs.Flash.Layout.{
  Record, pages, start_addr, page_size, page_records, record_size,
}
use ch32v303rct6_rtt_mrs.Flash.Driver.{load16}
use ch32v303rct6_rtt_mrs.Flash.Records.{frame_header, scan_page, scan_pages, max_index}
use ch32v303rct6_rtt_mrs.Flash.Records.Slots.{slot}

-- A frame at `addr` has an index of at most `n`.
abbrev pub Bounded : Mem → ℕ → ℕ → Type 0
Bounded m n addr = load16 m addr ≡ frame_header → load16 m (addr + 2) ≤ n

module _ (m : Mem) (addr : ℕ) where
  scan_page-le :
      (left i acc n : ℕ)
      → acc ≤ n
      → ((j : ℕ) → i ≤ j → j < i + left → Bounded m n (addr + record_size * j))
      → scan_page left m addr i acc ≤ n
  unfolding scan_page
  scan_page-le zero i acc n h all = h
  scan_page-le (suc left) i acc n h all =
      scan_page-le left (i + 1) _ n (ground (arith, all i))
        (λ j p q. all j (omega arith) (omega arith))

  le-scan_page : (left i acc : ℕ) → acc ≤ scan_page left m addr i acc
  unfolding scan_page
  le-scan_page zero i acc = omega arith
  le-scan_page (suc left) i acc = le_trans (ground arith) (le-scan_page left (i + 1) _)

  scan_page_found :
      (left i acc j : ℕ)
      → i ≤ j
      → j < i + left
      → load16 m (addr + record_size * j) ≡ frame_header
      → load16 m (addr + record_size * j + 2) ≤ scan_page left m addr i acc
  unfolding scan_page
  scan_page_found zero i acc j p q e = absurd (omega arith)
  scan_page_found (suc left) i acc j p q e = elim (ℕ_discrete i j) [
    | yes here ↦ le_trans (ground arith) (le-scan_page left (i + 1) _)
    | no later ↦ scan_page_found left (i + 1) _ j (omega arith) (omega arith) e
  ]

module _ (m : Mem) (addr : ℕ) where
  scan_pages-le :
      (left page acc n : ℕ)
      → acc ≤ n
      → ((p j : ℕ)
          → page ≤ p
          → p < page + left
          → j < page_records
          → Bounded m n (addr + page_size * p + record_size * j))
      → scan_pages left m addr page acc ≤ n
  unfolding scan_pages
  scan_pages-le zero page acc n h all = h
  scan_pages-le (suc left) page acc n h all =
      scan_pages-le left (page + 1) _ n
        (scan_page-le m (addr + page_size * page) 25 0 acc n h
          (λ j p q. all page j (omega arith) (omega arith) (omega arith)))
        (λ p j a b. all p j (omega arith) (omega arith))

  le-scan_pages : (left page acc : ℕ) → acc ≤ scan_pages left m addr page acc
  unfolding scan_pages
  le-scan_pages zero page acc = omega arith
  le-scan_pages (suc left) page acc =
      le_trans (le-scan_page m (addr + page_size * page) 25 0 acc) (le-scan_pages left (page + 1) _)

  scan_pages_found :
      (left page acc p j : ℕ)
      → page ≤ p
      → p < page + left
      → j < page_records
      → load16 m (addr + page_size * p + record_size * j) ≡ frame_header
      → load16 m (addr + page_size * p + record_size * j + 2) ≤ scan_pages left m addr page acc
  unfolding scan_pages
  scan_pages_found zero page acc p j a b c e = absurd (omega arith)
  scan_pages_found (suc left) page acc p j a b c e = elim (ℕ_discrete p page) [
    | yes here ↦
        le_trans
          (rw here (
            scan_page_found m (addr + page_size * page) 25 0 acc j (omega arith) (omega arith)
              (rw here at e)))
          (le-scan_pages left (page + 1) _)
    | no later ↦ scan_pages_found left (page + 1) _ p j (omega arith) (omega arith) c e
  ]

-- The scan finds `n` if no frame has a higher index and some frame has this one.
pub max_index-eq :
    (m : Mem) (r : Record) (n p j : ℕ)
    → ((q k : ℕ) → q < pages r → k < page_records → Bounded m n (slot r q k))
    → p < pages r
    → j < page_records
    → load16 m (slot r p j) ≡ frame_header
    → load16 m (slot r p j + 2) ≡ n
    → max_index m r ≡ n
unfolding max_index
max_index-eq m r n p j all hp hj header index = omega (
  arith,
  scan_pages-le m (start_addr r) (pages r) 0 0 n (omega arith)
      (λ q k a b c. all q k (omega arith) c),
  scan_pages_found m (start_addr r) (pages r) 0 0 p j (omega arith) (omega arith) hj header,
)

-- Of an area without frames it is 0.
pub max_index-zero :
    (m : Mem) (r : Record)
    → ((q k : ℕ) → q < pages r → k < page_records → Bounded m 0 (slot r q k))
    → max_index m r ≡ 0
unfolding max_index
max_index-zero m r all = omega (
  arith,
  scan_pages-le m (start_addr r) (pages r) 0 0 0 (omega arith)
      (λ q k a b c. all q k (omega arith) c),
)
