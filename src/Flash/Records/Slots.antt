-- ===== src/Flash/Records/Slots.antt =====
-- Where the records of a type stand: the slots of its pages, and which index has which slot.
use ch32v303rct6_rtt_mrs.Base.{
  inr, inl, ◌^◌, ℕ, ◌+◌, ◌-◌, ◌*◌, ◌/◌, ◌%◌, ◌≤◌, ◌<◌, arith, ◌≡◌, ◌≢◌, ◌⊎◌,
}
use ch32v303rct6_rtt_mrs.Flash.Layout.{
  Record, pages, start_addr, page_size, page_records, record_size,
}
use ch32v303rct6_rtt_mrs.Flash.Records.{page_of, record_addr}
use native.Mathlib.Decide.{ℕ_discrete}

abbrev pub slot : Record → ℕ → ℕ → ℕ
slot r page i = start_addr r + page_size * page + record_size * i

-- The page and the place in it that an index has.
abbrev pub page_no : Record → ℕ → ℕ
page_no r index = (index - 1) / page_records % pages r

abbrev pub place : ℕ → ℕ
place index = (index - 1) % page_records

pub pages_bounds : (r : Record) → (1 ≤ pages r) × (pages r ≤ 9)
unfolding pages
pages_bounds r = ground arith

pub page_no-lt : (r : Record) (index : ℕ) → page_no r index < pages r
page_no-lt r index = omega (arith, pages_bounds r)

-- The code's arithmetic in 32 and 8 bits finds that slot.
pub record_addr_lem :
    (r : Record) (index : ℕ)
    → 1 ≤ index
    → index < 65536
    → (page_of r index ≡ page_no r index)
      × (record_addr r index ≡ slot r (page_no r index) (place index))
record_addr_lem r index lo hi =
    let before : (index + (2 ^ 32 - 1)) % 2 ^ 32 ≡ index - 1 = omega arith in
    rw before (omega (arith, page_no-lt r index, pages_bounds r))

pub slots_disjoint :
    (r : Record) (p i q j : ℕ)
    → i < 25
    → j < 25
    → (p ≢ q) ⊎ (i ≢ j)
    → (slot r p i + 10 ≤ slot r q j) ⊎ (slot r q j + 10 ≤ slot r p i)
slots_disjoint r p i q j hi hj ne = ground arith

pub mod_differ : (a b n : ℕ) → a < b → b < a + n → a % n ≢ b % n
mod_differ a b n lt near e = grind arith

-- Indices less than a ring apart have different slots.
pub slots_differ :
    (r : Record) (j k : ℕ)
    → 1 ≤ j
    → j < k
    → k < j + 25 * pages r
    → (page_no r j ≢ page_no r k) ⊎ (place j ≢ place k)
slots_differ r j k lo lt near = elim (ℕ_discrete (place j) (place k)) [
  | yes e ↦ inl (mod_differ ((j - 1) / 25) ((k - 1) / 25) (pages r) (omega arith) (omega arith))
  | no ne ↦ inr ne
]
