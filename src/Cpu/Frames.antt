-- ===== src/Cpu/Frames.antt =====
-- Frames of registers on a stack: what is stored is loaded, and nothing else changes.
use mathlib.Core.Path.{subst}
use ch32v303rct6_rtt_mrs.Base.{
  ℕ, zero, suc, ◌+◌, ◌*◌, ◌≤◌, ◌<◌, ◌≢◌, ◌⊎◌, inl, inr, Bool, true, false, ◌||◌, List, [], ◌∷◌,
  ◌==◌, if◌then◌else◌, arith, ◌≡◌, refl, ◌∙◌, Bool-cases,
}
use ch32v303rct6_rtt_mrs.Cpu.{Mem, put, bits, fill, store_all, load_all, upper}

-- Registers that have a place in a frame of 32 words.
abbrev pub AreRegs : List ℕ → Type 0
AreRegs [] = Unit {0}
AreRegs (r ∷ rs) = (r < 32) × AreRegs rs

abbrev pub has : ℕ → List ℕ → Bool
has r [] = false
has r (q ∷ rs) = has r rs || (r == q)

-- An address outside the frame at `sp`.
abbrev pub IsOutside : ℕ → ℕ → Type 0
IsOutside sp a = (a < sp) ⊎ (sp + 128 ≤ a)

pub store_all-has :
    (rs : List ℕ) (x : ℕ → ℕ) (sp : ℕ) (m : Mem) (r : ℕ)
    → store_all rs x sp m (sp + r * 4) ≡ (if has r rs then x r else m (sp + r * 4))
unfolding store_all
store_all-has [] x sp m r = refl
store_all-has (q ∷ rs) x sp m r = ground (arith, store_all-has rs x sp (put m (sp + q * 4) (x q)) r)

pub store_all-outside :
    (rs : List ℕ) (x : ℕ → ℕ) (sp : ℕ) (m : Mem) (a : ℕ)
    → AreRegs rs
    → IsOutside sp a
    → store_all rs x sp m a ≡ m a
unfolding store_all
store_all-outside [] x sp m a h o = refl
store_all-outside (q ∷ rs) x sp m a h o =
    ground (arith, store_all-outside rs x sp (put m (sp + q * 4) (x q)) a)

pub load_all-has :
    (rs : List ℕ) (m : Mem) (sp : ℕ) (x : ℕ → ℕ) (r : ℕ)
    → load_all rs m sp x r ≡ (if has r rs then m (sp + r * 4) else x r)
unfolding load_all
load_all-has [] m sp x r = refl
load_all-has (q ∷ rs) m sp x r = ground (arith, load_all-has rs m sp (put x q (m (sp + q * 4))) r)

pub fill-outside :
    (left a : ℕ) (m : Mem) (b : ℕ) → (b < a) ⊎ (a + left * 4 ≤ b) → fill left a m b ≡ m b
unfolding fill
fill-outside zero a m b o = refl
fill-outside (suc left) a m b o = ground (arith, fill-outside left (a + 4) (put m a 0xdeadbeef) b)

-- The registers that a switch keeps: all but x0, which is zero, the stack pointer x2, and x3, which
-- is the same for every thread.
abbrev pub kept : List ℕ
kept = 1 ∷ 4 ∷ 5 ∷ upper

-- A frame at `sp` that a thread goes on from: at `pc`, with the registers `x`, and with interrupts
-- enabled or not.
pub record IsFrame (m : Mem) (sp pc : ℕ) (x : ℕ → ℕ) (enabled : Bool) : Type 0 where
  pub at_pc : m sp ≡ pc
  pub held : (r : ℕ) → has r kept ≡ true → m (sp + r * 4) ≡ x r
  pub mpie : bits (m (sp + 8)) 7 ≡ enabled

pub has-small : (r : ℕ) (rs : List ℕ) → AreRegs rs → has r rs ≡ true → r < 32
has-small r [] a h = cc
has-small r (q ∷ rs) a h = ground (arith, has-small r rs)

-- Memory that agrees on the frame.
pub IsFrame-agree :
    (m m' : Mem) (sp pc : ℕ) (x : ℕ → ℕ) (enabled : Bool)
    → ((a : ℕ) → sp ≤ a → a < sp + 128 → m' a ≡ m a)
    → IsFrame m sp pc x enabled
    → IsFrame m' sp pc x enabled
IsFrame-agree m m' sp pc x enabled same f = record {
  at_pc = same sp (omega arith) (omega arith) ∙ f.at_pc;
  held = λ r h.
      let small = has-small r kept (omega arith) h in
      same (sp + r * 4) (omega arith) (omega (arith, small)) ∙ f.held r h;
  mpie = rw (same (sp + 8) (omega arith) (omega arith)) f.mpie;
}

-- The stack pointer is not among them.
pub kept-stack : (r : ℕ) → has r kept ≡ true → (r == 2) ≡ false
kept-stack r h = elim (Bool-cases (r == 2)) [
  | inl e ↦
      let two : r ≡ 2 = ground arith in
      let no_stack : has 2 kept ≡ false = refl in
      let stack : has 2 kept ≡ true = subst (λ q. has q kept ≡ true) two h in cc
  | inr e ↦ e
]

pub kept_pos : (r : ℕ) → has r kept ≡ true → r ≢ 0
kept_pos r h e =
    let no_zero : has 0 kept ≡ false = refl in
    let in_list : has 0 kept ≡ true = subst (λ q. has q kept ≡ true) e h in cc

pub load_all-first :
    (rs : List ℕ) (m : Mem) (sp : ℕ) (x : ℕ → ℕ) (r : ℕ)
    → has r (1 ∷ rs) ≡ true
    → x 1 ≡ m (sp + 4)
    → load_all rs m sp x r ≡ m (sp + r * 4)
load_all-first rs m sp x r h one = elim (Bool-cases (has r rs)) [
  | inl later ↦ load_all-has rs m sp x r ∙ rw later refl
  | inr first ↦
      let e : r ≡ 1 = ground (arith, h, first) in load_all-has rs m sp x r ∙ rw first (rw e one)
]

pub fill-inside : (left a : ℕ) (m : Mem) (k : ℕ) → k < left → fill left a m (a + k * 4) ≡ 0xdeadbeef
unfolding fill
fill-inside zero a m k h = absurd (omega arith)
fill-inside (suc left) a m zero h =
    let out = fill-outside left (a + 4) (put m a 0xdeadbeef) (a + 0 * 4) (inl (omega arith)) in
    out ∙ ground arith
fill-inside (suc left) a m (suc k) h =
    let e : a + suc k * 4 ≡ a + 4 + k * 4 = omega arith in
    rw e (fill-inside left (a + 4) (put m a 0xdeadbeef) k (omega arith))
