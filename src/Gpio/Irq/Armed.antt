-- ===== src/Gpio/Irq/Armed.antt =====
-- Which vectors are on, and that an attached and enabled pin is heard.
use mathlib.Core.List.{Memᴰ}
use mathlib.Core.List.Memᴰ
use ch32v303rct6_rtt_mrs.Base.{
  Bool-cases, ℕ, zero, suc, ◌<◌, ◌≤◌, ◌≢◌, Bool, true, false, none, some, List, [], ltb, leb, ◌==◌,
  arith, ◌≡◌, refl, inl, inr, ◌∙◌,
}
use ch32v303rct6_rtt_mrs.Gpio.{pin_port, pin_no, ok, Entry, Table, free, put_entry, attach_irq}
use ch32v303rct6_rtt_mrs.Gpio.Pins.{line_found, attach_irq_lem}
use ch32v303rct6_rtt_mrs.Gpio.Irq.{
  Vector, exti0, exti1, exti2, exti3, exti4, exti9_5, exti15_10, vector_of, same_vector, Irqs,
  put_bit, any_9_5, any_15_10, still_used, enable_line, disable_line, irq_enable, Call, call_hdr,
  handler,
}

-- A vector is on exactly when a line of it is in the mask.
pub record IsArmed (s : Irqs) : Type 0 where
  pub on0 : s.nvic exti0 ≡ s.mask 0
  pub on1 : s.nvic exti1 ≡ s.mask 1
  pub on2 : s.nvic exti2 ≡ s.mask 2
  pub on3 : s.nvic exti3 ≡ s.mask 3
  pub on4 : s.nvic exti4 ≡ s.mask 4
  pub on9_5 : s.nvic exti9_5 ≡ any_9_5 s.mask
  pub on15_10 : s.nvic exti15_10 ≡ any_15_10 s.mask

enable_line-IsArmed :
    (line port : ℕ) (s : Irqs) → IsArmed s → IsArmed (enable_line (some line) port s).1
unfolding enable_line vector_of
enable_line-IsArmed line port s h = ground arith

disable_line-low :
    (line : ℕ) (s : Irqs) → line < 5 → IsArmed s → IsArmed (disable_line (some line) s).1
unfolding disable_line vector_of
disable_line-low line s b h =
    let big : leb 16 line ≡ false = ground arith in
    let used : still_used line (put_bit s.mask line false) ≡ false = ground arith in
    rw (big, used) (ground arith)

disable_line-mid :
    (line : ℕ) (s : Irqs)
    → 5 ≤ line
    → line < 10
    → IsArmed s
    → IsArmed (disable_line (some line) s).1
unfolding disable_line vector_of
disable_line-mid line s a b h =
    let big : leb 16 line ≡ false = ground arith in
    let m = put_bit s.mask line false in
    let used : still_used line m ≡ any_9_5 m = ground arith in
    elim (Bool-cases (any_9_5 m)) [
      | inl e ↦ rw (big, used, e) (ground arith)
      | inr e ↦ rw (big, used, e) (ground arith)
    ]

disable_line-high :
    (line : ℕ) (s : Irqs)
    → 10 ≤ line
    → line < 16
    → IsArmed s
    → IsArmed (disable_line (some line) s).1
unfolding disable_line vector_of
disable_line-high line s a b h =
    let big : leb 16 line ≡ false = ground arith in
    let m = put_bit s.mask line false in
    let used : still_used line m ≡ any_15_10 m = ground arith in
    elim (Bool-cases (any_15_10 m)) [
      | inl e ↦ rw (big, used, e) (ground arith)
      | inr e ↦ rw (big, used, e) (ground arith)
    ]

disable_line-IsArmed :
    (line : ℕ) (s : Irqs) → line < 16 → IsArmed s → IsArmed (disable_line (some line) s).1
disable_line-IsArmed line s b h = elim (Bool-cases (ltb line 5)) [
  | inl e ↦ disable_line-low line s (ground arith) h
  | inr e ↦ elim (Bool-cases (ltb line 10)) [
    | inl f ↦ disable_line-mid line s (ground arith) (ground arith) h
    | inr f ↦ disable_line-high line s (ground arith) b h
  ]
]

-- ch32_pin_irq_enable, on any pin and with any argument, keeps each of the seven interrupt
-- vectors on exactly when a line of its own is in the mask of enabled lines.
pub irq_enable-IsArmed :
    (port_max pin enabled : ℕ) (s : Irqs)
    → IsArmed s
    → IsArmed (irq_enable port_max pin enabled s).1
unfolding irq_enable
irq_enable-IsArmed port_max pin enabled s h =
    let found = line_found (pin_no pin) (omega arith) in
    elim (Bool-cases (leb port_max (pin_port pin))) [
      | inl bad ↦ rw bad h
      | inr good ↦ elim (Bool-cases (enabled == 1)) [
        | inl on ↦ rw (good, on, found) (enable_line-IsArmed (pin_no pin) (pin_port pin) s h)
        | inr other ↦ elim (Bool-cases (enabled == 0)) [
          | inl off ↦
              rw (good, other, off, found) (disable_line-IsArmed (pin_no pin) s (omega arith) h)
          | inr neither ↦ rw (good, other, neither) h
        ]
      ]
    ]

-- The calls that the handler of a vector makes.
abbrev pub calls_of : Vector → Table → (ℕ → Bool) → List Call
calls_of v table pending = elim (handler v table pending) [ none ↦ [] | some r ↦ r.0 ]

same_vector_refl : (v : Vector) → same_vector v v ≡ true
same_vector_refl v = ground arith

call_hdr-Memᴰ :
    (table : Table) (line : ℕ) (c : Call)
    → c.hdr ≢ 0
    → (table line).hdr ≡ c.hdr
    → (table line).args ≡ c.args
    → Memᴰ c (call_hdr table line)
call_hdr-Memᴰ table line c n h a =
    let there : ((table line).hdr == 0) ≡ false = ground arith in
    let same : c ≡ record { hdr = (table line).hdr; args = (table line).args } = cc in
    rw there (Memᴰ.head same)

-- A pending line below 10 makes the handler of its vector call what is attached to it.
calls_of-Memᴰ :
    (table : Table) (pending : ℕ → Bool) (line : ℕ) (c : Call)
    → line < 10
    → pending line ≡ true
    → Memᴰ c (call_hdr table line)
    → Memᴰ c (calls_of (vector_of line) table pending)
unfolding handler vector_of
calls_of-Memᴰ table pending zero c b p m = rw (p, calls_of) m
calls_of-Memᴰ table pending (suc zero) c b p m = rw (p, calls_of) m
calls_of-Memᴰ table pending (suc (suc zero)) c b p m = rw (p, calls_of) m
calls_of-Memᴰ table pending (suc (suc (suc zero))) c b p m = rw (p, calls_of) m
calls_of-Memᴰ table pending (suc (suc (suc (suc zero)))) c b p m = rw (p, calls_of) m
calls_of-Memᴰ table pending (suc (suc (suc (suc (suc zero))))) c b p m =
    let any : any_9_5 pending ≡ true = ground arith in rw (any, calls_of) (Memᴰ.append_left _ m)
calls_of-Memᴰ table pending (suc (suc (suc (suc (suc (suc zero)))))) c b p m =
    let any : any_9_5 pending ≡ true = ground arith in
    rw (any, calls_of) (Memᴰ.append_right (call_hdr table 5) (Memᴰ.append_left _ m))
calls_of-Memᴰ table pending (suc (suc (suc (suc (suc (suc (suc zero))))))) c b p m =
    let any : any_9_5 pending ≡ true = ground arith in
    rw (any, calls_of)
      (Memᴰ.append_right (call_hdr table 5)
        (Memᴰ.append_right (call_hdr table 6) (Memᴰ.append_left _ m)))
calls_of-Memᴰ table pending (suc (suc (suc (suc (suc (suc (suc (suc zero)))))))) c b p m =
    let any : any_9_5 pending ≡ true = ground arith in
    rw (any, calls_of)
      (Memᴰ.append_right (call_hdr table 5) (
        Memᴰ.append_right (call_hdr table 6)
          (Memᴰ.append_right (call_hdr table 7) (Memᴰ.append_left _ m))))
calls_of-Memᴰ table pending (suc (suc (suc (suc (suc (suc (suc (suc (suc zero))))))))) c b p m =
    let any : any_9_5 pending ≡ true = ground arith in
    rw (any, calls_of)
      (Memᴰ.append_right (call_hdr table 5) (
        Memᴰ.append_right (call_hdr table 6)
          (Memᴰ.append_right (call_hdr table 7) (Memᴰ.append_right (call_hdr table 8) m))))
calls_of-Memᴰ table pending (suc (suc (suc (suc (suc (suc (suc (suc (suc (suc k)))))))))) c b p m =
    absurd (omega arith)

module _ (port_max pin mode hdr args : ℕ) (s : Irqs) (pending : ℕ → Bool)
    (known : pin_port pin < port_max) (below : pin_no pin < 10)
    (unused : s.table (pin_no pin) ≡ free) (real : hdr ≢ 0)
    (raised : pending (pin_no pin) ≡ true) where
  -- For a pin below 10 of a port that the chip has, on a free line, attaching a handler and
  -- enabling the interrupt both answer RT_EOK; the vector of the line is then on, and its
  -- interrupt handler, run while the line is pending, calls the attached handler with its
  -- argument.
  pub handler-irq_enable :
      let attached = attach_irq port_max pin mode hdr args s.table in
      let enabled = irq_enable port_max pin 1 (record s { table = attached.1 }) in
      let c : Call = record { hdr = hdr; args = args } in
      (attached.0 ≡ ok)
      × (enabled.0 ≡ ok)
      × (enabled.1.nvic (vector_of (pin_no pin)) ≡ true)
      × Memᴰ c (calls_of (vector_of (pin_no pin)) enabled.1.table pending)
  unfolding irq_enable enable_line
  handler-irq_enable =
      let line = pin_no pin in
      let entry : Entry = record { pin = some pin; hdr = hdr; mode = mode; args = args } in
      let port : leb port_max (pin_port pin) ≡ false = ground arith in
      let found = line_found line (omega arith) in
      let a : attach_irq port_max pin mode hdr args s.table ≡ (ok, put_entry s.table line entry) =
        attach_irq_lem port_max pin mode hdr args s.table known ∙ rw unused refl in
      let here : (line == line) ≡ true = ground arith in
      let big : leb 16 line ≡ false = ground arith in
      let v : same_vector (vector_of line) (vector_of line) ≡ true =
        same_vector_refl (vector_of line) in
      let c : Call = record { hdr = hdr; args = args } in
      let t = put_entry s.table line entry in
      let heard =
        calls_of-Memᴰ t pending line c below raised
          (call_hdr-Memᴰ t line c real (rw here refl) (rw here refl)) in
      rw (a, port, found, big, here, v) (refl, refl, refl, heard)
