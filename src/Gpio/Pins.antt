-- ===== src/Gpio/Pins.antt =====
-- The names of pins, and which handler stands for which line.
use mathlib.Core.Path.{refl}
use ch32v303rct6_rtt_mrs.Base.{
  Bool-cases, ℕ, zero, suc, ◌+◌, ◌*◌, ◌<◌, ◌^◌, true, false, some, List, [], ◌∷◌, ltb, leb, ◌==◌,
  if◌then◌else◌, arith, ◌≡◌, inl, inr, ◌∙◌, ◌&&◌,
}
use ch32v303rct6_rtt_mrs.Gpio.{
  pin_port, pin_no, pin_digits, pin_get, bit_no, ok, busy, Entry, free, Table, is_pin, is_free,
  put_entry, attach_line, attach_irq, detach_line, detach_irq,
}

-- The name of a pin: P, the port's letter, a point, and one or two digits.
abbrev pub pin_name : ℕ → ℕ → List ℕ
pin_name port num =
    if ltb num 10
    then 80 ∷ (65 + port) ∷ 46 ∷ (48 + num) ∷ []
    else 80 ∷ (65 + port) ∷ 46 ∷ 49 ∷ (38 + num) ∷ []

-- For ports 0 to 15 and pins 0 to 15, ch32_pin_get takes the name of a pin, as P, the letter, a
-- point and one or two digits, to the number 16 times the port plus the pin.
pub pin_get-name :
    (port num : ℕ) → port < 16 → num < 16 → pin_get (pin_name port num) ≡ some (16 * port + num)
unfolding pin_get pin_digits
pin_get-name port num hp hn = elim (Bool-cases (ltb num 10)) [
  | inl e ↦ rw e (ground arith)
  | inr e ↦ rw e (ground arith)
]

pub line_found : (k : ℕ) → k < 16 → bit_no 32 (2 ^ k) 0 ≡ some k
unfolding bit_no
line_found zero h = refl
line_found (suc zero) h = refl
line_found (suc (suc zero)) h = refl
line_found (suc (suc (suc zero))) h = refl
line_found (suc (suc (suc (suc zero)))) h = refl
line_found (suc (suc (suc (suc (suc zero))))) h = refl
line_found (suc (suc (suc (suc (suc (suc zero)))))) h = refl
line_found (suc (suc (suc (suc (suc (suc (suc zero))))))) h = refl
line_found (suc (suc (suc (suc (suc (suc (suc (suc zero)))))))) h = refl
line_found (suc (suc (suc (suc (suc (suc (suc (suc (suc zero))))))))) h = refl
line_found (suc (suc (suc (suc (suc (suc (suc (suc (suc (suc zero)))))))))) h = refl
line_found (suc (suc (suc (suc (suc (suc (suc (suc (suc (suc (suc zero))))))))))) h = refl
line_found (suc (suc (suc (suc (suc (suc (suc (suc (suc (suc (suc (suc zero)))))))))))) h = refl
line_found (suc (suc (suc (suc (suc (suc (suc (suc (suc (suc (suc (suc (suc zero))))))))))))) h =
    refl
line_found (suc (suc (suc (suc (suc (suc (suc (suc (suc (suc (suc (suc (suc (suc zero))))))))))))))
      h =
    refl
line_found
      (suc (suc (suc (suc (suc (suc (suc (suc (suc (suc (suc (suc (suc (suc (suc zero)))))))))))))))
      h =
    refl
line_found
      (suc
        (suc (suc (suc (suc (suc (suc (suc (suc (suc (suc (suc (suc (suc (suc (suc k))))))))))))))))
      h =
    absurd (omega arith)

module _ (port_max pin mode hdr args : ℕ) (table : Table) (known : pin_port pin < port_max) where
  -- For a pin of a port that the chip has, ch32_pin_attach_irq looks at the entry of the pin's
  -- line alone: it answers RT_EOK without a change if the entry is the very same, stores the
  -- entry and answers RT_EOK if the line is free, and answers -RT_EBUSY without a change
  -- otherwise.
  pub attach_irq_lem :
      let line = pin_no pin in
      let e = table line in
      let entry : Entry = record { pin = some pin; hdr = hdr; mode = mode; args = args } in
      attach_irq port_max pin mode hdr args table ≡ (
        if is_pin e.pin pin && ((e.hdr == hdr) && ((e.mode == mode) && (e.args == args)))
        then (ok, table)
        else if is_free e.pin
        then (ok, put_entry table line entry)
        else (busy, table))
  unfolding attach_irq attach_line
  attach_irq_lem =
      let port : leb port_max (pin_port pin) ≡ false = ground arith in
      let small : leb 16 (pin_no pin) ≡ false = ground arith in
      rw (port, line_found (pin_no pin) (omega arith), small) refl

  detach_irq_lem :
      (t : Table)
      → detach_irq port_max pin t
        ≡ (if is_free (t (pin_no pin)).pin then (ok, t) else (ok, put_entry t (pin_no pin) free))
  unfolding detach_irq detach_line
  detach_irq_lem t =
      let port : leb port_max (pin_port pin) ≡ false = ground arith in
      let small : leb 16 (pin_no pin) ≡ false = ground arith in
      rw (port, line_found (pin_no pin) (omega arith), small) refl

  -- For a pin of a port that the chip has, on a free line, attaching succeeds and leaves the
  -- handler in the line's entry, and detaching then succeeds and leaves every entry as it was
  -- before.
  pub detach-attach_irq :
      (i : ℕ)
      → table (pin_no pin) ≡ free
      → let attached = attach_irq port_max pin mode hdr args table in
        let detached = detach_irq port_max pin attached.1 in
        (attached.0 ≡ ok)
        × ((attached.1 (pin_no pin)).hdr ≡ hdr)
        × (detached.0 ≡ ok)
        × (detached.1 i ≡ table i)
  detach-attach_irq i empty =
      let line = pin_no pin in
      let entry : Entry = record { pin = some pin; hdr = hdr; mode = mode; args = args } in
      let a : attach_irq port_max pin mode hdr args table ≡ (ok, put_entry table line entry) =
        attach_irq_lem ∙ rw empty refl in
      let same : (line == line) ≡ true = ground arith in
      let d = detach_irq_lem (put_entry table line entry) in
      let done : detach_irq port_max pin (put_entry table line entry)
          ≡ (ok, put_entry (put_entry table line entry) line free) =
        d ∙ rw same refl in
      rw (a, done) (refl, rw same refl, refl, ground (arith, empty))
