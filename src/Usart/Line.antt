-- ===== src/Usart/Line.antt =====
-- The bytes go out in order, and none is lost.
use ch32v303rct6_rtt_mrs.Base.{
  sym, ℕ, zero, suc, ◌-◌, ◌≤◌, ◌<◌, some, List, [], ◌∷◌, ◌++◌, ◌==◌, arith, ◌≡◌, refl, ◌∙◌,
  Bool-cases, inl, inr,
}
use mathlib.Core.List.{append_assoc, append-nil}
use ch32v303rct6_rtt_mrs.Usart.{Port, wait_tc, putc, put_all}

-- A transmitter: `left` polls are left until the byte that is sent is out, `slow` at most; what is
-- written then is added to the bytes on the line.
pub record IsTransmitter {S : Type 0} (port : Port S) (line : S → List ℕ) (left : S → ℕ) (slow : ℕ)
    : Type 0 where
  pub polled : (s : S) → (port.tc s).0 ≡ (left s == 0)
  pub passes : (s : S) → left (port.tc s).1 ≡ left s - 1
  pub quiet : (s : S) → line (port.tc s).1 ≡ line s
  pub sends : (c : ℕ) (s : S) → left s ≡ 0 → line (port.write c s) ≡ line s ++ (c ∷ [])
  pub busy : (c : ℕ) (s : S) → left (port.write c s) ≤ slow

module _ {S : Type 0} (port : Port S) (line : S → List ℕ) (left : S → ℕ) (slow : ℕ)
    (t : IsTransmitter port line left slow) where
  wait_tc_ends :
      (polls : ℕ) (s : S)
      → left s < polls
      → (s' : S) × (wait_tc port polls s ≡ some s') × (left s' ≡ 0) × (line s' ≡ line s)
  unfolding wait_tc
  wait_tc_ends zero s h = absurd (omega arith)
  wait_tc_ends (suc polls) s h = elim (Bool-cases (left s == 0)) [
    | inl done ↦
        ((port.tc s).1, rw (t.polled s, done) refl, ground (arith, t.passes s, done), t.quiet s)
    | inr more ↦
        let (s', run, ready, same) =
          wait_tc_ends polls (port.tc s).1 (ground (arith, t.passes s, more)) in
        (s', rw (t.polled s, more) run, ready, same ∙ t.quiet s)
  ]

  -- On a port where a byte is out after a bounded number of polls of TC, and where what is
  -- written then goes out, a sequence of calls of ch32_putc ends and appends its bytes to the
  -- line, in order and none lost.
  pub put_all-line :
      (polls : ℕ) (cs : List ℕ) (s : S)
      → left s ≤ slow
      → slow < polls
      → (s' : S) × (put_all port polls cs s ≡ some s') × (line s' ≡ line s ++ cs)
  unfolding put_all putc
  put_all-line polls [] s h b = (s, refl, sym (append-nil (line s)))
  put_all-line polls (c ∷ cs) s h b =
      let (s', run, ready, same) = wait_tc_ends polls s (omega arith) in
      let (s'', rest, sent) = put_all-line polls cs (port.write c s') (t.busy c s') b in
      (s'', rw run rest, sent ∙ rw (t.sends c s' ready, same) (append_assoc (line s) (c ∷ []) cs))
