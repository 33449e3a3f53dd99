-- ===== src/Can/Frames.antt =====
-- A frame on its way from a mailbox of one controller to a receive FIFO of another.
use ch32v303rct6_rtt_mrs.Base.{
  Bool-cases, inl, inr, true, false, zero, suc, ◌≢◌, ℕ, ◌+◌, ◌*◌, ◌/◌, ◌%◌, ◌^◌, ◌<◌, arith, ◌≡◌,
  refl, if◌then◌else◌, ◌==◌,
}
use mathlib.Core.Path.{subst}
use ch32v303rct6_rtt_mrs.Can.{
  bit, Base, Payload, Msg, Mailbox, Fifo, Regs, ok, fill_mailbox, send_rtmsg, read_fifo, recv_rtmsg,
  tx_id, hdr_of, payload_of, low_word, high_word,
}

-- What the bus carries: the identifier field without the request bit, the length, and the bytes.
pub record IsDelivered (box : Mailbox) (f : Fifo) : Type 0 where
  pub same_id : f.rxmir ≡ box.txmir / 2 * 2
  pub same_len : f.rxmdtr % 16 ≡ box.txmdtr % 16
  pub same_low : f.rxmdlr ≡ box.txmdlr
  pub same_high : f.rxmdhr ≡ box.txmdhr

-- The bit-fields of `rt_can_msg`, and its bytes.
pub record IsPayload (p : Payload) : Type 0 where
  pub byte0 : p.d0 < 256
  pub byte1 : p.d1 < 256
  pub byte2 : p.d2 < 256
  pub byte3 : p.d3 < 256
  pub byte4 : p.d4 < 256
  pub byte5 : p.d5 < 256
  pub byte6 : p.d6 < 256
  pub byte7 : p.d7 < 256

pub record IsMsg (m : Msg) : Type 0 where
  pub id_in : m.id < 2 ^ 29
  pub ide_in : m.ide < 2
  pub rtr_in : m.rtr < 2
  pub content_in : IsPayload m.content

payload-words :
    (p : Payload) (f : Fifo)
    → IsPayload p
    → f.rxmdlr ≡ low_word p
    → f.rxmdhr ≡ high_word p
    → payload_of f ≡ p
payload-words p f b low high = ground arith

-- What the receiver makes of a message: a standard identifier keeps eleven bits, a length four.
abbrev pub received : Base → Msg → Fifo → ℕ → Msg
received base m f old = record {
  id = if m.ide == 0 then m.id % 2 ^ 11 else m.id;
  ide = m.ide;
  rtr = m.rtr;
  len = m.len % 16;
  content = m.content;
  hdr_index = hdr_of base (f.rxmdtr / 2 ^ 8 % 256) old;
}

send_rtmsg-empty :
    (m : Msg) (k : ℕ) (r : Regs)
    → k < 3
    → bit r.tstatr (26 + k) ≡ true
    → ((send_rtmsg m k r).0 ≡ ok) × ((send_rtmsg m k r).1.mailbox k ≡ fill_mailbox m (r.mailbox k))
unfolding send_rtmsg
send_rtmsg-empty m zero r h e = rw e (refl, refl)
send_rtmsg-empty m (suc zero) r h e = rw e (refl, refl)
send_rtmsg-empty m (suc (suc zero)) r h e = rw e (refl, refl)
send_rtmsg-empty m (suc (suc (suc k))) r h e = absurd (omega arith)

read_fifo-fill_mailbox :
    (base : Base) (m old : Msg) (box : Mailbox) (f : Fifo)
    → IsMsg m
    → IsDelivered (fill_mailbox m box) f
    → read_fifo base f old ≡ received base m f old.hdr_index
unfolding read_fifo fill_mailbox
read_fifo-fill_mailbox base m old box f b d =
    let whole = payload-words m.content f b.content_in d.same_low d.same_high in
    let length : f.rxmdtr % 16 ≡ m.len % 16 = omega (arith, d.same_len) in
    let head : f.rxmir ≡ tx_id m = ground (arith, d.same_id) in
    elim (Bool-cases (m.ide == 0)) [
      | inl std ↦ rw (whole, length) (ground (arith, head))
      | inr ext ↦ rw (whole, length) (ground (arith, head))
    ]

module _ (message_pending : Regs → ℕ → ℕ) (fifo_release : Regs → ℕ → Regs) where
  -- _can_send_rtmsg to an empty mailbox of three answers RT_EOK, and where the mailbox's frame
  -- then stands in a receive FIFO that is not empty, _can_recv_rtmsg answers RT_EOK, releases the
  -- FIFO and takes out the message that was sent: its identifier, cut to eleven bits where it is
  -- a standard one, its two flags, its length in four bits and its eight bytes.
  pub recv_rtmsg-send_rtmsg :
      (base : Base) (m old : Msg) (k j : ℕ) (r s : Regs)
      → IsMsg m
      → k < 3
      → bit r.tstatr (26 + k) ≡ true
      → IsDelivered ((send_rtmsg m k r).1.mailbox k) (s.fifo j)
      → message_pending s j ≢ 0
      → ((send_rtmsg m k r).0 ≡ ok)
        × (recv_rtmsg message_pending fifo_release base j old s
            ≡ (ok, received base m (s.fifo j) old.hdr_index, fifo_release s j))
  unfolding recv_rtmsg
  recv_rtmsg-send_rtmsg base m old k j r s b small empty d pending =
      let (sent, box) = send_rtmsg-empty m k r small empty in
      let d' : IsDelivered (fill_mailbox m (r.mailbox k)) (s.fifo j) =
        subst (λ b. IsDelivered b (s.fifo j)) box d in
      let some_left : (message_pending s j == 0) ≡ false = ground arith in
      (sent, rw (some_left, read_fifo-fill_mailbox base m old (r.mailbox k) (s.fifo j) b d') refl)
