-- ===== src/Spi/Transfer.antt =====
-- A message that is sent in parts is sent like one part.
use native.Mathlib.Nat.{zero-add, suc-add}
use ch32v303rct6_rtt_mrs.Base.{
  ◌&&◌, not, ℕ, zero, suc, ◌+◌, ◌-◌, ◌*◌, ◌≤◌, Bool, true, false, Option, some, List, [], ◌∷◌, ◌++◌,
  ltb, ◌==◌, if◌then◌else◌, arith, ◌≡◌, refl, sym, ap, ◌∙◌, length, take, drop,
}
use ch32v303rct6_rtt_mrs.Spi.{
  Config, xfer, Bus, Message, readwritebyte, transmitreceive, exchange, xfer_loop,
}

module _ {A : Type 0} where
  length-drop : (n : ℕ) (xs : List A) → length (drop n xs) ≡ length xs - n
  length-drop zero xs = omega arith
  length-drop (suc n) [] = omega arith
  length-drop (suc n) (x ∷ xs) = length-drop n xs ∙ omega arith

  drop-drop : (n k : ℕ) (xs : List A) → drop n (drop k xs) ≡ drop (k + n) xs
  drop-drop n zero xs = rw zero-add refl
  drop-drop zero (suc k) [] = rw suc-add refl
  drop-drop (suc n) (suc k) [] = rw suc-add refl
  drop-drop n (suc k) (x ∷ xs) = rw suc-add (drop-drop n k xs)

  take-append-drop : (n : ℕ) (xs : List A) → take n xs ++ drop n xs ≡ xs
  take-append-drop zero xs = refl
  take-append-drop (suc n) [] = refl
  take-append-drop (suc n) (x ∷ xs) = ap (λ l. x ∷ l) (take-append-drop n xs)

  empty_of_length : (xs : List A) → length xs ≡ 0 → xs ≡ []
  empty_of_length [] e = refl
  empty_of_length (x ∷ xs) e = absurd (omega arith)

module _ {S : Type 0} (bus : Bus S) where
  transmitreceive-append :
      (xs ys : List ℕ) (s : S)
      → transmitreceive bus (xs ++ ys) s ≡ (
        (transmitreceive bus xs s).0 ++ (transmitreceive bus ys (transmitreceive bus xs s).1).0,
        (transmitreceive bus ys (transmitreceive bus xs s).1).1,
      )
  unfolding transmitreceive
  transmitreceive-append [] ys s = refl
  transmitreceive-append (x ∷ xs) ys s =
      rw (transmitreceive-append xs ys (readwritebyte bus x s).1) refl

  transmitreceive-none :
      (s : S) → ◌≡◌ {A = Option (List ℕ × S)} (some ([], s)) (some (transmitreceive bus [] s))
  unfolding transmitreceive
  transmitreceive-none s = refl

  xfer_loop-none :
      (fuel : ℕ) (three_wire : Bool) (m : Message) (left : ℕ) (s : S)
      → left ≡ 0
      → xfer_loop bus fuel three_wire m left s ≡ some ([], s)
  unfolding xfer_loop
  xfer_loop-none zero three_wire m left s e = rw e refl
  xfer_loop-none (suc fuel) three_wire m left s e = rw e refl

  xfer_loop-step :
      (fuel : ℕ) (three_wire : Bool) (m : Message) (left : ℕ) (s s1 s2 : S) (now later : List ℕ)
      → (left == 0) ≡ false
      → exchange bus three_wire m (m.length - left) (if ltb 65535 left then 65535 else left) s
        ≡ (now, s1)
      → xfer_loop bus fuel three_wire m (left - (if ltb 65535 left then 65535 else left)) s1
        ≡ some (later, s2)
      → xfer_loop bus (suc fuel) three_wire m left s ≡ some (now ++ later, s2)
  unfolding xfer_loop
  xfer_loop-step fuel three_wire m left s s1 s2 now later a c d =
      rw (a, c, d) (ap (λ (r : List ℕ × S). some (r.0 ++ later, s2)) c)

  exchange-both :
      (three_wire : Bool) (m : Message) (bytes : List ℕ) (done n : ℕ) (s : S)
      → m.send ≡ some bytes
      → m.receives ≡ true
      → exchange bus three_wire m done n s ≡ transmitreceive bus (take n (drop done bytes)) s
  unfolding exchange
  exchange-both three_wire m bytes done n s a b = rw (a, b) refl

  xfer_loop-both :
      (fuel : ℕ) (three_wire : Bool) (m : Message) (bytes : List ℕ) (left : ℕ) (s : S)
      → m.send ≡ some bytes
      → m.receives ≡ true
      → length bytes ≡ m.length
      → left ≤ m.length
      → left ≤ 65535 * fuel
      → xfer_loop bus fuel three_wire m left s
        ≡ some (transmitreceive bus (drop (m.length - left) bytes) s)
  xfer_loop-both fuel three_wire m bytes zero s a b e h f =
      let empty =
        empty_of_length (drop (m.length - 0) bytes)
          (length-drop (m.length - 0) bytes ∙ omega (arith, e)) in
      xfer_loop-none fuel three_wire m 0 s refl ∙ rw empty (transmitreceive-none s)
  xfer_loop-both zero three_wire m bytes (suc left) s a b e h f = absurd (omega arith)
  xfer_loop-both (suc fuel) three_wire m bytes (suc left) s a b e h f =
      let n = if ltb 65535 (suc left) then 65535 else suc left in
      let part : (1 ≤ n) × (n ≤ suc left) × (suc left - n ≤ 65535 * fuel) = ground arith in
      let rest = drop (m.length - suc left) bytes in
      let s' = (transmitreceive bus (take n rest) s).1 in
      let ih =
        xfer_loop-both fuel three_wire m bytes (suc left - n) s' a b e (omega arith) part.2 in
      let onward : drop (m.length - (suc left - n)) bytes ≡ drop n rest =
        ap (λ (k : ℕ). drop k bytes) (omega arith)
        ∙ sym (drop-drop n (m.length - suc left) bytes) in
      let step =
        xfer_loop-step fuel three_wire m (suc left) s s' (transmitreceive bus (drop n rest) s').1
          (transmitreceive bus (take n rest) s).0 (transmitreceive bus (drop n rest) s').0
          (ground arith) (exchange-both three_wire m bytes (m.length - suc left) n s a b)
          (ih ∙ ap (λ (l : List ℕ). some (transmitreceive bus l s')) onward) in
      let whole =
        sym (transmitreceive-append (take n rest) (drop n rest) s)
        ∙ ap (λ (l : List ℕ). transmitreceive bus l s) (take-append-drop n rest) in
      step ∙ ap some whole

  -- spi_xfer of a message that sends and receives, with a buffer of the message's length and
  -- enough rounds for parts of 65535 bytes, ends and is one exchange of all its bytes, between
  -- the chip select taken and released as the message and the device ask.
  pub xfer-transmitreceive :
      (fuel : ℕ) (c : Config) (m : Message) (bytes : List ℕ) (s : S)
      → m.send ≡ some bytes
      → m.receives ≡ true
      → length bytes ≡ m.length
      → m.length ≤ 65535 * fuel
      → let taken = if m.cs_take && not c.no_cs then bus.select c.cs_high s else s in
        let r = transmitreceive bus bytes taken in
        xfer bus fuel c m s
        ≡ some (r.0, if m.cs_release && not c.no_cs then bus.select (not c.cs_high) r.1 else r.1)
  unfolding xfer
  xfer-transmitreceive fuel c m bytes s a b e f =
      let taken = if m.cs_take && not c.no_cs then bus.select c.cs_high s else s in
      let start : m.length - m.length ≡ 0 = omega arith in
      let loop =
        xfer_loop-both fuel c.three_wire m bytes m.length taken a b e (omega arith) f
        ∙ ap (λ (k : ℕ). some (transmitreceive bus (drop k bytes) taken)) start in
      rw (loop, xfer) refl
