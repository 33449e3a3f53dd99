-- ===== src/Usart/Tests.antt =====
-- A port whose bytes are out after two polls.
use ch32v303rct6_rtt_mrs.Base.{ℕ, ◌-◌, false, some, List, [], ◌∷◌, ◌++◌, ◌==◌, arith, ◌≡◌, refl}
use ch32v303rct6_rtt_mrs.Usart.{Port, put_all}
use ch32v303rct6_rtt_mrs.Usart.Line.{IsTransmitter, put_all-line}

abbrev Board : Type 0
Board = List ℕ × ℕ

abbrev wire : Board → List ℕ
wire b = b.0

abbrev polls_left : Board → ℕ
polls_left b = b.1

abbrev two_polls : Port Board
two_polls = record {
  apb2_clock = λ n b. b;
  apb1_clock = λ n b. b;
  pin_remap = λ n b. b;
  gpio_init = λ p n v m b. b;
  init = λ i b. b;
  enable = λ on b. b;
  tc = λ b. (b.1 == 0, (b.0, b.1 - 1));
  rxne = λ b. false;
  write = λ c b. (b.0 ++ (c ∷ []), 2);
  read = λ b. (0, b);
  it_config = λ on b. b;
  enable_irq = λ on b. b;
  it_status = λ b. false;
  clear_pending = λ b. b;
}

two_polls-IsTransmitter : IsTransmitter two_polls wire polls_left 2
two_polls-IsTransmitter = record {
  polled = λ b. refl;
  passes = λ b. refl;
  quiet = λ b. refl;
  sends = λ c b e. refl;
  busy = λ c b. omega arith;
}

put_all-line_example :
    (b : Board) × (put_all two_polls 3 (0xAA ∷ 0x55 ∷ []) ([], 1) ≡ some b)
    × (wire b ≡ [] ++ (0xAA ∷ 0x55 ∷ []))
put_all-line_example =
    put_all-line two_polls wire polls_left 2 two_polls-IsTransmitter 3 (0xAA ∷ 0x55 ∷ []) ([], 1)
      (omega arith) (omega arith)
