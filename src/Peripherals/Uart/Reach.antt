-- ===== src/Peripherals/Uart/Reach.antt =====
-- The serial port as a state machine: every state that bus accesses, reset and wake-ups bring about.
use systemc_model.Base.{leb, ◌==◌, length, length-append, ℕ, ◌^◌, ◌≤◌, ◌<◌, bit_and, bit_or}
use systemc_model.Base.{◌≡◌, refl, ap, ◌≢◌, ◌↔◌, Bool, true, false, ◌&&◌, ◌||◌, List, [], ◌∷◌}
use systemc_model.Base.{◌++◌, arith}
use systemc_model.Base.Bits.{testbit, u32, u8, not_word, has_any, testbit-bit_and}
use systemc_model.Base.Bits.{testbit-bit_or, testbit-zero, testbit-not_word, bit_or-lt}
use systemc_model.Base.Bits.{bit_and-le, testbit-two_pow, bit_and_low_mask, testbit_if_or}
use systemc_model.Tlm.{Txn, IsBytes, word_of}
use systemc_model.Tlm.Laws.{word_of-lt}
use systemc_model.Peripherals.Uart.{
  Uart, uart_pl011, fifo_depth, int_rx, int_tx, drive_irq, on_reset, is_empty, flags, transmit,
  receive, write_register, b_transport,
}
use systemc_model.Peripherals.Uart.Laws.{b_transport_effect}

pub data Step (s : Uart) : Uart → Type 0 where
  access : (t : Txn) → IsBytes t.bytes → Step s (b_transport s t).0
  reset : (level : Bool) → Step s (on_reset level s)
  wake : Step s (drive_irq s)

pub data Reach : Uart → Type 0 where
  start : Reach uart_pl011
  later : {s u : Uart} → Reach s → Step s u → Reach u

-- The transmit FIFO stays empty and the receive FIFO within its depth, the raw receive interrupt
-- stands only while there is a byte to read, the registers hold words, and unless a notification
-- is pending the interrupt line is high exactly if an unmasked interrupt is raised.
pub record IsValid (s : Uart) : Type 0 where
  pub tx_empty : s.tx ≡ []
  pub rx_fits : length s.rx ≤ fifo_depth
  pub rx_raised : testbit s.ris 4 ≡ true → s.rx ≢ []
  pub cr_small : s.cr < 2 ^ 32
  pub lcrh_small : s.lcrh < 2 ^ 32
  pub ibrd_small : s.ibrd < 2 ^ 16
  pub fbrd_small : s.fbrd < 2 ^ 6
  pub imsc_small : s.imsc < 2 ^ 32
  pub ris_small : s.ris < 2 ^ 32
  pub irq_settled : s.irq_ev ≡ false → s.irq ≡ has_any s.ris s.imsc

append-ne-nil : (xs : List ℕ) (x : ℕ) → xs ++ (x ∷ []) ≢ []
append-ne-nil [] x e = cc
append-ne-nil (y ∷ ys) x e = cc

clear_rx : (a : ℕ) → testbit (bit_and a (not_word int_rx)) 4 ≡ false
clear_rx a =
    ground
      (arith, testbit-bit_and a (not_word int_rx) 4, testbit-not_word int_rx 4, testbit-two_pow 4 4)

raise_tx : (a : ℕ) → testbit (bit_or a int_tx) 4 ≡ testbit a 4
raise_tx a = ground (arith, testbit-bit_or a int_tx 4, testbit-two_pow 5 4)

transmit-IsValid : (s : Uart) (ch : ℕ) → IsValid s → IsValid (transmit ch s)
unfolding transmit
transmit-IsValid s ch h = ground (
  arith,
  append-ne-nil s.rx ch,
  length-append s.rx (ch ∷ []),
  raise_tx s.ris,
  raise_tx (bit_or s.ris int_rx),
  bit_or-lt 32 s.ris int_rx,
  bit_or-lt 32 s.ris int_tx,
  bit_or-lt 32 (bit_or s.ris int_rx) int_tx,
)

receive-IsValid : (s : Uart) → IsValid s → IsValid (receive s).1
unfolding receive
receive-IsValid s h = ground (arith, clear_rx s.ris, bit_and-le s.ris (not_word int_rx))

clear_bits : (a v k : ℕ) → testbit (bit_and a (not_word v)) k ≡ true → testbit a k ≡ true
clear_bits a v k h = ground (arith, testbit-bit_and a (not_word v) k)

write_register-IsValid :
    (s : Uart) (off v : ℕ) → v < 2 ^ 32 → IsValid s → IsValid (write_register s off v)
unfolding write_register
write_register-IsValid s off v small h = ground (
  arith,
  transmit-IsValid s (u8 v) h,
  bit_and_low_mask 16 v,
  bit_and_low_mask 6 v,
  clear_bits s.ris v 4,
  bit_and-le s.ris (not_word v),
)

Step-IsValid : {s u : Uart} → Step s u → IsValid s → IsValid u
unfolding drive_irq on_reset
Step-IsValid {s} (access t h) v = ground (
  arith,
  b_transport_effect s t,
  word_of-lt t.bytes h,
  receive-IsValid s v,
  write_register-IsValid s (u32 t.address) (word_of t.bytes),
)
Step-IsValid (reset level) v = ground (arith, testbit-two_pow 5 4)
Step-IsValid wake v = ground arith

start-IsValid : IsValid uart_pl011
start-IsValid = record {
  tx_empty = refl;
  rx_fits = omega arith;
  rx_raised = λ e. ground (arith, testbit-two_pow 5 4);
  cr_small = omega arith;
  lcrh_small = omega arith;
  ibrd_small = omega arith;
  fbrd_small = omega arith;
  imsc_small = omega arith;
  ris_small = omega arith;
  irq_settled = λ e. refl;
}

-- In every state that the serial port can reach, the transmit FIFO is empty and the receive FIFO
-- within its depth, the raw receive interrupt stands only while there is a byte to read, the
-- registers keep their widths, and unless a notification is pending the interrupt line is high
-- exactly if an unmasked interrupt is raised.
pub uart_always-IsValid : {s : Uart} → Reach s → IsValid s
uart_always-IsValid start = start-IsValid
uart_always-IsValid (later r st) = Step-IsValid st (uart_always-IsValid r)

flags_bits :
    (s : Uart) (k : ℕ)
    → testbit (flags s) k ≡ (
        (((is_empty s.tx && (7 == k)) || (leb 16 (length s.tx) && (5 == k)))
          || (is_empty s.rx && (4 == k)))
        || (leb 16 (length s.rx) && (6 == k)))
unfolding flags
flags_bits s k = simp (testbit_if_or, testbit-zero)

is_empty_iff : (xs : List ℕ) → (is_empty xs ≡ true) ↔ (xs ≡ [])
is_empty_iff [] = ground arith
is_empty_iff (x ∷ xs) = ground arith

-- In every reachable state FR shows the transmit FIFO as empty and never as full or busy, the
-- receive FIFO as empty exactly if it holds no byte, and as full exactly if it holds sixteen.
pub flags-Reach :
    {s : Uart}
    → Reach s
    → (testbit (flags s) 7 ≡ true)
      × (testbit (flags s) 5 ≡ false)
      × (testbit (flags s) 3 ≡ false)
      × ((testbit (flags s) 4 ≡ true) ↔ (s.rx ≡ []))
      × ((testbit (flags s) 6 ≡ true) ↔ (length s.rx ≡ 16))
flags-Reach {s} r =
    let v : IsValid s = uart_always-IsValid r in
    let empty : is_empty s.tx ≡ true = (is_empty_iff s.tx).1 v.tx_empty in
    let none_sent : length s.tx ≡ 0 = ap (length {A = ℕ}) v.tx_empty in
    (
      ground (arith, flags_bits s 7),
      ground (arith, flags_bits s 5),
      ground (arith, flags_bits s 3),
      ground (arith, flags_bits s 4, is_empty_iff s.rx),
      ground (arith, flags_bits s 6),
    )
