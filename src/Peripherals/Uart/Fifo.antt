-- ===== src/Peripherals/Uart/Fifo.antt =====
-- Bytes through the loopback, by the transactions that the host issues.
use systemc_model.Base.{ltb, if◌then◌else◌, length, length-append, ℕ, zero, suc, ◌+◌, ◌^◌, ◌≤◌}
use systemc_model.Base.{◌<◌, ◌≡◌, refl, sym, ap, ap₂, ◌∙◌, true, ◌&&◌, List, [], ◌∷◌, ◌++◌}
use systemc_model.Base.{arith}
use systemc_model.Base.Bits.{testbit, u8, has_any, testbit-bit_or, testbit-two_pow}
use systemc_model.Tlm.{Txn, word_of}
use systemc_model.Tlm.Laws.{IsWriteOf, carrying-Returns}
use systemc_model.Transactor.Initiator.{
  read_payload, write_payload, read_payload-IsReadOf, write_payload-IsWriteOf,
}
use systemc_model.Peripherals.Uart.{
  Uart, fifo_depth, cr_lbe, cr_rxe, cr_txe, cr_uarten, int_tx, print, loop_back, transmit, receive,
  read_register, write_register, b_transport,
}
use systemc_model.Peripherals.Uart.Laws.{b_transport-read, b_transport-write}
use mathlib.Core.List.{map, append-nil, append_assoc}

-- Each number is written to DR in turn.
unfoldable pub put_all : List ℕ → Uart → Uart
put_all [] s = s
put_all (v ∷ vs) s = put_all vs (b_transport s (write_payload 0x00 v)).0

-- DR is read `n` times: the words that are returned.
unfoldable pub take_all : ℕ → Uart → List ℕ × Uart
take_all zero s = ([], s)
take_all (suc n) s =
    let (s', t) = b_transport s (read_payload 0x00) in
    let (xs, u) = take_all n s' in (word_of t.bytes ∷ xs, u)

abbrev pub All : (ℕ → Type 0) → List ℕ → Type 0
All P [] = Unit
All P (x ∷ xs) = P x × All P xs

-- The control register sends what is transmitted back to the receiver.
abbrev pub IsLoopback : Uart → Type 0
IsLoopback s = (has_any s.cr cr_lbe ≡ true) × (has_any s.cr cr_rxe ≡ true)

-- A write to DR, on all branches: the low byte is printed if the port and its transmitter are
-- enabled; it is appended to the receive FIFO if loopback and receiver are enabled and the FIFO is
-- not full, and is else dropped; the raw transmit interrupt is raised and `drive_irq` woken.
pub write_dr :
    (s : Uart) (v : ℕ) (t : Txn)
    → IsWriteOf 0x00 v t
    → let u = (b_transport s t).0 in
      (u.console ≡ (
        if has_any s.cr cr_uarten && has_any s.cr cr_txe
        then s.console ++ (u8 v ∷ [])
        else s.console))
      × (u.rx ≡ (
          if has_any s.cr cr_lbe && (has_any s.cr cr_rxe && ltb (length s.rx) fifo_depth)
          then s.rx ++ (u8 v ∷ [])
          else s.rx))
      × (testbit u.ris 5 ≡ true)
      × (u.irq_ev ≡ true)
      × (u.cr ≡ s.cr)
unfolding write_register transmit
write_dr s v t w = rw (b_transport-write s 0x00 v t w) (
  ground arith,
  ground arith,
  ground
      (arith, testbit-bit_or (loop_back (u8 v) (print (u8 v) s)).ris int_tx 5, testbit-two_pow 5 5),
  refl,
  ground arith,
)

put_one :
    (s : Uart) (v : ℕ)
    → IsLoopback s
    → length s.rx < fifo_depth
    → v < 2 ^ 32
    → let u = (b_transport s (write_payload 0x00 v)).0 in
      (u.rx ≡ s.rx ++ (u8 v ∷ [])) × IsLoopback u
put_one s v l room small = ground (
  arith,
  write_dr s v (write_payload 0x00 v)
      (write_payload-IsWriteOf 0x00 v (omega arith) (omega arith) small),
)

put_all_rx :
    (vs : List ℕ) (s : Uart)
    → IsLoopback s
    → length s.rx + length vs ≤ fifo_depth
    → All (λ v. v < 2 ^ 32) vs
    → ((put_all vs s).rx ≡ s.rx ++ map u8 vs) × IsLoopback (put_all vs s)
unfolding put_all
put_all_rx [] s l room small = (sym (append-nil s.rx), l)
put_all_rx (v ∷ vs) s l room small =
    let one = put_one s v l (omega arith) small.0 in
    let u : Uart = (b_transport s (write_payload 0x00 v)).0 in
    let longer : length u.rx ≡ length s.rx + 1 =
      ap (length {A = ℕ}) one.0 ∙ length-append s.rx (u8 v ∷ []) ∙ omega arith in
    let rest = put_all_rx vs u one.1 (omega arith) small.1 in
    (
      rest.0
          ∙ ap (λ (xs : List ℕ). xs ++ map u8 vs) one.0
          ∙ append_assoc s.rx (u8 v ∷ []) (map u8 vs),
      rest.1,
    )

take_one :
    (s : Uart) (x : ℕ) (rest : List ℕ)
    → s.rx ≡ x ∷ rest
    → x < 256
    → let (s', t) = b_transport s (read_payload 0x00) in (word_of t.bytes ≡ x) × (s'.rx ≡ rest)
unfolding read_register receive
take_one s x rest e small =
    let r = read_payload-IsReadOf 0x00 (omega arith) (omega arith) in
    ground (
      arith,
      b_transport-read s 0x00 (read_payload 0x00) r,
      carrying-Returns 0x00 x 20 (read_payload 0x00) r,
    )

take_all_rx :
    (xs : List ℕ) (s : Uart)
    → s.rx ≡ xs
    → All (λ x. x < 256) xs
    → ((take_all (length xs) s).0 ≡ xs) × ((take_all (length xs) s).1.rx ≡ [])
unfolding take_all
take_all_rx [] s e small = (refl, e)
take_all_rx (x ∷ xs) s e small =
    let one = take_one s x xs e small.0 in
    let rest = take_all_rx xs (b_transport s (read_payload 0x00)).0 one.1 small.1 in
    (ap₂ ◌∷◌ one.0 rest.0, rest.1)

bytes_small : (vs : List ℕ) → All (λ x. x < 256) (map u8 vs)
bytes_small [] = tt
bytes_small (v ∷ vs) = (omega arith, bytes_small vs)

length-map : (vs : List ℕ) → length (map u8 vs) ≡ length vs
length-map [] = refl
length-map (v ∷ vs) = ap suc (length-map vs)

-- With the loopback on and the receive FIFO empty, up to sixteen words that are written to DR are
-- read back from DR in the order in which they were written, each as its low byte, and leave the
-- FIFO empty.
pub loopback_fifo :
    (vs : List ℕ) (s : Uart)
    → IsLoopback s
    → s.rx ≡ []
    → length vs ≤ 16
    → All (λ v. v < 2 ^ 32) vs
    → let (xs, u) = take_all (length vs) (put_all vs s) in (xs ≡ map u8 vs) × (u.rx ≡ [])
loopback_fifo vs s l e few small =
    let none_yet : length s.rx ≡ 0 = ap (length {A = ℕ}) e in
    let put = put_all_rx vs s l (omega arith) small in
    rw (← length-map vs) (
      take_all_rx (map u8 vs) (put_all vs s) (put.0 ∙ ap (λ (xs : List ℕ). xs ++ map u8 vs) e)
        (bytes_small vs))
