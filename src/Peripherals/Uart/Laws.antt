-- ===== src/Peripherals/Uart/Laws.antt =====
-- The serial port as a TLM target, and what a transaction does to its registers.
use systemc_model.Base.{ℕ, ◌≤◌, ◌≡◌, ◌≢◌, ◌⊎◌, List, ◌∷◌, arith}
use systemc_model.Base.Bits.{u32}
use systemc_model.Tlm.{Command, Txn, IsSameRequest, IsTarget, word_of, tlm_pack_u32, finish}
use systemc_model.Tlm.{burst_error, incomplete}
use systemc_model.Tlm.Laws.{tlm_check_u32_lem, pack-word, unpack-word, pack-answers}
use systemc_model.Tlm.Laws.{unpack-answers, pack-IsSameRequest, unpack-IsSameRequest}
use systemc_model.Tlm.Laws.{pack-delay, unpack-delay, IsReadOf, IsWriteOf, carrying}
use systemc_model.Tlm.Laws.{unpack-cases}
use systemc_model.Peripherals.Uart.{Uart, b_transport, receive, read_register, write_register}

b_transport_answers : (s : Uart) (t : Txn) → (b_transport s t).1.response ≢ incomplete
unfolding b_transport
b_transport_answers s t =
    ground (arith, pack-answers t (read_register s (u32 t.address)).0, unpack-answers t)

b_transport_keeps : (s : Uart) (t : Txn) → IsSameRequest t (b_transport s t).1
unfolding b_transport
b_transport_keeps s t =
    ground (arith, pack-IsSameRequest t (read_register s (u32 t.address)).0, unpack-IsSameRequest t)

b_transport_delays : (s : Uart) (t : Txn) → t.delay ≤ (b_transport s t).1.delay
unfolding b_transport
b_transport_delays s t =
    ground (arith, pack-delay t (read_register s (u32 t.address)).0, unpack-delay t)

pub b_transport-IsTarget : IsTarget b_transport
b_transport-IsTarget = record {
  answers = b_transport_answers;
  keeps = b_transport_keeps;
  delays = b_transport_delays;
}

pub b_transport-read :
    (s : Uart) (off : ℕ) (t : Txn)
    → IsReadOf off t
    → let (v, s') = read_register s off in b_transport s t ≡ (s', finish 20 (carrying v t))
unfolding b_transport
b_transport-read s off t r = ground (arith, pack-word t (read_register s off).0 r.access)

pub b_transport-write :
    (s : Uart) (off v : ℕ) (t : Txn)
    → IsWriteOf off v t
    → b_transport s t ≡ (write_register s off v, finish 20 t)
unfolding b_transport
b_transport-write s off v t w = ground (arith, unpack-word t w.access)

-- A transaction changes the state only by popping the receive FIFO, or as the write of one word.
pub b_transport_effect :
    (s : Uart) (t : Txn)
    → ((b_transport s t).0 ≡ s)
      ⊎ ((b_transport s t).0 ≡ (receive s).1)
      ⊎ ((b_transport s t).0 ≡ write_register s (u32 t.address) (word_of t.bytes))
unfolding b_transport read_register
b_transport_effect s t = ground (arith, unpack-cases t)

-- A read of DR takes the oldest byte off the FIFO also where the access is refused: a read that
-- is not of four bytes gets the burst error, and the byte is gone.
pub dr_lost :
    (s : Uart) (t : Txn) (x : ℕ) (rest : List ℕ)
    → t.command ≡ Command.read
    → u32 t.address ≡ 0x00
    → t.data_length ≢ 4
    → s.rx ≡ x ∷ rest
    → ((b_transport s t).1 ≡ record t { response = burst_error }) × ((b_transport s t).0.rx ≡ rest)
unfolding b_transport read_register receive tlm_pack_u32
dr_lost s t x rest r a l e = ground (arith, tlm_check_u32_lem t)
