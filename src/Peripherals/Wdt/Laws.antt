-- ===== src/Peripherals/Wdt/Laws.antt =====
-- The watchdog as a TLM target, what a transaction does to its registers, and the lock.
use systemc_model.Base.{ℕ, ◌≤◌, ◌≡◌, ◌≢◌, ◌⊎◌, true, false, arith}
use systemc_model.Base.Bits.{u32}
use systemc_model.Tlm.{Command, Txn, IsSameRequest, IsTarget, word_of, finish, incomplete}
use systemc_model.Tlm.Laws.{IsWordAccess, pack-word, unpack-word, pack-answers, unpack-answers}
use systemc_model.Tlm.Laws.{pack-IsSameRequest, unpack-IsSameRequest, pack-delay, unpack-delay}
use systemc_model.Tlm.Laws.{IsReadOf, IsWriteOf, carrying, unpack-cases}
use systemc_model.Peripherals.Wdt.{Wdt, b_transport, read_register, write_register, wdt_unlock}

b_transport_answers : (s : Wdt) (t : Txn) → (b_transport s t).1.response ≢ incomplete
unfolding b_transport
b_transport_answers s t =
    ground (arith, pack-answers t (read_register s (u32 t.address)), unpack-answers t)

b_transport_keeps : (s : Wdt) (t : Txn) → IsSameRequest t (b_transport s t).1
unfolding b_transport
b_transport_keeps s t =
    ground (arith, pack-IsSameRequest t (read_register s (u32 t.address)), unpack-IsSameRequest t)

b_transport_delays : (s : Wdt) (t : Txn) → t.delay ≤ (b_transport s t).1.delay
unfolding b_transport
b_transport_delays s t =
    ground (arith, pack-delay t (read_register s (u32 t.address)), unpack-delay t)

pub b_transport-IsTarget : IsTarget b_transport
b_transport-IsTarget = record {
  answers = b_transport_answers;
  keeps = b_transport_keeps;
  delays = b_transport_delays;
}

pub b_transport-read :
    (s : Wdt) (off : ℕ) (t : Txn)
    → IsReadOf off t
    → b_transport s t ≡ (s, finish 20 (carrying (read_register s off) t))
unfolding b_transport
b_transport-read s off t r = ground (arith, pack-word t (read_register s off) r.access)

pub b_transport-write :
    (s : Wdt) (off v : ℕ) (t : Txn)
    → IsWriteOf off v t
    → b_transport s t ≡ (write_register s off v, finish 20 t)
unfolding b_transport
b_transport-write s off v t w = ground (arith, unpack-word t w.access)

-- A transaction changes the registers only as the write of one word.
pub b_transport_effect :
    (s : Wdt) (t : Txn)
    → ((b_transport s t).0 ≡ s)
      ⊎ (t.command ≡ Command.write)
        × IsWordAccess t
        × ((b_transport s t).0 ≡ write_register s (u32 t.address) (word_of t.bytes))
unfolding b_transport
b_transport_effect s t = ground (arith, unpack-cases t)

-- While the watchdog is locked, no transaction changes it, but for a write of the key to LOCK, which
-- opens the lock and changes nothing else.
pub locked_guard :
    (s : Wdt) (t : Txn)
    → s.locked ≡ true
    → ((b_transport s t).0 ≡ s)
      ⊎ (t.command ≡ Command.write)
        × IsWordAccess t
        × (u32 t.address ≡ 0xC00)
        × (word_of t.bytes ≡ wdt_unlock)
        × ((b_transport s t).0 ≡ record s { locked = false })
unfolding write_register
locked_guard s t h = ground (arith, b_transport_effect s t)
