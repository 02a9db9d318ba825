-- ===== src/Peripherals/SysCtrl/Laws.antt =====
-- The system control block as a TLM target, and what a write does to later reads.
use systemc_model.Base.{◌==◌, if◌then◌else◌, ℕ, ◌^◌, ◌≤◌, ◌<◌, ◌≡◌, ◌≢◌, ◌&&◌, arith}
use systemc_model.Base.Bits.{u32}
use systemc_model.Tlm.{Txn, IsSameRequest, IsTarget, finish, incomplete}
use systemc_model.Tlm.Laws.{pack-word, unpack-word, pack-answers, unpack-answers}
use systemc_model.Tlm.Laws.{pack-IsSameRequest, unpack-IsSameRequest, pack-delay, unpack-delay}
use systemc_model.Tlm.Laws.{IsReadOf, IsWriteOf, Returns, carrying, carrying-Returns}
use systemc_model.Peripherals.SysCtrl.{SysCtrl, b_transport, read_register, write_register}

b_transport_answers : (s : SysCtrl) (t : Txn) → (b_transport s t).1.response ≢ incomplete
unfolding b_transport
b_transport_answers s t =
    ground (arith, pack-answers t (read_register s (u32 t.address)), unpack-answers t)

b_transport_keeps : (s : SysCtrl) (t : Txn) → IsSameRequest t (b_transport s t).1
unfolding b_transport
b_transport_keeps s t =
    ground (arith, pack-IsSameRequest t (read_register s (u32 t.address)), unpack-IsSameRequest t)

b_transport_delays : (s : SysCtrl) (t : Txn) → t.delay ≤ (b_transport s t).1.delay
unfolding b_transport
b_transport_delays s t =
    ground (arith, pack-delay t (read_register s (u32 t.address)), unpack-delay t)

pub b_transport-IsTarget : IsTarget b_transport
b_transport-IsTarget = record {
  answers = b_transport_answers;
  keeps = b_transport_keeps;
  delays = b_transport_delays;
}

-- The registers hold words.
pub record IsWordState (s : SysCtrl) : Type 0 where
  pub sys_small : s.sys_hz < 2 ^ 32
  pub pclk_small : s.pclk_hz < 2 ^ 32
  pub scratch_small : s.scratch < 2 ^ 32

pub b_transport-read :
    (s : SysCtrl) (off : ℕ) (t : Txn)
    → IsReadOf off t
    → b_transport s t ≡ (s, finish 10 (carrying (read_register s off) t))
unfolding b_transport
b_transport-read s off t r = ground (arith, pack-word t (read_register s off) r.access)

pub b_transport-write :
    (s : SysCtrl) (off v : ℕ) (t : Txn)
    → IsWriteOf off v t
    → b_transport s t ≡ (write_register s off v, finish 10 t)
unfolding b_transport
b_transport-write s off v t w = ground (arith, unpack-word t w.access)

read_register-lt : (s : SysCtrl) (off : ℕ) → IsWordState s → read_register s off < 2 ^ 32
unfolding read_register
read_register-lt s off h = ground arith

-- Writes to SCRATCH are read back, a write to WDT_RST clears the watchdog flag, and no write
-- changes what any other register reads.
read_after_write :
    (s : SysCtrl) (off v off' : ℕ)
    → read_register (write_register s off v) off' ≡ (
        if off == 0x08 && off' == 0x08
        then v
        else if off == 0x18 && off' == 0x18
        then 0
        else read_register s off')
unfolding read_register write_register
read_after_write s off v off' = ground arith

write_register-IsWordState :
    (s : SysCtrl) (off v : ℕ) → v < 2 ^ 32 → IsWordState s → IsWordState (write_register s off v)
unfolding write_register
write_register-IsWordState s off v small h = ground arith

-- A read transaction that follows a write transaction returns the word written if both are at
-- SCRATCH, 0 if both are at WDT_RST, and otherwise what it would have returned before the write.
pub write_then_read :
    (s : SysCtrl) (off v off' : ℕ) (t u : Txn)
    → IsWordState s
    → IsWriteOf off v t
    → IsReadOf off' u
    → Returns
        (if off == 0x08 && off' == 0x08
          then v
          else if off == 0x18 && off' == 0x18
          then 0
          else read_register s off')
        (b_transport (b_transport s t).0 u).1
write_then_read s off v off' t u h w r =
    rw
      (
        b_transport-write s off v t w,
        b_transport-read (write_register s off v) off' u r,
        ← read_after_write s off v off',
      )
      (carrying-Returns off' (read_register (write_register s off v) off') 10 u r (
        read_register-lt (write_register s off v) off'
          (write_register-IsWordState s off v w.small h)))
