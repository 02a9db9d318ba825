-- ===== src/Peripherals/Sram/Laws.antt =====
-- The memory as a TLM target, and when an access stays inside it.
use systemc_model.Base.{length, ℕ, ◌+◌, ◌%◌, ◌^◌, ◌≤◌, ◌<◌, ◌≡◌, ◌≢◌, ◌↔◌, true, false, arith}
use systemc_model.Base.Bits.{u32, bit_and_low_mask}
use systemc_model.Tlm.{Command, Txn, IsSameRequest, IsTarget, incomplete}
use systemc_model.Tlm.Laws.{length-memcpy}
use systemc_model.Peripherals.Sram.{Sram, refuses, b_transport}

b_transport_answers : (s : Sram) (t : Txn) → (b_transport s t).1.response ≢ incomplete
unfolding b_transport
b_transport_answers s t = ground arith

b_transport_keeps : (s : Sram) (t : Txn) → IsSameRequest t (b_transport s t).1
unfolding b_transport
b_transport_keeps s t = ground (arith, length-memcpy 4 t.bytes 0 s.mem (u32 t.address))

b_transport_delays : (s : Sram) (t : Txn) → t.delay ≤ (b_transport s t).1.delay
unfolding b_transport
b_transport_delays s t = ground arith

pub b_transport-IsTarget : IsTarget b_transport
b_transport-IsTarget = record {
  answers = b_transport_answers;
  keeps = b_transport_keeps;
  delays = b_transport_delays;
}

-- The memory keeps its size.
pub length-mem : (s : Sram) (t : Txn) → length (b_transport s t).0.mem ≡ length s.mem
unfolding b_transport
length-mem s t = ground (arith, length-memcpy 4 s.mem (u32 t.address) t.bytes 0)

-- A memory of less than 4 GiB is overrun by a transaction exactly if it is a read or a write of four
-- bytes at the last word of the 32-bit address space: there the sum of the guard wraps to 0. Every
-- other transaction stays inside the memory.
pub overrun_exactly :
    (s : Sram) (t : Txn)
    → length s.mem < 2 ^ 32
    → s.overrun ≡ false
    → ((b_transport s t).0.overrun ≡ true)
      ↔ ((u32 t.address ≡ 0xFFFF_FFFC) × (t.data_length ≡ 4) × (t.command ≢ Command.ignore))
unfolding b_transport
overrun_exactly s t small clean = ground (arith, bit_and_low_mask 2 (u32 t.address))

pub accepts :
    (s : Sram) (a : ℕ) → a % 4 ≡ 0 → a + 4 ≤ length s.mem → a + 4 < 2 ^ 32 → refuses s a 4 ≡ false
unfolding refuses
accepts s a aligned fits small = ground (arith, bit_and_low_mask 2 a)
