-- ===== src/Bridges/PinBridge/Laws.antt =====
-- The pin bridge as a target, and what it leaves on the pins.
use systemc_model.Base.{ℕ, ◌+◌, ◌≡◌, refl, ◌≢◌, ◌⊎◌, true, false, arith}
use systemc_model.Base.Bits.{u32}
use systemc_model.Tlm.{Command, Txn, IsTarget, word_bytes, word_of, ok}
use systemc_model.Tlm.Laws.{length-memcpy}
use systemc_model.Soc
use systemc_model.Soc.Safety.{soc-IsTarget}
use systemc_model.Bridges.PinBridge.{
  BusPins, PinState, bus_read, bus_write, b_transport, clock_period,
}

-- Neither strobe is asserted.
pub record IsIdle {P : Type 0} (s : PinState P) : Type 0 where
  pub no_read : s.pins.read_en ≡ false
  pub no_write : s.pins.write_en ≡ false

module _ {P : Type 0} (run : ℕ → BusPins → P → P) (data_out : P → ℕ) where
  -- The bridge is a target, whatever model stands behind its pins.
  pub pin_bridge-IsTarget : IsTarget (b_transport run data_out)
  unfolding b_transport
  pin_bridge-IsTarget = record {
    answers = λ s t. ground arith;
    keeps = λ s t. ground (
      arith,
      length-memcpy 4 t.bytes 0 (word_bytes (bus_read run data_out (u32 t.address) s).0) 0,
    );
    delays = λ s t. ground arith;
  }

  -- The platform with a timer behind the pin bridge answers every transaction, hands it back with its
  -- command, address, lengths and buffer size as they were sent, and takes no delay away from it,
  -- whatever model stands on the pins.
  pub platform-IsTarget : IsTarget (Soc.b_transport (b_transport run data_out))
  platform-IsTarget = soc-IsTarget (b_transport run data_out) pin_bridge-IsTarget

  bus_read_cycle :
      (now : P → ℕ)
      → ((d : ℕ) (pins : BusPins) (m : P) → now (run d pins m) ≡ now m + d)
      → (offset : ℕ) (s : PinState P)
      → let (value, s') = bus_read run data_out offset s in
        IsIdle s' × (now s'.model ≡ now s.model + clock_period)
  unfolding bus_read
  bus_read_cycle now clock offset s =
      let up : BusPins = record {
        read_en = true;
        write_en = false;
        address = offset;
        data_in = 0;
      } in
      let down : BusPins = record {
        read_en = false;
        write_en = false;
        address = offset;
        data_in = 0;
      } in
      let once = run 0 up s.model in
      (
        record { no_read = refl; no_write = refl },
        omega (arith, clock 0 up s.model, clock 0 up once, clock clock_period down (run 0 up once)),
      )

  bus_write_cycle :
      (now : P → ℕ)
      → ((d : ℕ) (pins : BusPins) (m : P) → now (run d pins m) ≡ now m + d)
      → (offset v : ℕ) (s : PinState P)
      → let s' = bus_write run data_out offset v s in
        IsIdle s' × (now s'.model ≡ now s.model + clock_period)
  unfolding bus_write
  bus_write_cycle now clock offset v s =
      let up : BusPins = record {
        read_en = false;
        write_en = true;
        address = offset;
        data_in = v;
      } in
      let down : BusPins = record {
        read_en = false;
        write_en = false;
        address = offset;
        data_in = v;
      } in
      let once = run 0 up s.model in
      (
        record { no_read = refl; no_write = refl },
        omega (arith, clock 0 up s.model, clock 0 up once, clock clock_period down (run 0 up once)),
      )

  -- A transaction that starts with both strobes low ends with both low. A read or a write of four
  -- bytes takes one clock period of simulated time, by any clock that the kernel moves on, and is
  -- annotated with another; every other transaction is refused, takes none, and does not touch the
  -- pins or the model.
  pub pin_cycle :
      (now : P → ℕ)
      → ((d : ℕ) (pins : BusPins) (m : P) → now (run d pins m) ≡ now m + d)
      → (s : PinState P) (t : Txn) → IsIdle s
      → let (s', u) = b_transport run data_out s t in
        IsIdle s'
        × (((t.data_length ≡ 4)
              × (t.command ≢ Command.ignore)
              × (u.response ≡ ok)
              × (now s'.model ≡ now s.model + clock_period)
              × (u.delay ≡ t.delay + clock_period))
            ⊎ (((t.data_length ≢ 4) ⊎ (t.command ≡ Command.ignore))
                × (u.response ≢ ok)
                × (s' ≡ s)
                × (u.delay ≡ t.delay)))
  unfolding b_transport
  pin_cycle now clock s t idle = ground (
    arith,
    bus_read_cycle now clock (u32 t.address) s,
    bus_write_cycle now clock (u32 t.address) (word_of t.bytes) s,
  )
