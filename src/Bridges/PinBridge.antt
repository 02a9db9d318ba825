-- ===== src/Bridges/PinBridge.antt =====
-- bridges/tlm_pin_bridge.h: a TLM target that turns a transaction into a cycle on pins.
pub mod Laws
pub mod TimerBus
pub mod Kernel
pub mod Cycles
use systemc_model.Base.{◌==◌, if◌then◌else◌, ℕ, Bool, true, false, not}
use systemc_model.Base.Bits.{u32}
use systemc_model.Tlm.{Command, Transport, memcpy, word_bytes, word_of, finish, command_error}
use systemc_model.Tlm.{burst_error}

-- The signals that the bridge drives.
pub record BusPins : Type 0 where
  pub read_en : Bool
  pub write_en : Bool
  pub address : ℕ
  pub data_in : ℕ

-- The signals, and the model behind them.
pub record PinState (P : Type 0) : Type 0 where
  pub pins : BusPins
  pub model : P

-- `clock_period` in nanoseconds, as the constructor sets it.
abbrev pub clock_period : ℕ
clock_period = 10

-- The simulation kernel and the model behind the pins: `run d pins` lets `d` nanoseconds pass with
-- the pins held (a delta cycle for 0), and `data_out` is the level of the model's data pins.
module _ {P : Type 0} (run : ℕ → BusPins → P → P) (data_out : P → ℕ) where
  abbrev pub wait : ℕ → PinState P → PinState P
  wait d s = record s { model = run d s.pins s.model }

  unfoldable pub bus_read : ℕ → PinState P → ℕ × PinState P
  bus_read offset s =
      let asserted = record s {
        pins = record { read_en = true; write_en = false; address = offset; data_in = 0 };
      } in
      let settled = wait 0 (wait 0 asserted) in
      let value = data_out settled.model in
      (value, wait clock_period (record settled { pins = record settled.pins { read_en = false } }))

  unfoldable pub bus_write : ℕ → ℕ → PinState P → PinState P
  bus_write offset value s =
      let asserted = record s {
        pins = record { read_en = false; write_en = true; address = offset; data_in = value };
      } in
      let settled = wait 0 (wait 0 asserted) in
      wait clock_period (record settled { pins = record settled.pins { write_en = false } })

  unfoldable pub b_transport : Transport (PinState P)
  b_transport s t = elim t.command [
    | Command.read ↦
        if not (t.data_length == 4) then (s, record t { response = burst_error }) else (
          (bus_read (u32 t.address) s).1,
          finish clock_period (record t {
            bytes = memcpy 4 t.bytes 0 (word_bytes (bus_read (u32 t.address) s).0) 0;
          }),
        )
    | Command.write ↦
        if not (t.data_length == 4)
        then (s, record t { response = burst_error })
        else (bus_write (u32 t.address) (word_of t.bytes) s, finish clock_period t)
    | Command.ignore ↦ (s, record t { response = command_error })
  ]
