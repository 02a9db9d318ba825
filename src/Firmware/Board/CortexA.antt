-- ===== src/Firmware/Board/CortexA.antt =====
-- The board that the Cortex-A firmware runs on: the window of bridges/remote_mmio.c in
-- processor/systemc_ps.c, the server, and the platform of platforms/basic_cortexA/cosim_main.cpp.
pub mod Access
use systemc_model.Base.{ltb, leb, if◌then◌else◌, ℕ, ◌+◌, ◌-◌, Bool, false, ◌&&◌, Option, none}
use systemc_model.Base.{some}
use systemc_model.Protocol.{CosimRequest, CosimResponse}
use systemc_model.Bridges.RemoteMmio.Access.{good}
use systemc_model.Transactor.Server.{handle}
use systemc_model.Soc.HostMemory.{read_request, write_request}
use systemc_model.Peripherals.Timer
use systemc_model.Bridges.PinBridge as PinBridge
use systemc_model.Bridges.PinBridge.{BusPins, PinState, clock_period}
use systemc_model.Bridges.PinBridge.Kernel.{OnPins, reset_high, clock_edges}
use systemc_model.Machines.SystemcPs.{ps_pl_base}
use systemc_model.Platforms.{systemc_pl_window_size, cortex_a_transport, cortex_a_irq_bits}
use systemc_model.Firmware.Program.{Bus}

abbrev in_window : ℕ → Bool
in_window a = leb ps_pl_base a && ltb a (ps_pl_base + systemc_pl_window_size)

abbrev pub answered : {S : Type 0} → S × Bool × CosimResponse → ℕ × S
answered (s, _, resp) = (if good resp then resp.data' else 0, s)

module _ {P : Type 0} (run : ℕ → BusPins → P → P) (data_out : P → ℕ) where
  abbrev pub serve : CosimRequest → PinState P → PinState P × Bool × CosimResponse
  serve req s =
      handle (cortex_a_transport run data_out) (PinBridge.wait run data_out)
        (cortex_a_irq_bits run data_out) req s

  unfoldable pub fetch : ℕ → PinState P → Option (ℕ × PinState P)
  fetch a s =
      if in_window a then some (answered (serve (read_request (a - ps_pl_base)) s)) else none

  unfoldable pub modify : ℕ → ℕ → PinState P → Option (PinState P)
  modify a v s =
      if in_window a then some (answered (serve (write_request (a - ps_pl_base) v) s)).1 else none

  -- The program enables no interrupt. What its empty loop lasts is a clock period.
  abbrev pub timer_bus : Bus (PinState P)
  timer_bus = record {
    fetch = fetch;
    modify = modify;
    pending = λ s. false;
    idle = λ s. some (PinBridge.wait run data_out clock_period s);
  }

-- `sc_main` up to the release of the reset: the one rising edge of `clk` in the first 20 nanoseconds,
-- which starts at 10 with its low half. `val` and `cmp` are what no constructor sets.
unfoldable pub started : ℕ → ℕ → PinState OnPins
started val cmp = record {
  pins = record { read_en = false; write_en = false; address = 0; data_in = 0 };
  model =
      clock_edges 1 (
        reset_high (record { timer = Timer.timer val cmp; seen_read = false; seen_write = false }));
}
