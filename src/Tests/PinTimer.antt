-- ===== src/Tests/PinTimer.antt =====
-- The timer behind the pin bridge, over a concrete kernel.
use systemc_model.Base.{◌≡◌, refl, inr, Bool, false, arith}
use systemc_model.Firmware.Board.CortexA as TimerBoard
use systemc_model.Firmware.Completes.CortexA.{Holds}
use systemc_model.Peripherals.Timer.Later.{IsStopped}
use systemc_model.Peripherals.Timer.{
  timer, reset_method, commit_intr, timer_thread, irq_output_method,
}
use systemc_model.Bridges.PinBridge as PinBridge
use systemc_model.Bridges.PinBridge.{PinState}
use systemc_model.Bridges.PinBridge.Kernel.{
  OnPins, clock_edge, clock_edges, reset_high, run, data_out, timer_of, IsQuiet, run-IsScheduled,
}
use systemc_model.Protocol.{CosimRequest, CosimResponse, cosim_ok}
use systemc_model.Transactor.Server.{handle}
use systemc_model.Soc.HostMemory.{read_request, write_request}
use systemc_model.Platforms.{cortex_a_transport, cortex_a_irq_bits}
use systemc_model.Platforms.CortexA.{cortex_a_write_then_read}

abbrev at_rest : PinState OnPins
at_rest = record {
  pins = record { read_en = false; write_en = false; address = 0; data_in = 0 };
  model = record { timer = timer 0 0; seen_read = false; seen_write = false };
}

abbrev serve : CosimRequest → PinState OnPins → PinState OnPins × Bool × CosimResponse
serve req s =
    handle (cortex_a_transport run data_out) (PinBridge.wait run data_out)
      (cortex_a_irq_bits run data_out) req s

cortex_a_write_then_read_example :
    let (s', quit, resp) = serve (write_request 0x08 200) at_rest in
    let (s'', quit', back) = serve (read_request 0x08) s' in
    (resp.status ≡ cosim_ok) × (back.status ≡ cosim_ok) × (back.data' ≡ 200)
cortex_a_write_then_read_example =
    cortex_a_write_then_read run data_out timer_of IsQuiet run-IsScheduled 0x08 200 at_rest
      (inr refl) (omega arith) (refl, refl)

pub started-Holds :
    Holds run data_out timer_of IsQuiet run-IsScheduled (IsStopped 0 0 0) (TimerBoard.started 7 9)
unfolding TimerBoard.started clock_edges clock_edge reset_high reset_method commit_intr timer_thread
    irq_output_method
started-Holds = (
  record { quiet = (refl, refl); read_low = refl; write_low = refl },
  record { ctrl = refl; val = refl; cmp = refl; intr = refl },
)
