-- ===== src/Firmware/Board/PinTimer.antt =====
-- The timer of the clocked board behind its pins: how Soc/cortexm_pl.h binds Timer, TlmPinBridge and
-- the clock.
use systemc_model.Base.{ℕ, ◌+◌, ◌/◌, ◌≡◌, refl, Bool, false}
use systemc_model.Tlm.{Transport}
use systemc_model.Peripherals.Timer
use systemc_model.Bridges.PinBridge as PinBridge
use systemc_model.Bridges.PinBridge.{BusPins, PinState, clock_period}
use systemc_model.Bridges.PinBridge.Kernel as Kernel
use systemc_model.Bridges.PinBridge.Kernel.{OnPins}
use systemc_model.Firmware.Board.Clocked.{Timed}

abbrev pub PinTimer : Type 0
PinTimer = PinState OnPins

-- The clock runs on while the bridge waits.
abbrev pub run_on : ℕ → BusPins → Timed OnPins → Timed OnPins
run_on d p x = record x { timer = Kernel.run d p x.timer; ahead = x.ahead + d / clock_period }

unfoldable pub bridge : Transport (Timed PinTimer)
bridge x t =
    let (s, u) =
      PinBridge.b_transport run_on (λ m. Kernel.data_out m.timer)
        (record {
          pins = x.timer.pins;
          model = record { timer = x.timer.model; clk = x.clk; ahead = x.ahead };
        })
        t in
    (
      record {
        timer = record { pins = s.pins; model = s.model.timer };
        clk = s.model.clk;
        ahead = s.model.ahead;
      },
      u,
    )

abbrev pub timer_edge : PinTimer → PinTimer
timer_edge s = record s { model = Kernel.clock_edge s.model }

abbrev pub timer_reset : PinTimer → PinTimer
timer_reset s = record s { model = Kernel.reset_high s.model }

abbrev pub intr1 : PinTimer → Bool
intr1 s = s.model.timer.intr1

abbrev pub intr2 : PinTimer → Bool
intr2 s = s.model.timer.intr2

abbrev pub low : BusPins
low = record { read_en = false; write_en = false; address = 0; data_in = 0 }

-- After the construction, with the two registers that no constructor sets.
abbrev pub constructed : ℕ → ℕ → PinTimer
constructed val cmp = record {
  pins = low;
  model = record { timer = Timer.timer val cmp; seen_read = false; seen_write = false };
}

-- The reset leaves every register 0 and the lines low.
pub timer_reset-constructed : (val cmp : ℕ) → timer_reset (constructed val cmp) ≡ constructed 0 0
unfolding Kernel.reset_high Timer.reset_method Timer.commit_intr
timer_reset-constructed val cmp = refl

-- A timer that is not enabled does not notice the clock.
pub timer_edge-constructed : timer_edge (constructed 0 0) ≡ constructed 0 0
unfolding Kernel.clock_edge Timer.timer_thread Timer.irq_output_method
timer_edge-constructed = refl
