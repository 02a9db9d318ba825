-- ===== src/Tests/Clocked.antt =====
-- The platform on its clock, on concrete inputs.
use systemc_model.Base.{◌≡◌, refl, Bool, true, false, [], arith}
use systemc_model.Base.Bits.{testbit}
use systemc_model.Firmware.Board.PinTimer as PinTimer
use systemc_model.Firmware.Completes.Evaluation.{pin_bus}
use systemc_model.Firmware.Completes.{Completed, main_completes}
use systemc_model.Peripherals.SysCtrl
use systemc_model.Peripherals.Wdt
use systemc_model.Peripherals.Wdt.{Wdt}
use systemc_model.Peripherals.Timer.{
  Timer, Pins, timer, reset_method, timer_thread, irq_output_method,
}
use systemc_model.Clocks.{started}
use systemc_model.Soc.{Soc}
use systemc_model.Soc.Reach.{built}
use systemc_model.Soc.Clocked.{Platform, irq_levels, edges, power_on}
use systemc_model.Soc.Clocked.Reset.{iterate, fresh, power_on_lem}
use systemc_model.Soc.Clocked.Bite.{IsReleased, IsArmed, watchdog_bites}
use systemc_model.Firmware.Program.{run}
use systemc_model.Firmware.CortexM.{uart_handler, main}
use systemc_model.Firmware.PowerOn.{board_at}
use systemc_model.Tests.Programs.{silent, mask_nvic, mask_nvic-IsNvic}

-- The timer of peripherals/timer/timer.h at an edge and at a reset.
abbrev timer_edge : Timer → Timer
timer_edge t = irq_output_method (timer_thread t)

abbrev held : Pins
held = record { reset = true; read_en = false; write_en = false; data_in = 0; address = 0 }

abbrev timer_reset : Timer → Timer
timer_reset t = irq_output_method (reset_method held t)

abbrev intr1 : Timer → Bool
intr1 t = t.intr1

abbrev intr2 : Timer → Bool
intr2 t = t.intr2

abbrev soc : Soc Timer
soc = built (timer 7 9) 100000000 50000000

power_on_lem_example :
    (edges timer_edge timer_reset intr1 intr2 5
      (power_on timer_edge timer_reset intr1 intr2 4 soc)).soc
    ≡ fresh true (iterate 5 timer_edge (timer_reset (timer 7 9))) soc
power_on_lem_example = power_on_lem timer_edge timer_reset intr1 intr2 4 5 soc

-- A watchdog that counts down from 2 with both enables.
abbrev armed : Wdt
armed = record Wdt.wdt_apb { load = 2; value = 2; ctrl = 3; locked = false }

abbrev running : Platform Timer
running = record {
  soc = record soc { wdt = armed };
  clk = started 0;
  irq_bits = irq_levels timer_edge timer_reset intr1 intr2 (record soc { wdt = armed });
}

running-IsReleased : IsReleased running.clk
unfolding started
running-IsReleased = record { reset = refl; left = refl; level = refl }

running-IsArmed : IsArmed false 2 running.soc.wdt running.soc.sysctrl
running-IsArmed = record {
  inten = refl;
  resen = refl;
  value = refl;
  ris = refl;
  quiet = refl;
  irq = refl;
  rst_req = refl;
  latched = refl;
}

watchdog_bites_example :
    let q = edges timer_edge timer_reset intr1 intr2 5 running in
    (SysCtrl.read_register q.soc.sysctrl 0x18 ≡ 1) × (testbit q.irq_bits 4 ≡ true)
unfolding started
watchdog_bites_example =
    watchdog_bites timer_edge timer_reset intr1 intr2 5 2 running running-IsReleased running-IsArmed
      refl

main_completes_example : Completed (
    run (pin_bus mask_nvic) uart_handler main silent (
      board_at PinTimer.bridge PinTimer.timer_edge PinTimer.timer_reset PinTimer.intr1
        PinTimer.intr2 mask_nvic 4 4
        (PinTimer.constructed 7 9)
        []))
main_completes_example =
    main_completes mask_nvic 4 4 7 9 [] silent mask_nvic-IsNvic (omega arith) (λ lines. refl)
