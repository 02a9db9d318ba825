-- ===== src/Firmware/Completes/Evaluation.antt =====
-- The tests of the watchdog and the timer in platforms/basic_cortexM/firmware/main.c, evaluated on the
-- clocked platform.
use systemc_model.Base.{ℕ, ◌≡◌, refl, Bool, true, false, xor, Option, none, some}
use systemc_model.Tlm.{memcpy, word_bytes, word_of, tlm_check_u32, tlm_unpack_u32, tlm_pack_u32}
use systemc_model.Firmware.Program.{
  run, run_with, bind, interrupted, undisturbed, Regs, Bus, Outcome, finished, exited, fault,
}
use systemc_model.Firmware.CortexM.{
  uart_handler, wdt_test, timer_test, closing, timed_tests, check, fail, mmio_write_named,
}
use systemc_model.Firmware.Log.{
  log_line, log_wait_bit, wait_loop, report_set, report_waiting, report_timeout, log_mmio_write,
}
use systemc_model.Firmware.Board.{fetch, modify, Nvic, Board, board_bus}
use systemc_model.Firmware.Board.Clocked.{pass, Timed, levels}
use systemc_model.Transactor.Server.{handle, dispatch, tlm_read, tlm_write}
use systemc_model.Transactor.Initiator.{read_payload, write_payload}
use systemc_model.Soc.Clocked.{settle, at_edge, on_reset, irq_levels, edge, edges}
use systemc_model.Interconnect.Decoder
use systemc_model.Bridges.AhbApb
use systemc_model.Bridges.PinBridge
use systemc_model.Bridges.PinBridge.Kernel
use systemc_model.Clocks.{pclk_div, reset_seq}
use systemc_model.Peripherals.Wdt
use systemc_model.Peripherals.Timer
use systemc_model.Soc
use systemc_model.Soc.{Soc}
use systemc_model.Firmware.Board.PinTimer.{
  PinTimer, bridge, timer_edge, timer_reset, intr1, intr2, constructed,
}

abbrev pub exit_of : {A S : Type 0} → Outcome A S → Option (ℕ × ℕ)
exit_of (exited code r s) = some (code, r.uart_irqs)
exit_of (finished a r s) = none
exit_of fault = none

abbrev pub wait : ℕ → Soc (Timed PinTimer) → Soc (Timed PinTimer)
wait = pass timer_edge timer_reset intr1 intr2

abbrev pub board_irqs : Soc (Timed PinTimer) → ℕ
board_irqs = levels timer_edge timer_reset intr1 intr2

abbrev pub pin_bus : {N : Type 0} → Nvic N → Bus (Board (Timed PinTimer) N)
pin_bus nvic = board_bus bridge wait board_irqs (wait 10) nvic

-- The timer and the watchdog as the reset leaves them, at a level of `pclk`.
abbrev pub untouched : Bool → Soc (Timed PinTimer) → Soc (Timed PinTimer)
untouched b s = record s {
  timer = record {
    timer = constructed 0 0;
    clk = record { pclk_state = b; pclk = b; reset = false; left = 0 };
    ahead = 0;
  };
  wdt = Wdt.wdt_apb;
}

-- Whatever the other blocks hold and whatever the level of `pclk`, the tests end with code 0, by
-- evaluation.
pub timed_tests-exits :
    {N : Type 0} (nvic : Nvic N) (b : Bool) (r : Regs) (t : Board (Timed PinTimer) N)
    → exit_of (
        run
          (pin_bus nvic)
          uart_handler
          timed_tests
          (record r { unmasked = false })
          (record t { soc = untouched b t.soc }))
      ≡ some (0, r.uart_irqs)
unfolding bridge run run_with bind interrupted undisturbed uart_handler wdt_test timer_test closing
    timed_tests check fail mmio_write_named log_line log_wait_bit wait_loop report_set
    report_waiting report_timeout log_mmio_write fetch modify pass handle dispatch tlm_read
    tlm_write read_payload write_payload Soc.b_transport Soc.apb_transport Soc.on_timer Soc.on_wdt
    Soc.on_gpio Soc.on_uart Soc.on_sram Soc.on_sysctrl Soc.pack_irqs settle at_edge on_reset
    irq_levels edge edges Decoder.b_transport Decoder.decode Decoder.find Decoder.covers
    Decoder.port AhbApb.b_transport PinBridge.b_transport PinBridge.bus_read PinBridge.bus_write
    Kernel.delta Kernel.clock_edge Kernel.clock_edges Kernel.run pclk_div reset_seq tlm_pack_u32
    tlm_unpack_u32 tlm_check_u32 word_of memcpy word_bytes Wdt.b_transport Wdt.read_register
    Wdt.write_register Wdt.write_unlocked Wdt.tick Wdt.drive Timer.bus_read_method
    Timer.bus_write_method Timer.read_offset Timer.write_offset Timer.commit_intr
    Timer.irq_output_method Timer.timer_thread Timer.compare_match Timer.overflow
    Timer.post_interrupt xor
timed_tests-exits nvic true r t = refl
timed_tests-exits nvic false r t = refl
