-- ===== src/Firmware/SelfTest/Evaluation.antt =====
-- The tests of platforms/basic_cortexM/firmware/main.c, evaluated on the reference board.
use systemc_model.Base.{◌≡◌, refl, true, false, xor}
use systemc_model.Tlm.{memcpy, word_bytes, word_of, tlm_check_u32, tlm_unpack_u32, tlm_pack_u32}
use systemc_model.Firmware.Program.{
  bind, Regs, Outcome, finished, run, run_with, undisturbed, interrupted,
}
use systemc_model.Firmware.CortexM.{
  banner, check, fail, gpio_test, irq_test, loopback_test, mmio_write_named, sram_test,
  sysctrl_test, uart_handler, untimed_tests,
}
use systemc_model.Firmware.Board.{fetch, modify}
use systemc_model.Firmware.Board.Reference.{Reference, reference}
use systemc_model.Soc
use systemc_model.Soc.{Soc, apb_transport, on_sram, on_gpio, on_uart, on_sysctrl}
use systemc_model.Soc.Map.{place_of}
use systemc_model.Interconnect.Decoder
use systemc_model.Interconnect.Decoder.{decode, find, covers, port}
use systemc_model.Bridges.AhbApb
use systemc_model.Peripherals.Sram
use systemc_model.Peripherals.Sram.{refuses}
use systemc_model.Peripherals.Gpio
use systemc_model.Peripherals.Gpio.{is_noted, note_edges, note_loop, write_switch}
use systemc_model.Peripherals.Uart
use systemc_model.Peripherals.Uart.{flags, loop_back, print, receive, transmit}
use systemc_model.Peripherals.SysCtrl
use systemc_model.Transactor.Initiator.{read_payload, write_payload}
use systemc_model.Transactor.Server.{handle, dispatch, tlm_read, tlm_write}
use systemc_model.Firmware.Log.{log_line, log_mmio_read, log_mmio_write}
use systemc_model.Soc.Reach.{built}
use systemc_model.Firmware.SelfTest.Report.{tested}

-- The platform after its reset, which the system control block reports.
abbrev pub released : {T : Type 0} → T → Soc T
released x =
    let s = built x 100000000 50000000 in
    record s { sysctrl = record s.sysctrl { reset_released = true } }

abbrev pub ready_board : Reference
ready_board = record { soc = released tt; nvic = false; lines = 0 }

abbrev pub final : Outcome (Unit {0}) Reference → Reference
final (finished a r s) = s
final _ = ready_board

-- The tests pass on the reference board, by evaluation.
pub reference_passes :
    (r : Regs)
    → run reference uart_handler untimed_tests r ready_board
      ≡ finished tt (tested r) (final (run reference uart_handler untimed_tests r ready_board))
unfolding run run_with interrupted undisturbed untimed_tests uart_handler bind fetch modify handle
    dispatch tlm_read tlm_write place_of read_payload write_payload Soc.b_transport apb_transport
    on_sram on_gpio on_uart on_sysctrl Decoder.b_transport decode find covers port
    AhbApb.b_transport tlm_pack_u32 tlm_unpack_u32 tlm_check_u32 word_of memcpy word_bytes
    Sram.b_transport Gpio.b_transport Gpio.read_register Gpio.write_register Uart.b_transport
    Uart.read_register Uart.write_register SysCtrl.b_transport SysCtrl.read_register
    SysCtrl.write_register banner check fail gpio_test irq_test loopback_test mmio_write_named
    sram_test sysctrl_test log_line log_mmio_read log_mmio_write xor is_noted note_edges note_loop
    write_switch refuses flags loop_back print receive transmit Gpio.drive_irq Uart.drive_irq
reference_passes r = refl
