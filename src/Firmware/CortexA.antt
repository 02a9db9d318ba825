-- ===== src/Firmware/CortexA.antt =====
-- platforms/basic_cortexA/firmware/main.c with timer_regs.h: the test of the timer. Its output is a
-- log here, which Firmware.Console.Run sends over the serial port of the guest.
use systemc_model.Base.{◌==◌, if◌then◌else◌, ℕ, ◌+◌, ◌^◌, bit_and, bit_or, Bool, true, false}
use systemc_model.Base.Bits.{not_word}
use systemc_model.Firmware.Program.{Program, done, exit, spin, ◌>>=◌, ◌>>◌, read, write, sh_puts}
use systemc_model.Firmware.Log.{put_hex32, log_line, log_mmio_write, log_mmio_read, log_wait_bit}
use systemc_model.Machines.SystemcPs.{ps_pl_base}
use Prim.Native.String.{String}

abbrev pub timer_base : ℕ
timer_base = ps_pl_base

abbrev pub timer_reg_ctrl : ℕ
timer_reg_ctrl = timer_base + 0x00

abbrev pub timer_reg_value : ℕ
timer_reg_value = timer_base + 0x04

abbrev pub timer_reg_cmp : ℕ
timer_reg_cmp = timer_base + 0x08

abbrev pub timer_reg_intr : ℕ
timer_reg_intr = timer_base + 0x0C

-- The bits `TIMER_INTR_CMP` and `TIMER_INTR_OV`, and `ENABLE | CMP_EN | OV_EN`.
abbrev pub intr_cmp : ℕ
intr_cmp = 2 ^ 1

abbrev pub intr_ov : ℕ
intr_ov = 2 ^ 2

abbrev pub ctrl_all : ℕ
ctrl_all = bit_or (bit_or (2 ^ 0) (2 ^ 1)) (2 ^ 2)

-- After `sh_exit` the code loops.
unfoldable pub exit_app : ℕ → Program (Unit {0})
exit_app code = do
  (if code == 0
      then log_line "[boot] Clean shutdown via semihosting"
      else log_line "FAIL: exiting with error")
  exit code

unfoldable pub mmio_write_ctrl : ℕ → Program (Unit {0})
mmio_write_ctrl v = do log_mmio_write "CTRL" 0x00 v; write timer_reg_ctrl v

unfoldable pub mmio_write_value : ℕ → Program (Unit {0})
mmio_write_value v = do log_mmio_write "VALUE" 0x04 v; write timer_reg_value v

unfoldable pub mmio_write_cmp : ℕ → Program (Unit {0})
mmio_write_cmp v = do log_mmio_write "CMP" 0x08 v; write timer_reg_cmp v

unfoldable pub mmio_write_intr : ℕ → Program (Unit {0})
mmio_write_intr v = do log_mmio_write "INTR" 0x0C v; write timer_reg_intr v

unfoldable pub mmio_read_intr : Program ℕ
mmio_read_intr = do v ← read timer_reg_intr; log_mmio_read "INTR" 0x0C v; done v

-- A check of the code: a message and the end of the program if it fails.
unfoldable pub require : Bool → String → Program (Unit {0})
require true msg = done tt
require false msg = log_line msg >> exit_app 1

unfoldable pub greeting : Program (Unit {0})
greeting = do
  log_line "========================================"
  log_line "  basic_cortexA — Timer cosim firmware"
  log_line "========================================"
  log_line "[boot] CPU: Cortex-A9   machine: systemc-ps"
  log_line "[boot] Console: PL011 UART @ 0x10009000"
  log_line "[boot] PL window -> SystemC Timer (remote-mmio)"
  sh_puts "[boot] TIMER base "
  put_hex32 timer_base
  sh_puts "\n"
  log_line "[boot] Map: CTRL +0x00  VALUE +0x04  CMP +0x08  INTR +0x0C"
  log_line ""

unfoldable pub reset_phase : Program (Unit {0})
reset_phase = do
  log_line "[init] Phase 0 — reset timer registers"
  mmio_write_ctrl 0
  mmio_write_value 0
  mmio_write_cmp 0
  mmio_write_intr 0
  v ← read timer_reg_value
  log_mmio_read "VALUE" 0x04 v
  log_line ""

unfoldable pub compare_test : Program (Unit {0})
compare_test = do
  log_line "[test 1] Compare match — program CMP=20, enable timer"
  mmio_write_cmp 20
  mmio_write_ctrl ctrl_all
  found ← log_wait_bit timer_reg_intr intr_cmp 1000000 "TIMER_INTR_CMP"
  require found "FAIL: compare status timeout"
  log_line "PASS: compare status set"
  intr ← mmio_read_intr
  mmio_write_intr (bit_and intr (not_word intr_cmp))
  log_line ""

unfoldable pub overflow_test : Program (Unit {0})
overflow_test = do
  log_line "[test 2] Overflow — preset VALUE=250, wait for OV bit"
  mmio_write_value 250
  found ← log_wait_bit timer_reg_intr intr_ov 1000000 "TIMER_INTR_OV"
  require found "FAIL: overflow status timeout"
  log_line "PASS: overflow status set"
  log_line ""

unfoldable pub disable_test : Program (Unit {0})
disable_test = do
  log_line "[test 3] Disable — CTRL=0, VALUE must not change"
  mmio_write_ctrl 0
  before ← read timer_reg_value
  log_mmio_read "VALUE" 0x04 before
  spin (done tt)
  after ← read timer_reg_value
  log_mmio_read "VALUE" 0x04 after
  require (before == after) "FAIL: timer still running after disable"
  log_line "PASS: timer stopped when disabled"
  log_line ""

unfoldable pub farewell : Program ℕ
farewell = do
  log_line "========================================"
  log_line "  ALL TESTS COMPLETED"
  log_line "========================================"
  exit_app 0
  done 0

unfoldable pub main : Program ℕ
main = do greeting; reset_phase; compare_test; overflow_test; disable_test; farewell
