-- ===== src/Firmware/CortexM.antt =====
-- platforms/basic_cortexM/firmware/main.c with soc_regs.h: the self-test of the platform.
use systemc_model.Base.{◌==◌, ℕ, ◌+◌, ◌^◌, bit_and, bit_or, Bool, true, false, not}
use systemc_model.Base.Bits.{u32, not_word, has_any}
use systemc_model.Firmware.Program.{
  Program, done, exit, set_mask, set_count, get_count, spin, ◌>>=◌, ◌>>◌, read, write, sh_puts,
}
use systemc_model.Firmware.Log.{put_hex32, log_line, log_mmio_write, log_mmio_read, log_wait_bit}
use systemc_model.Soc.{
  pl_timer_offset, pl_sram_offset, pl_gpio_offset, pl_uart_offset, pl_sysctrl_offset, pl_wdt_offset,
}
use Prim.Native.String.{String}

-- `SYSTEMC_PL_M_PROFILE_BASE` of include/soc_memory_map.h
abbrev pub pl_base : ℕ
pl_base = 0x40000000

abbrev pub timer_base : ℕ
timer_base = pl_base + pl_timer_offset

abbrev pub gpio_base : ℕ
gpio_base = pl_base + pl_gpio_offset

abbrev pub uart_base : ℕ
uart_base = pl_base + pl_uart_offset

abbrev pub sram_base : ℕ
sram_base = pl_base + pl_sram_offset

abbrev pub sys_base : ℕ
sys_base = pl_base + pl_sysctrl_offset

abbrev pub wdt_base : ℕ
wdt_base = pl_base + pl_wdt_offset

abbrev pub nvic_iser0 : ℕ
nvic_iser0 = 0xE000E100

abbrev pub uart_dr : ℕ
uart_dr = uart_base + 0x00

abbrev pub uart_fr : ℕ
uart_fr = uart_base + 0x18

abbrev pub uart_imsc : ℕ
uart_imsc = uart_base + 0x38

abbrev pub uart_icr : ℕ
uart_icr = uart_base + 0x44

abbrev pub uart_int_rx : ℕ
uart_int_rx = 2 ^ 4

-- `PL_IRQ_UART` of include/soc_memory_map.h
abbrev pub pl_irq_uart : ℕ
pl_irq_uart = 2

unfoldable pub uart_handler : Program (Unit {0})
uart_handler = do
  n ← get_count done
  set_count (u32 (n + 1)) (done tt)
  _ ← read uart_dr
  write uart_icr uart_int_rx

unfoldable pub mmio_write_named : String → ℕ → ℕ → ℕ → Program (Unit {0})
mmio_write_named name off reg v = do log_mmio_write name off v; write reg v

unfoldable pub fail : String → Program (Unit {0})
fail msg = do log_line msg; exit 1

-- A check of the code: a message and the end of the program if it fails.
unfoldable pub check : Bool → String → Program (Unit {0})
unfolding fail
check true msg = done tt
check false msg = fail msg

abbrev pub sys_magic_value : ℕ
sys_magic_value = 0x534F4332

abbrev pub gpio_id_value : ℕ
gpio_id_value = 0x4750494F

-- UARTEN | TXE | RXE | LBE
abbrev pub uart_cr_loopback : ℕ
uart_cr_loopback = bit_or (bit_or (bit_or (2 ^ 0) (2 ^ 8)) (2 ^ 9)) (2 ^ 7)

unfoldable pub banner : Program (Unit {0})
banner = do
  log_line "========================================"
  log_line "  basic_cortexM — production VP firmware"
  log_line "========================================"
  log_line "[boot] Cortex-M3  machine: systemc-soc"
  sh_puts "[boot] PL "
  put_hex32 pl_base
  sh_puts " AHB+APB\n"

unfoldable pub sysctrl_test : Program (Unit {0})
sysctrl_test = do
  log_line ""
  log_line "[test 0] SysCtrl"
  magic ← read (sys_base + 0x00)
  log_mmio_read "MAGIC" 0x00 magic
  check (magic == sys_magic_value) "FAIL: SysCtrl magic"
  mmio_write_named "SCRATCH" 0x08 (sys_base + 0x08) 0xA5A55A5A
  scratch ← read (sys_base + 0x08)
  check (scratch == 0xA5A55A5A) "FAIL: SysCtrl scratch"
  sys_hz ← read (sys_base + 0x0C)
  check (sys_hz == 100000000) "FAIL: clock frequencies"
  pclk_hz ← read (sys_base + 0x10)
  check (pclk_hz == 50000000) "FAIL: clock frequencies"
  log_line "PASS: SysCtrl"

unfoldable pub sram_test : Program (Unit {0})
sram_test = do
  log_line ""
  log_line "[test 1] AHB SRAM"
  write (sram_base + 0x00) 0x11111111
  write (sram_base + 0x04) 0x22222222
  write (sram_base + 0xFFC) 0xDEADBEEF
  first ← read (sram_base + 0x00)
  check (first == 0x11111111) "FAIL: SRAM"
  second ← read (sram_base + 0x04)
  check (second == 0x22222222) "FAIL: SRAM"
  last ← read (sram_base + 0xFFC)
  check (last == 0xDEADBEEF) "FAIL: SRAM"
  log_line "PASS: SRAM"

unfoldable pub gpio_test : Program (Unit {0})
gpio_test = do
  log_line ""
  log_line "[test 2] APB GPIO + edge IRQ status"
  id ← read (gpio_base + 0x24)
  check (id == gpio_id_value) "FAIL: GPIO id"
  write (gpio_base + 0x04) 0xFF
  write (gpio_base + 0x18) 0xFF
  write (gpio_base + 0x14) 0xFF
  write (gpio_base + 0x10) 0x01
  write (gpio_base + 0x08) 0x01
  pins ← read (gpio_base + 0x00)
  check (pins == 0x01) "FAIL: GPIO data"
  intstat ← read (gpio_base + 0x1C)
  check (has_any intstat 0x01) "FAIL: GPIO intstat"
  write (gpio_base + 0x20) 0x01
  log_line "PASS: GPIO"

-- `'S'` and `'C'`
unfoldable pub loopback_test : Program (Unit {0})
loopback_test = do
  log_line ""
  log_line "[test 3] APB PL011 UART loopback"
  write (uart_base + 0x24) 16
  write (uart_base + 0x28) 0
  write (uart_base + 0x2C) (2 ^ 4)
  write (uart_base + 0x30) uart_cr_loopback
  write uart_dr 83
  write uart_dr 67
  fr ← read uart_fr
  check (not (has_any fr (2 ^ 4))) "FAIL: UART RX empty"
  s ← read uart_dr
  check (bit_and s 0xFF == 83) "FAIL: UART loopback S"
  c ← read uart_dr
  check (bit_and c 0xFF == 67) "FAIL: UART loopback C"
  log_line "PASS: UART loopback"

-- `'I'` is sent to the port's own receiver, whose interrupt is let through meanwhile.
unfoldable pub irq_test : Program (Unit {0})
irq_test = do
  log_line ""
  log_line "[test 4] UART RX IRQ via NVIC"
  set_count 0 (done tt)
  write uart_icr uart_int_rx
  write uart_imsc uart_int_rx
  write nvic_iser0 (2 ^ pl_irq_uart)
  set_mask true (done tt)
  write uart_dr 73
  _ ← read uart_fr
  set_mask false (done tt)
  write uart_imsc 0
  n ← get_count done
  check (not (n == 0)) "FAIL: UART IRQ not taken"
  log_line "PASS: UART IRQ"

unfoldable pub wdt_test : Program (Unit {0})
wdt_test = do
  log_line ""
  log_line "[test 5] APB watchdog"
  write (wdt_base + 0xC00) 0x1ACCE551
  write (wdt_base + 0x00) 8
  write (wdt_base + 0x0C) 1
  write (wdt_base + 0x08) (2 ^ 0)
  found ← log_wait_bit (wdt_base + 0x10) 1 1000000 "WDT_RIS"
  check found "FAIL: WDT timeout"
  write (wdt_base + 0x0C) 1
  write (wdt_base + 0x08) 0
  write (wdt_base + 0xC00) 0
  log_line "PASS: WDT"

abbrev pub timer_ctrl : ℕ
timer_ctrl = timer_base + 0x00

abbrev pub timer_value : ℕ
timer_value = timer_base + 0x04

abbrev pub timer_cmp : ℕ
timer_cmp = timer_base + 0x08

abbrev pub timer_intr : ℕ
timer_intr = timer_base + 0x0C

-- TIMER_INTR_CMP
abbrev pub timer_intr_cmp : ℕ
timer_intr_cmp = 2 ^ 1

-- TIMER_INTR_OV
abbrev pub timer_intr_ov : ℕ
timer_intr_ov = 2 ^ 2

unfoldable pub timer_test : Program (Unit {0})
timer_test = do
  log_line ""
  log_line "[test 6] Timer compare / overflow / disable"
  mmio_write_named "CTRL" 0x00 timer_ctrl 0
  mmio_write_named "VALUE" 0x04 timer_value 0
  mmio_write_named "CMP" 0x08 timer_cmp 0
  mmio_write_named "INTR" 0x0C timer_intr 0
  mmio_write_named "CMP" 0x08 timer_cmp 20
  mmio_write_named "CTRL" 0x00 timer_ctrl (bit_or (bit_or (2 ^ 0) (2 ^ 1)) (2 ^ 2))
  compared ← log_wait_bit timer_intr timer_intr_cmp 1000000 "TIMER_INTR_CMP"
  check compared "FAIL: compare timeout"
  log_line "PASS: compare status set"
  intr ← read timer_intr
  mmio_write_named "INTR" 0x0C timer_intr (bit_and intr (not_word timer_intr_cmp))
  mmio_write_named "VALUE" 0x04 timer_value 250
  wrapped ← log_wait_bit timer_intr timer_intr_ov 1000000 "TIMER_INTR_OV"
  check wrapped "FAIL: overflow timeout"
  log_line "PASS: overflow status set"
  mmio_write_named "CTRL" 0x00 timer_ctrl 0
  before ← read timer_value
  spin (done tt)
  after ← read timer_value
  check (before == after) "FAIL: timer still running"
  log_line "PASS: timer stopped when disabled"

unfoldable pub closing : Program ℕ
closing = do
  log_line ""
  log_line "========================================"
  log_line "  ALL TESTS COMPLETED"
  log_line "========================================"
  exit 0

-- The part of `main` whose outcome does not depend on the passing of time.
unfoldable pub untimed_tests : Program (Unit {0})
untimed_tests = do
  set_mask false (done tt)
  banner
  sysctrl_test
  sram_test
  gpio_test
  loopback_test
  irq_test

unfoldable pub timed_tests : Program ℕ
timed_tests = do wdt_test; timer_test; closing

unfoldable pub main : Program ℕ
main = untimed_tests >> timed_tests
