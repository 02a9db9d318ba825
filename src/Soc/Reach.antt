-- ===== src/Soc/Reach.antt =====
-- The platform of Soc/cortexm_pl.h as a state machine: bus accesses, resets, clock edges and wake-ups
-- in any order.
pub mod Reported
use systemc_model.Base.{ℕ, Bool}
use systemc_model.Tlm.{Txn, IsBytes, Transport}
use systemc_model.Peripherals.Sram as Sram
use systemc_model.Peripherals.Gpio as Gpio
use systemc_model.Peripherals.Gpio.Reach as GpioReach
use systemc_model.Peripherals.Uart as Uart
use systemc_model.Peripherals.Uart.Reach as UartReach
use systemc_model.Peripherals.SysCtrl as SysCtrl
use systemc_model.Peripherals.Wdt as Wdt
use systemc_model.Peripherals.Wdt.Reach as WdtReach
use systemc_model.Soc.{
  Soc, on_timer, on_sram, on_gpio, on_uart, on_sysctrl, on_wdt, b_transport, pack_irqs,
}
use systemc_model.Soc.Map.{Place, timer, sram, gpio, uart, sysctrl, wdt, place_of, deliver, route}
use systemc_model.Soc.Map.Routing.{transport-eq-route}
use systemc_model.Soc.Safety.{IsSound, sram_never_overrun}
use systemc_model.Soc.Irq.{pack_irqs_bits}

-- The platform after its construction.
abbrev pub built : {T : Type 0} → T → ℕ → ℕ → Soc T
built x sys_hz pclk_hz = record {
  timer = x;
  sram = Sram.sram_ahb Sram.pl_sram_bytes;
  gpio = Gpio.gpio_apb;
  uart = Uart.uart_pl011;
  sysctrl = SysCtrl.sys_ctrl sys_hz pclk_hz;
  wdt = Wdt.wdt_apb;
}

module _ {T : Type 0} (bridge : Transport T) where
  -- What happens to the platform. The methods that a change of `reset` wakes run one by one, and
  -- what happens behind the timer's bridge between accesses is left open.
  pub data Step (s : Soc T) : Soc T → Type 0 where
    access : (t : Txn) → IsBytes t.bytes → Step s (b_transport bridge s t).0
    timer_runs : (x : T) → Step s (record s { timer = x })
    sram_reset : (level : Bool) → Step s (record s { sram = Sram.on_reset level s.sram })
    gpio_reset : (level : Bool) → Step s (record s { gpio = Gpio.on_reset level s.gpio })
    gpio_wake : Step s (record s { gpio = Gpio.drive_irq s.gpio })
    uart_reset : (level : Bool) → Step s (record s { uart = Uart.on_reset level s.uart })
    uart_wake : Step s (record s { uart = Uart.drive_irq s.uart })
    sysctrl_reset :
        (level : Bool) → Step s (record s { sysctrl = SysCtrl.on_reset level s.sysctrl })
    sysctrl_wdt : Step s (record s { sysctrl = SysCtrl.on_wdt s.wdt.rst_req s.sysctrl })
    wdt_reset : (level : Bool) → Step s (record s { wdt = Wdt.on_reset level s.wdt })
    wdt_clock : (reset : Bool) → Step s (record s { wdt = Wdt.tick reset s.wdt })
    wdt_wake : Step s (record s { wdt = Wdt.drive s.wdt })

  pub data Reach : Soc T → Type 0 where
    start : (x : T) (sys_hz pclk_hz : ℕ) → Reach (built x sys_hz pclk_hz)
    later : {s u : Soc T} → Reach s → Step s u → Reach u
