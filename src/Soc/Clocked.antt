-- ===== src/Soc/Clocked.antt =====
-- The blocks of Soc/cortexm_pl.h on their clock and reset signals: what one rising edge of `sys_clk`
-- does to the whole platform, through clocks/clock_reset.h.
pub mod Reset
pub mod Bite
use systemc_model.Base.{if◌then◌else◌, ℕ, zero, suc, Bool, true, false, not, ◌&&◌}
use systemc_model.Peripherals.Sram
use systemc_model.Peripherals.Gpio
use systemc_model.Peripherals.Gpio.{Gpio, same}
use systemc_model.Peripherals.Uart
use systemc_model.Peripherals.Uart.{Uart}
use systemc_model.Peripherals.SysCtrl
use systemc_model.Peripherals.SysCtrl.{SysCtrl}
use systemc_model.Peripherals.Wdt
use systemc_model.Peripherals.Wdt.{Wdt}
use systemc_model.Clocks.{ClockReset, started, pclk_div, reset_seq}
use systemc_model.Soc.{Soc, pack_irqs}

-- A method that is sensitive to `irq_ev_` runs when the event has been notified.
abbrev pub settled_gpio : Gpio → Gpio
settled_gpio g = if g.irq_ev then Gpio.drive_irq g else g

abbrev pub settled_uart : Uart → Uart
settled_uart u = if u.irq_ev then Uart.drive_irq u else u

abbrev pub settled_wdt : Wdt → Wdt
settled_wdt w = if w.irq_ev then Wdt.drive w else w

-- `wdt_rst_s` runs `on_wdt` when its level changes from `old` to `new`.
abbrev pub on_wdt_rst : Bool → Bool → SysCtrl → SysCtrl
on_wdt_rst old new s = if same old new then s else SysCtrl.on_wdt new s

-- The platform with its clock and the signal `irq_bits`.
pub record Platform (T : Type 0) : Type 0 where
  pub soc : Soc T
  pub clk : ClockReset
  pub irq_bits : ℕ

-- The methods that the notified events of the blocks wake, up to the last one.
unfoldable pub settle : {T : Type 0} → Soc T → Soc T
settle s = record s {
  gpio = settled_gpio s.gpio;
  uart = settled_uart s.uart;
  sysctrl = on_wdt_rst s.wdt.rst_req (settled_wdt s.wdt).rst_req s.sysctrl;
  wdt = settled_wdt s.wdt;
}

-- The timer on its pins: a rising edge of its clock, the method that its reset runs at a high level,
-- and the levels of its two lines.
module _ {T : Type 0} (timer_edge timer_reset : T → T) (intr1 intr2 : T → Bool) where
  -- The blocks whose `on_reset` is sensitive to `timer_bus.reset`, at its new level.
  unfoldable pub on_reset : Bool → Soc T → Soc T
  on_reset reset s = record {
    timer = if reset then timer_reset s.timer else s.timer;
    sram = Sram.on_reset reset s.sram;
    gpio = Gpio.on_reset reset s.gpio;
    uart = Uart.on_reset reset s.uart;
    sysctrl = SysCtrl.on_reset reset s.sysctrl;
    wdt = Wdt.on_reset reset s.wdt;
  }

  -- An edge of `sys_clk`, at which the level of `reset` goes from `was` to `now`, and `pclk` rises or
  -- not.
  unfoldable pub at_edge : Bool → Bool → Bool → Soc T → Soc T
  unfolding on_reset
  at_edge was now rises s =
      let clocked = record s { timer = timer_edge s.timer } in
      let informed = if same was now then clocked else on_reset now clocked in
      settle (if rises then record informed { wdt = Wdt.tick now informed.wdt } else informed)

  -- What `pack_irqs` writes.
  unfoldable pub irq_levels : Soc T → ℕ
  irq_levels s = pack_irqs (intr1 s.timer) (intr2 s.timer) s.uart.irq s.gpio.irq s.wdt.irq

  unfoldable pub edge : Platform T → Platform T
  edge p =
      let clk = reset_seq (pclk_div p.clk) in
      let soc = at_edge p.clk.reset clk.reset (not p.clk.pclk && clk.pclk) p.soc in
      record { soc = soc; clk = clk; irq_bits = irq_levels soc }

  -- `n` rising edges of `sys_clk`, with no access in between.
  unfoldable pub edges : ℕ → Platform T → Platform T
  edges zero p = p
  edges (suc n) p = edges n (edge p)

  -- The first moment: every method runs once with `reset` high, and with no cycle of reset the level
  -- falls at once.
  unfoldable pub initialise : ℕ → Soc T → Soc T
  initialise zero s = on_reset false (on_reset true s)
  initialise (suc n) s = on_reset true s

  unfoldable pub power_on : ℕ → Soc T → Platform T
  power_on reset_cycles s =
      let soc = settle (initialise reset_cycles s) in
      record { soc = soc; clk = started reset_cycles; irq_bits = irq_levels soc }
