-- ===== src/Soc/Clocked/Reset.antt =====
-- The blocks after the power is on: the reset of clocks/clock_reset.h through the platform.
use systemc_model.Base.{leb, length, replicate, ℕ, zero, suc, ◌≡◌, refl, ap, ◌∙◌, Bool, true}
use systemc_model.Base.{false, not, xor, ◌&&◌, arith}
use systemc_model.Peripherals.Sram
use systemc_model.Peripherals.Gpio
use systemc_model.Peripherals.Uart
use systemc_model.Peripherals.SysCtrl
use systemc_model.Peripherals.SysCtrl.{SysCtrl}
use systemc_model.Peripherals.Wdt
use systemc_model.Peripherals.Gpio.{gpio_apb}
use systemc_model.Peripherals.Uart.{uart_pl011}
use systemc_model.Peripherals.Wdt.{wdt_apb}
use systemc_model.Clocks.{ClockReset, started, pclk_div, reset_seq}
use systemc_model.Clocks.Laws.{sys_edges, IsRunning, sys_edge, started-IsRunning, clock_levels}
use systemc_model.Soc.{Soc}
use systemc_model.Soc.Clocked.{
  Platform, on_wdt_rst, on_reset, settle, initialise, at_edge, edge, edges, power_on,
}

abbrev pub iterate : {A : Type 0} → ℕ → (A → A) → A → A
iterate zero f x = x
iterate (suc n) f x = iterate n f (f x)

-- Every register of the blocks at its initial value and every line low, but for the timer, which is
-- `x`. What the reset does not touch is as in `s`: the host's console, the two frequencies, and the
-- size of the memory.
abbrev pub fresh : {T : Type 0} → Bool → T → Soc T → Soc T
fresh released x s = record {
  timer = x;
  sram = record s.sram { mem = replicate (length s.sram.mem) 0 };
  gpio = gpio_apb;
  uart = record uart_pl011 { console = s.uart.console };
  sysctrl = record s.sysctrl { scratch = 0; reset_released = released; wdt_latched = false };
  wdt = wdt_apb;
}

-- A line that is low after the change latches nothing.
falls : (old : Bool) (s : SysCtrl) → on_wdt_rst old false s ≡ s
unfolding SysCtrl.on_wdt xor
falls true s = refl
falls false s = refl

module _ {T : Type 0} (timer_edge timer_reset : T → T) (intr1 intr2 : T → Bool) where
  -- An edge that does not raise the reset leaves fresh blocks fresh.
  at_edge-fresh :
      (was now rises : Bool) (x : T) (s : Soc T)
      → (was ≡ false → now ≡ false)
      → at_edge timer_edge timer_reset intr1 intr2 was now rises (fresh (not was) x s)
        ≡ fresh (not now) (timer_edge x) s
  unfolding at_edge settle xor Wdt.tick Gpio.drive_irq Uart.drive_irq Wdt.drive SysCtrl.on_wdt
      Sram.on_reset Gpio.on_reset Uart.on_reset SysCtrl.on_reset Wdt.on_reset
  at_edge-fresh true true true x s h = refl
  at_edge-fresh true true false x s h = refl
  at_edge-fresh true false true x s h = refl
  at_edge-fresh true false false x s h = refl
  at_edge-fresh false false true x s h = refl
  at_edge-fresh false false false x s h = refl
  at_edge-fresh false true rises x s h = absurd (cc (h refl))

  power_on-fresh :
      (cycles : ℕ) (s : Soc T)
      → (power_on timer_edge timer_reset intr1 intr2 cycles s).soc
        ≡ fresh (not (started cycles).reset) (timer_reset s.timer) s
  unfolding power_on initialise started on_reset settle Gpio.drive_irq Uart.drive_irq Wdt.drive
      Sram.on_reset Gpio.on_reset Uart.on_reset SysCtrl.on_reset Wdt.on_reset
  power_on-fresh zero s =
      ap (λ c. record (fresh true (timer_reset s.timer) s) { sysctrl = c }) (falls s.wdt.rst_req _)
  power_on-fresh (suc n) s =
      ap (λ c. record (fresh false (timer_reset s.timer) s) { sysctrl = c }) (falls s.wdt.rst_req _)

  stays_low :
      (c : ClockReset) → IsRunning c → c.reset ≡ false → (reset_seq (pclk_div c)).reset ≡ false
  unfolding reset_seq pclk_div
  stays_low c h low = ground (arith, h.held)

  edges-fresh :
      (n : ℕ) (x : T) (s : Soc T) (p : Platform T)
      → IsRunning p.clk
      → p.soc ≡ fresh (not p.clk.reset) x s
      → let q = edges timer_edge timer_reset intr1 intr2 n p in
        (q.clk ≡ sys_edges n p.clk) × (q.soc ≡ fresh (not q.clk.reset) (iterate n timer_edge x) s)
  unfolding edges edge sys_edges
  edges-fresh zero x s p h e = (refl, e)
  edges-fresh (suc n) x s p h e =
      let now = (reset_seq (pclk_div p.clk)).reset in
      let rises = not p.clk.pclk && (reset_seq (pclk_div p.clk)).pclk in
      edges-fresh n (timer_edge x) s (edge timer_edge timer_reset intr1 intr2 p)
        (sys_edge p.clk h).0
        (ap (at_edge timer_edge timer_reset intr1 intr2 p.clk.reset now rises) e
          ∙ at_edge-fresh p.clk.reset now rises x s (stays_low p.clk h))

  pub power_on-clk :
      (cycles n : ℕ) (s : Soc T)
      → (edges timer_edge timer_reset intr1 intr2 n
          (power_on timer_edge timer_reset intr1 intr2 cycles s)).clk
        ≡ sys_edges n (started cycles)
  unfolding power_on
  power_on-clk cycles n s =
      (edges-fresh n (timer_reset s.timer) s (power_on timer_edge timer_reset intr1 intr2 cycles s)
        (started-IsRunning cycles) (power_on-fresh cycles s)).0

  -- After `n` edges of the system clock from power-on, every block is as its reset leaves it, all
  -- interrupt lines but the timer's are low, the watchdog has not counted, and SysCtrl reports the
  -- reset as released exactly if `reset_cycles` edges have passed. The timer was reset and then saw
  -- `n` edges.
  pub power_on_lem :
      (cycles n : ℕ) (s : Soc T)
      → (edges timer_edge timer_reset intr1 intr2 n
          (power_on timer_edge timer_reset intr1 intr2 cycles s)).soc
        ≡ fresh (leb cycles n) (iterate n timer_edge (timer_reset s.timer)) s
  unfolding power_on
  power_on_lem cycles n s =
      let p = power_on timer_edge timer_reset intr1 intr2 cycles s in
      let (clk, soc) =
        edges-fresh n (timer_reset s.timer) s p (started-IsRunning cycles)
          (power_on-fresh cycles s) in
      let low : not (sys_edges n (started cycles)).reset ≡ leb cycles n =
        ground (arith, (clock_levels cycles n).0) in
      soc
      ∙ ap (λ b. fresh b (iterate n timer_edge (timer_reset s.timer)) s)
          (ap (λ (c : ClockReset). not c.reset) clk ∙ low)
