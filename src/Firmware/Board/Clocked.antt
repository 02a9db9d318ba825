-- ===== src/Firmware/Board/Clocked.antt =====
-- The board on the clock of the platform: between accesses the edges of `sys_clk` run.
pub mod Rest
use systemc_model.Base.{if◌then◌else◌, ℕ, zero, suc, ◌/◌, ◌^◌, ◌≡◌, refl, ap, ◌∙◌, Bool, true}
use systemc_model.Base.{false, not, xor, ◌&&◌, arith}
use systemc_model.Base.Bits.{has_any, has_any-two_pow}
use systemc_model.Peripherals.Gpio.{Gpio}
use systemc_model.Peripherals.Gpio
use systemc_model.Peripherals.Uart
use systemc_model.Peripherals.Uart.{Uart}
use systemc_model.Peripherals.SysCtrl.{SysCtrl}
use systemc_model.Peripherals.Wdt
use systemc_model.Peripherals.Wdt.{Wdt, wdt_ctrl_inten}
use systemc_model.Clocks.{ClockReset, pclk_div, reset_seq}
use systemc_model.Soc.{Soc}
use systemc_model.Soc.Irq.{pack_irqs_bits}
use systemc_model.Soc.Clocked.{
  Platform, settled_gpio, settled_uart, settled_wdt, on_wdt_rst, settle, at_edge, irq_levels, edge,
  edges,
}
use systemc_model.Soc.Clocked.Bite.{IsReleased, IsReleased-edge}
use systemc_model.Soc.Clocked.Reset.{iterate}
use systemc_model.Firmware.CortexM.{pl_irq_uart}
use systemc_model.Firmware.Board.Reference.{IsTimed}

-- Behind the bridge of the timer stands the timer, which an access through the bridge takes some edges
-- of the clock ahead of the other blocks: the access waits for them before it comes back.
pub record Timed (T : Type 0) : Type 0 where
  pub timer : T
  pub clk : ClockReset
  pub ahead : ℕ

abbrev pub bare : {T : Type 0} → Soc (Timed T) → Soc T
bare s = record {
  timer = s.timer.timer;
  sram = s.sram;
  gpio = s.gpio;
  uart = s.uart;
  sysctrl = s.sysctrl;
  wdt = s.wdt;
}

abbrev pub joined : {T : Type 0} → Platform T → Soc (Timed T)
joined p = record {
  timer = record { timer = p.soc.timer; clk = p.clk; ahead = 0 };
  sram = p.soc.sram;
  gpio = p.soc.gpio;
  uart = p.soc.uart;
  sysctrl = p.soc.sysctrl;
  wdt = p.soc.wdt;
}

-- The watchdog is not enabled, and the reset is released.
abbrev pub Steady : {T : Type 0} → Timed T → Wdt → Type 0
Steady x w = IsReleased x.clk × (has_any w.ctrl wdt_ctrl_inten ≡ false) × (w.irq_ev ≡ false)

-- The period of `sys_clk` in platforms/basic_cortexM/cosim_main.cpp, in nanoseconds.
abbrev pub sys_clk_period : ℕ
sys_clk_period = 10

idle_gpio : (g : Gpio) → g.irq_ev ≡ false → settled_gpio g ≡ g
idle_gpio g h = ap (λ b. if b then Gpio.drive_irq g else g) h

idle_uart : (u : Uart) → u.irq_ev ≡ false → settled_uart u ≡ u
idle_uart u h = ap (λ b. if b then Uart.drive_irq u else u) h

idle_wdt : (w : Wdt) → w.irq_ev ≡ false → settled_wdt w ≡ w
idle_wdt w h = ap (λ b. if b then Wdt.drive w else w) h

idle_tick : (w : Wdt) → has_any w.ctrl wdt_ctrl_inten ≡ false → Wdt.tick false w ≡ w
unfolding Wdt.tick
idle_tick w h = ground (arith, h)

idle_rst : (b : Bool) (c : SysCtrl) → on_wdt_rst b b c ≡ c
unfolding xor
idle_rst true c = refl
idle_rst false c = refl

-- No event of a block is notified, and the watchdog is not enabled.
record IsQuiet {T : Type 0} (s : Soc T) : Type 0 where
  gpio : s.gpio.irq_ev ≡ false
  uart : s.uart.irq_ev ≡ false
  wdt : s.wdt.irq_ev ≡ false
  disabled : has_any s.wdt.ctrl wdt_ctrl_inten ≡ false

settle-quiet : {T : Type 0} (s : Soc T) → IsQuiet s → settle s ≡ s
unfolding settle
settle-quiet s h =
    ap (λ g. record (settle s) { gpio = g }) (idle_gpio s.gpio h.gpio)
    ∙ ap (λ u. record (settle s) { gpio = s.gpio; uart = u }) (idle_uart s.uart h.uart)
    ∙ ap (λ (w : Wdt). record s { sysctrl = on_wdt_rst s.wdt.rst_req w.rst_req s.sysctrl; wdt = w })
        (idle_wdt s.wdt h.wdt)
    ∙ ap (λ c. record s { sysctrl = c }) (idle_rst s.wdt.rst_req s.sysctrl)

-- The methods run once and leave nothing notified.
settle-settled :
    {T : Type 0} (s : Soc T)
    → has_any s.wdt.ctrl wdt_ctrl_inten ≡ false
    → s.wdt.irq_ev ≡ false
    → let u = settle s in (u.sysctrl ≡ s.sysctrl) × (u.wdt ≡ s.wdt) × IsQuiet u
unfolding settle Gpio.drive_irq Uart.drive_irq
settle-settled s off h =
    let e = idle_wdt s.wdt h in
    (
      ap (λ (w : Wdt). on_wdt_rst s.wdt.rst_req w.rst_req s.sysctrl) e
          ∙ idle_rst s.wdt.rst_req s.sysctrl,
      e,
      record {
        gpio = ground arith;
        uart = ground arith;
        wdt = ap (λ (w : Wdt). w.irq_ev) e ∙ h;
        disabled = ap (λ (w : Wdt). has_any w.ctrl wdt_ctrl_inten) e ∙ off;
      },
    )

module _ {T : Type 0} (timer_edge timer_reset : T → T) (intr1 intr2 : T → Bool) where
  at_edge-quiet :
      (r : Bool) (s : Soc T)
      → IsQuiet s
      → at_edge timer_edge timer_reset intr1 intr2 false false r s
        ≡ record s { timer = timer_edge s.timer }
  unfolding at_edge xor
  at_edge-quiet true s h =
      ap (λ w. settle (record s { timer = timer_edge s.timer; wdt = w }))
        (idle_tick s.wdt h.disabled)
      ∙ settle-quiet (record s { timer = timer_edge s.timer })
          (record { gpio = h.gpio; uart = h.uart; wdt = h.wdt; disabled = h.disabled })
  at_edge-quiet false s h =
      settle-quiet (record s { timer = timer_edge s.timer })
        (record { gpio = h.gpio; uart = h.uart; wdt = h.wdt; disabled = h.disabled })

  edges-quiet :
      (n : ℕ) (p : Platform T)
      → IsReleased p.clk
      → IsQuiet p.soc
      → let q = edges timer_edge timer_reset intr1 intr2 n p in
        IsReleased q.clk × (q.soc ≡ record p.soc { timer = iterate n timer_edge p.soc.timer })
  unfolding edges edge
  edges-quiet zero p c h = (c, refl)
  edges-quiet (suc n) p c h =
      let u = reset_seq (pclk_div p.clk) in
      let (c', flips) = IsReleased-edge p.clk c in
      let soc = record p.soc { timer = timer_edge p.soc.timer } in
      let one : (edge timer_edge timer_reset intr1 intr2 p).soc ≡ soc =
        (λ i.
          at_edge timer_edge timer_reset intr1 intr2 (c.reset i) (c'.reset i)
            (not p.clk.pclk && u.pclk) p.soc)
        ∙ at_edge-quiet (not p.clk.pclk && u.pclk) p.soc h in
      let quiet : IsQuiet soc = record {
        gpio = h.gpio;
        uart = h.uart;
        wdt = h.wdt;
        disabled = h.disabled;
      } in
      let (c'', e) = edges-quiet n (edge timer_edge timer_reset intr1 intr2 p) c' (rw one quiet) in
      (c'', e ∙ ap (λ (s : Soc T). record s { timer = iterate n timer_edge s.timer }) one)

module _ {T : Type 0} (timer_edge timer_reset : T → T) (intr1 intr2 : T → Bool) where
  abbrev pub levels : Soc (Timed T) → ℕ
  levels s = irq_levels timer_edge timer_reset intr1 intr2 (bare s)

  -- The methods that an access woke, and the edges that the timer has already lived through.
  abbrev pub caught_up : Soc (Timed T) → Platform T
  caught_up s =
      let soc = settle (bare s) in
      edges (λ x. x) timer_reset intr1 intr2 s.timer.ahead
        (record {
          soc = soc;
          clk = s.timer.clk;
          irq_bits = irq_levels timer_edge timer_reset intr1 intr2 soc;
        })

  -- `d` nanoseconds after an access: first the other blocks catch up with the timer, and then the
  -- edges of the clock run everywhere.
  unfoldable pub pass : ℕ → Soc (Timed T) → Soc (Timed T)
  pass d s = joined (edges timer_edge timer_reset intr1 intr2 (d / sys_clk_period) (caught_up s))

  stay : (n : ℕ) (x : T) → iterate n (λ y. y) x ≡ x
  stay zero x = refl
  stay (suc n) x = stay n x

  -- The watchdog not enabled, the blocks catch up by waking no other method.
  caught_up-quiet :
      (s : Soc (Timed T))
      → Steady s.timer s.wdt
      → let p = caught_up s in IsReleased p.clk × (p.soc ≡ settle (bare s)) × IsQuiet p.soc
  caught_up-quiet s (c, off, h) =
      let soc = settle (bare s) in
      let p : Platform T = record {
        soc = soc;
        clk = s.timer.clk;
        irq_bits = irq_levels timer_edge timer_reset intr1 intr2 soc;
      } in
      let (sysctrl, wdt, quiet) = settle-settled (bare s) off h in
      let (c', e) = edges-quiet (λ x. x) timer_reset intr1 intr2 s.timer.ahead p c quiet in
      let same = e ∙ ap (λ x. record soc { timer = x }) (stay s.timer.ahead soc.timer) in
      (c', same, rw same quiet)

  pub pass-kept :
      (d : ℕ) (s : Soc (Timed T))
      → Steady s.timer s.wdt
      → let u = pass d s in
        let t = settle (bare s) in
        IsReleased u.timer.clk
        × (bare u ≡ record t { timer = iterate (d / sys_clk_period) timer_edge s.timer.timer })
        × (u.timer.ahead ≡ 0)
  unfolding pass settle
  pass-kept d s steady =
      let n = d / sys_clk_period in
      let p = caught_up s in
      let (c, same, quiet) = caught_up-quiet s steady in
      let (c', e) = edges-quiet timer_edge timer_reset intr1 intr2 n p c quiet in
      (c', e ∙ ap (λ (t : Soc T). record t { timer = iterate n timer_edge t.timer }) same, refl)

  line_level : (s : Soc (Timed T)) → has_any (levels s) (2 ^ pl_irq_uart) ≡ s.uart.irq
  unfolding irq_levels
  line_level s =
      has_any-two_pow (levels s) pl_irq_uart
      ∙ pack_irqs_bits (intr1 s.timer.timer) (intr2 s.timer.timer) s.uart.irq s.gpio.irq s.wdt.irq 2

  -- On the clocked platform passing time is as the board's account of it says, while the reset is
  -- released and the watchdog not enabled.
  pub pass-IsTimed : IsTimed Steady pass levels
  unfolding settle
  pass-IsTimed = record {
    sram = λ d s h. ap (λ (u : Soc T). u.sram) (pass-kept d s h).1;
    gpio = λ d s h. ap (λ (u : Soc T). u.gpio) (pass-kept d s h).1;
    uart = λ d s h. ap (λ (u : Soc T). u.uart) (pass-kept d s h).1;
    sysctrl = λ d s h.
        ap (λ (u : Soc T). u.sysctrl) (pass-kept d s h).1 ∙ (settle-settled (bare s) h.1 h.2).0;
    line = line_level;
    keeps = λ d s h.
        let e : (pass d s).wdt ≡ s.wdt =
          ap (λ (u : Soc T). u.wdt) (pass-kept d s h).1 ∙ (settle-settled (bare s) h.1 h.2).1 in
        (
          (pass-kept d s h).0,
          ap (λ (w : Wdt). has_any w.ctrl wdt_ctrl_inten) e ∙ h.1,
          ap (λ (w : Wdt). w.irq_ev) e ∙ h.2,
        );
  }
