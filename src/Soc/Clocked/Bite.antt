-- ===== src/Soc/Clocked/Bite.antt =====
-- What the watchdog of the platform does when nobody serves it: the path from its count to SysCtrl
-- and to the interrupt word.
use systemc_model.Base.{ltb, ◌==◌, if◌then◌else◌, ℕ, zero, suc, ◌+◌, ◌-◌, ◌/◌, bit_and, ◌≡◌}
use systemc_model.Base.{refl, ap, ◌∙◌, Bool, true, false, not, xor, ◌&&◌, ◌||◌, arith}
use systemc_model.Base.Bits.{testbit, has_any, bit_and-two_pow}
use systemc_model.Peripherals.SysCtrl
use systemc_model.Peripherals.SysCtrl.{SysCtrl}
use systemc_model.Peripherals.Wdt
use systemc_model.Peripherals.Wdt.{Wdt, wdt_ctrl_inten, wdt_ctrl_resen}
use systemc_model.Clocks.{ClockReset, pclk_div, reset_seq}
use systemc_model.Soc.{Soc}
use systemc_model.Soc.Irq.{pack_irqs_bits}
use systemc_model.Soc.Clocked.{
  Platform, settled_wdt, on_wdt_rst, settle, at_edge, irq_levels, edge, edges,
}

-- The rising edges of `pclk` among `n` edges of `sys_clk`, from its level.
abbrev pub rises : Bool → ℕ → ℕ
rises pclk n = if pclk then n / 2 else (n + 1) / 2

-- The reset is released, and no wait is left.
pub record IsReleased (c : ClockReset) : Type 0 where
  pub reset : c.reset ≡ false
  pub left : c.left ≡ 0
  pub level : c.pclk ≡ c.pclk_state

-- Both bits of the control register are set, and the lines and SysCtrl say whether the watchdog has
-- timed out.
pub record IsArmed (out : Bool) (v : ℕ) (w : Wdt) (c : SysCtrl) : Type 0 where
  pub inten : has_any w.ctrl wdt_ctrl_inten ≡ true
  pub resen : has_any w.ctrl wdt_ctrl_resen ≡ true
  pub value : w.value ≡ v
  pub ris : w.ris ≡ (if out then 1 else 0)
  pub quiet : w.irq_ev ≡ false
  pub irq : w.irq ≡ out
  pub rst_req : w.rst_req ≡ out
  pub latched : c.wdt_latched ≡ out

-- The interrupt of a watchdog that has timed out.
asks : (c : ℕ) → has_any c wdt_ctrl_inten ≡ true → has_any 1 (bit_and c wdt_ctrl_inten) ≡ true
asks c h = let e : bit_and c 1 ≡ 1 = ground (arith, bit_and-two_pow 0 c) in rw e refl

count-IsArmed :
    (out : Bool) (v : ℕ) (w : Wdt) (c : SysCtrl)
    → IsArmed out v w c
    → let u = settled_wdt (Wdt.tick false w) in
      IsArmed
        (out || (v == 0))
        (if v == 0 then w.load else v - 1)
        u
        (on_wdt_rst (Wdt.tick false w).rst_req u.rst_req c)
unfolding Wdt.tick Wdt.drive SysCtrl.on_wdt xor
count-IsArmed true v w c h = ground (arith, asks w.ctrl h.inten)
count-IsArmed false v w c h = ground (arith, asks w.ctrl h.inten)

still-IsArmed :
    (out : Bool) (v : ℕ) (w : Wdt) (c : SysCtrl)
    → IsArmed out v w c
    → let u = settled_wdt w in IsArmed out v u (on_wdt_rst w.rst_req u.rst_req c)
unfolding SysCtrl.on_wdt xor
still-IsArmed true v w c h = ground arith
still-IsArmed false v w c h = ground arith

pub IsReleased-edge :
    (c : ClockReset)
    → IsReleased c
    → let u = reset_seq (pclk_div c) in IsReleased u × (u.pclk ≡ not c.pclk)
unfolding reset_seq pclk_div
IsReleased-edge c h = ground (arith, h.reset, h.left, h.level)

-- The two levels at which the rising edges of `pclk` are counted.
rises_step : (b : Bool) (n : ℕ) → rises b (suc n) ≡ (if b then 0 else 1) + rises (not b) n
rises_step true n = ground arith
rises_step false n = ground arith

-- Timed out now or in the edges that are left.
soonest :
    (b b' out : Bool) (n v load : ℕ)
    → b' ≡ not b
    → (out || ltb v (rises b (suc n))) ≡ (
        (out || (not b && (v == 0)))
        || ltb (if not b then (if v == 0 then load else v - 1) else v) (rises b' n))
soonest true b' out n v load e = ground (arith, rises_step true n)
soonest false b' out n v load e = ground (arith, rises_step false n)

module _ {T : Type 0} (timer_edge timer_reset : T → T) (intr1 intr2 : T → Bool) where
  abbrev Armed : Bool → ℕ → Platform T → Type 0
  Armed out v p = IsReleased p.clk × IsArmed out v p.soc.wdt p.soc.sysctrl

  blocks_at_edge :
      (out : Bool) (v : ℕ) (r : Bool) (s : Soc T)
      → IsArmed out v s.wdt s.sysctrl
      → let u = at_edge timer_edge timer_reset intr1 intr2 false false r s in
        IsArmed
          (out || (r && (v == 0)))
          (if r then (if v == 0 then s.wdt.load else v - 1) else v)
          u.wdt
          u.sysctrl
  unfolding at_edge settle xor
  blocks_at_edge out v true s h = count-IsArmed out v s.wdt s.sysctrl h
  blocks_at_edge true v false s h = still-IsArmed true v s.wdt s.sysctrl h
  blocks_at_edge false v false s h = still-IsArmed false v s.wdt s.sysctrl h

  edge-Armed :
      (out : Bool) (v : ℕ) (p : Platform T)
      → Armed out v p
      → let q = edge timer_edge timer_reset intr1 intr2 p in
        (q.clk.pclk ≡ not p.clk.pclk)
        × Armed
            (out || (not p.clk.pclk && (v == 0)))
            (if not p.clk.pclk then (if v == 0 then p.soc.wdt.load else v - 1) else v)
            q
  unfolding edge
  edge-Armed out v p (c, a) =
      let (c', flips) = IsReleased-edge p.clk c in
      let r = not p.clk.pclk && (reset_seq (pclk_div p.clk)).pclk in
      let same_rise : r ≡ not p.clk.pclk = ground (arith, flips) in
      let a' = blocks_at_edge out v (not p.clk.pclk) p.soc a in
      (flips, (c', rw (c'.reset, same_rise, c.reset) a'))

  edges-Armed :
      (n : ℕ) (out : Bool) (v : ℕ) (p : Platform T)
      → Armed out v p
      → (w : ℕ) × Armed
          (out || ltb v (rises p.clk.pclk n))
          w
          (edges timer_edge timer_reset intr1 intr2 n p)
  unfolding edges
  edges-Armed zero out v p a =
      let e : (out || ltb v (rises p.clk.pclk 0)) ≡ out = ground arith in (v, rw e a)
  edges-Armed (suc n) out v p a =
      let q = edge timer_edge timer_reset intr1 intr2 p in
      let (flips, a') = edge-Armed out v p a in
      let (w, a'') = edges-Armed n _ _ q a' in
      (w, rw (soonest p.clk.pclk q.clk.pclk out n v p.soc.wdt.load flips) a'')

  -- `pack_irqs` has run since the last change of a line.
  edges-reported :
      (n : ℕ) (p : Platform T)
      → p.irq_bits ≡ irq_levels timer_edge timer_reset intr1 intr2 p.soc
      → let q = edges timer_edge timer_reset intr1 intr2 n p in
        q.irq_bits ≡ irq_levels timer_edge timer_reset intr1 intr2 q.soc
  unfolding edges edge
  edges-reported zero p e = e
  edges-reported (suc n) p e = edges-reported n (edge timer_edge timer_reset intr1 intr2 p) refl

  -- With the reset released, a watchdog that is armed with both enables and counts down from `v`
  -- times out at its rising edge of `pclk` number `v + 1`: from then on, through every further edge
  -- of the system clock, SysCtrl reports a watchdog reset and bit 4 of the interrupt word is set;
  -- before it, neither is.
  pub watchdog_bites :
      (n v : ℕ) (p : Platform T)
      → IsReleased p.clk
      → IsArmed false v p.soc.wdt p.soc.sysctrl
      → p.irq_bits ≡ irq_levels timer_edge timer_reset intr1 intr2 p.soc
      → let q = edges timer_edge timer_reset intr1 intr2 n p in
        let out = ltb v (rises p.clk.pclk n) in
        (SysCtrl.read_register q.soc.sysctrl 0x18 ≡ (if out then 1 else 0))
        × (testbit q.irq_bits 4 ≡ out)
  unfolding SysCtrl.read_register irq_levels
  watchdog_bites n v p c a reported =
      let q = edges timer_edge timer_reset intr1 intr2 n p in
      let (w, (c', a')) = edges-Armed n false v p (c, a) in
      (
        ground (arith, a'.latched),
        ap (λ b. testbit b 4) (edges-reported n p reported)
            ∙ pack_irqs_bits (intr1 q.soc.timer) (intr2 q.soc.timer) q.soc.uart.irq q.soc.gpio.irq
                q.soc.wdt.irq 4
            ∙ a'.irq,
      )
