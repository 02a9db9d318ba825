-- ===== src/Firmware/Board/Clocked/Rest.antt =====
-- The clocked board while its timer and its watchdog are as the reset leaves them.
use systemc_model.Base.{ℕ, zero, suc, ◌/◌, ◌≡◌, refl, ap, ◌∙◌, Bool}
use systemc_model.Base.Bits.{has_any}
use systemc_model.Peripherals.Wdt
use systemc_model.Peripherals.Wdt.{Wdt}
use systemc_model.Soc.{Soc}
use systemc_model.Soc.Clocked.{settle}
use systemc_model.Soc.Clocked.Bite.{IsReleased}
use systemc_model.Soc.Clocked.Reset.{iterate}
use systemc_model.Firmware.Board.Reference.{IsTimed}
use systemc_model.Firmware.Board.Clocked.{
  Timed, Steady, bare, sys_clk_period, settle-settled, levels, pass, pass-kept, pass-IsTimed,
}

-- The timer is `x0`, and the watchdog has not been touched.
abbrev pub AtRest : {T : Type 0} → T → Timed T → Wdt → Type 0
AtRest x0 x w = IsReleased x.clk × (x.timer ≡ x0) × (w ≡ Wdt.wdt_apb) × (x.ahead ≡ 0)

pub AtRest-Steady : {T : Type 0} {x0 : T} (x : Timed T) (w : Wdt) → AtRest x0 x w → Steady x w
AtRest-Steady x w (c, same, e, _) =
    (c, ap (λ (u : Wdt). has_any u.ctrl Wdt.wdt_ctrl_inten) e, ap (λ (u : Wdt). u.irq_ev) e)

pub iterate-fixed : {A : Type 0} (n : ℕ) (f : A → A) (x : A) → f x ≡ x → iterate n f x ≡ x
iterate-fixed zero f x e = refl
iterate-fixed (suc n) f x e = ap (iterate n f) e ∙ iterate-fixed n f x e

module _ {T : Type 0} (timer_edge timer_reset : T → T) (intr1 intr2 : T → Bool) where
  pass-rest :
      (d : ℕ) (s : Soc (Timed T))
      → Steady s.timer s.wdt
      → let u = pass timer_edge timer_reset intr1 intr2 d s in
        (u.timer.timer ≡ iterate (d / sys_clk_period) timer_edge s.timer.timer)
        × (u.wdt ≡ s.wdt)
        × (u.timer.ahead ≡ 0)
  unfolding settle
  pass-rest d s (c, off, h) =
      let (c', e, level) = pass-kept timer_edge timer_reset intr1 intr2 d s (c, off, h) in
      (
        ap (λ (t : Soc T). t.timer) e,
        ap (λ (t : Soc T). t.wdt) e ∙ (settle-settled (bare s) off h).1,
        level,
      )

  -- So they stay, if an edge leaves the timer as it is.
  pub pass-AtRest-IsTimed :
      (x0 : T)
      → timer_edge x0 ≡ x0
      → IsTimed
          (AtRest x0)
          (pass timer_edge timer_reset intr1 intr2)
          (levels timer_edge timer_reset intr1 intr2)
  pass-AtRest-IsTimed x0 fixed =
      let timed = pass-IsTimed timer_edge timer_reset intr1 intr2 in
      record {
        sram = λ d s h. timed.sram d s (AtRest-Steady s.timer s.wdt h);
        gpio = λ d s h. timed.gpio d s (AtRest-Steady s.timer s.wdt h);
        uart = λ d s h. timed.uart d s (AtRest-Steady s.timer s.wdt h);
        sysctrl = λ d s h. timed.sysctrl d s (AtRest-Steady s.timer s.wdt h);
        line = timed.line;
        keeps = λ d s h.
            let (c, same, e, _) = h in
            let steady = AtRest-Steady s.timer s.wdt h in
            let (timer, wdt, level) = pass-rest d s steady in
            (
              (timed.keeps d s steady).0,
              timer
                  ∙ ap (iterate (d / sys_clk_period) timer_edge) same
                  ∙ iterate-fixed (d / sys_clk_period) timer_edge x0 fixed,
              wdt ∙ e,
              level,
            );
      }
