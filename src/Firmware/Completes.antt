-- ===== src/Firmware/Completes.antt =====
-- The whole run of platforms/basic_cortexM/firmware/main.c on the clocked platform, when each request
-- of the processor follows the last response at once.
pub mod Evaluation
pub mod CortexA
pub mod Terminal
use systemc_model.Base.{ℕ, ◌≤◌, ◌≡◌, refl, sym, ap, ◌∙◌, inl, inr, false, Option, none, some}
use systemc_model.Base.{arith}
use systemc_model.Peripherals.Wdt
use systemc_model.Clocks.{ClockReset}
use systemc_model.Soc.{Soc}
use systemc_model.Soc.Clocked.Reset.{iterate}
use systemc_model.Soc.Clocked.Bite.{IsReleased}
use systemc_model.Firmware.Program.{Regs, Outcome, exited, finished, fault, resume, run}
use systemc_model.Firmware.CortexM.{uart_handler, main, untimed_tests, timed_tests}
use systemc_model.Firmware.Board.{Nvic, Board}
use systemc_model.Firmware.Board.Follow.{IsNvic}
use systemc_model.Firmware.Board.Clocked.{Timed}
use systemc_model.Firmware.Board.Clocked.Rest.{AtRest, pass-AtRest-IsTimed, iterate-fixed}
use systemc_model.Firmware.Board.PinTimer.{
  PinTimer, bridge, timer_edge, timer_reset, intr1, intr2, constructed, timer_reset-constructed,
  timer_edge-constructed,
}
use systemc_model.Firmware.PowerOn.{board_at, board_at-IsReady}
use systemc_model.Firmware.SelfTest.{main_lem, untimed_tests-pass}
use systemc_model.Firmware.SelfTest.Report.{tested}
use systemc_model.Firmware.Verdict.{Verdict, HasCompleted, main-Verdict}
use systemc_model.Firmware.Program.Ends.{Allowed}
use systemc_model.Firmware.Completes.Evaluation.{
  exit_of, wait, board_irqs, pin_bus, untouched, timed_tests-exits,
}

-- The program has ended with code 0 and the closing lines, after one interrupt of the port.
abbrev pub Completed : {S : Type 0} → Outcome ℕ S → Type 0
Completed {S} o = (r : Regs) × (s : S) × (o ≡ exited 0 r s) × (r.uart_irqs ≡ 1) × HasCompleted r.out

ended : Option (ℕ × ℕ) → ℕ × ℕ
ended none = (0, 0)
ended (some x) = x

exit_of-Completed :
    {S : Type 0} (o : Outcome ℕ S) → exit_of o ≡ some (0, 1) → Allowed Verdict ⊥ o → Completed o
exit_of-Completed (finished a r s) e h = cc
exit_of-Completed fault e h = cc
exit_of-Completed (exited code r s) e (inl (good, last)) =
    (r, s, rw good refl, unfold ended in ap (λ o. (ended o).1) e, last)
exit_of-Completed (exited code r s) e (inr (bad, last)) =
    let good : code ≡ 0 = unfold ended in ap (λ o. (ended o).0) e in
    absurd (omega (arith, good, bad))

-- What the timer and the watchdog at rest make of a board.
AtRest-untouched :
    {N : Type 0} (t : Board (Timed PinTimer) N)
    → AtRest (constructed 0 0) t.soc.timer t.soc.wdt
    → t ≡ record t { soc = untouched t.soc.timer.clk.pclk t.soc }
AtRest-untouched t (c, x, w, level) = λ i. record t {
  soc = record t.soc {
    timer = record {
      timer = x i;
      clk = record {
        pclk_state = sym c.level i;
        pclk = t.soc.timer.clk.pclk;
        reset = c.reset i;
        left = c.left i;
      };
      ahead = level i;
    };
    wdt = w i;
  };
}

-- The second part from where the first one ends.
later_completes :
    {N : Type 0} (nvic : Nvic N) (r : Regs) (s t : Board (Timed PinTimer) N)
    → run (pin_bus nvic) uart_handler untimed_tests r s ≡ finished tt (tested r) t
    → AtRest (constructed 0 0) t.soc.timer t.soc.wdt
    → Completed (run (pin_bus nvic) uart_handler main r s)
later_completes nvic r s t e steady =
    let bus = pin_bus nvic in
    let later =
      main_lem bus r s
      ∙ ap (λ o. resume o (λ _ r' s'. run bus uart_handler timed_tests r' s')) e
      ∙ ap (run bus uart_handler timed_tests (tested r)) (AtRest-untouched t steady) in
    exit_of-Completed (run bus uart_handler main r s)
      (ap exit_of later ∙ timed_tests-exits nvic t.soc.timer.clk.pclk (tested r) t)
      (main-Verdict bus r s)

-- After the power-on of the platform and at least the cycles of its reset, with the timer behind its
-- pins and the clock running in every wait, the firmware runs to its end: all its tests pass, those of
-- the watchdog and the timer too, it serves the interrupt of the port exactly once, and exits with
-- code 0 just after the closing lines. Each request of the processor follows the last response at
-- once. The interrupt controller starts with no interrupt enabled, and enables those that are written
-- to it.
pub main_completes :
    {N : Type 0} (nvic : Nvic N) (cycles n val cmp : ℕ) (no_irq : N) (r : Regs)
    → IsNvic nvic
    → cycles ≤ n
    → ((lines : ℕ) → nvic.fires no_irq lines ≡ false)
    → Completed (
        run (pin_bus nvic) uart_handler main r (
          board_at bridge timer_edge timer_reset intr1 intr2 nvic cycles n
            (constructed val cmp)
            no_irq))
main_completes nvic cycles n val cmp no_irq r law h none_fires =
    let start =
      board_at bridge timer_edge timer_reset intr1 intr2 nvic cycles n (constructed val cmp)
        no_irq in
    let at_rest : iterate n timer_edge (timer_reset (constructed val cmp)) ≡ constructed 0 0 =
      ap (iterate n timer_edge) (timer_reset-constructed val cmp)
      ∙ iterate-fixed n timer_edge (constructed 0 0) timer_edge-constructed in
    let ready = rw at_rest at (
      board_at-IsReady bridge timer_edge timer_reset intr1 intr2 nvic cycles n (constructed val cmp)
        no_irq h none_fires) in
    let (t, e, steady) =
      untimed_tests-pass bridge (AtRest (constructed 0 0)) wait board_irqs (wait 10) nvic
        (pass-AtRest-IsTimed timer_edge timer_reset intr1 intr2 (constructed 0 0)
          timer_edge-constructed)
        law r start ready in
    later_completes nvic r start t e steady
